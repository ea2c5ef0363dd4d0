-- ===== src/Drivers/System.antt =====
-- src/HL_system.c: clocks, flash and the power of the peripherals.
pub mod Clocks
pub mod Startup
use cannelloni_tms.Prelude.{
  ℕ, zero, suc, ◌+◌, ◌-◌, ◌*◌, ◌/◌, ◌^◌, bit_and, bit_or, bit_xor, Bool, true, false, ◌==◌,
}
use cannelloni_tms.Prelude.{stuck}
use cannelloni_tms.Mmio.{Device, Cmd, ◌>>=◌, ◌>>◌, pure, get, put, modify}
use cannelloni_tms.Drivers.Pinmux as Pinmux

-- The registers of `systemREG1`, `systemREG2`, `flashWREG` and the peripheral controllers that the
-- code uses. `otp_trim` is the word behind LPO_TRIM_VALUE; `pspwrdwnclr j i` is PSPWRDWNCLRi of
-- pcrREGj.
pub data Reg : Type 0 where
  pllctl1 : Reg
  pllctl2 : Reg
  pllctl3 : Reg
  csdis : Reg
  csvstat : Reg
  lpomonctl : Reg
  otp_trim : Reg
  frdcntl : Reg
  fsm_wr_ena : Reg
  eeprom_config : Reg
  fbpwrmode : Reg
  clkcntl : Reg
  pspwrdwnclr : ℕ → ℕ → Reg
  hclkcntl : Reg
  ghvsrc : Reg
  rclksrc : Reg
  vclkasrc : Reg
  clk2cntrl : Reg
  vclkacon1 : Reg

abbrev pub sys_pll1 : ℕ
sys_pll1 = 1

abbrev pub sys_vclk : ℕ
sys_vclk = 9

abbrev pub sys_active : ℕ
sys_active = 3

-- `LPO_TRIM_VALUE`, of the word behind it.
abbrev pub lpo_trim_value : ℕ → ℕ
lpo_trim_value word = bit_and word 0xFFFF_0000 / 2 ^ 16

-- Every source that CSDIS leaves on is valid in CSVSTAT.
abbrev pub all_valid : ℕ → ℕ → Bool
all_valid stat dis =
    bit_and stat (bit_and (bit_xor dis 0xFF) 0xFF) == bit_and (bit_xor dis 0xFF) 0xFF

-- `at` is where the registers are among those of the device.
module _ {R W : Type 0} (dev : Device R W) (at : Reg → R) where
  pub setup_pll : Cmd R W (Unit {0})
  setup_pll = do
    put dev (at pllctl1)
        (bit_or (bit_or (bit_or 0x2000_0000 (0x1F * 2 ^ 24)) ((8 - 1) * 2 ^ 16)) 0x9500)
    put dev (at pllctl2) (bit_or (bit_or (255 * 2 ^ 22) (7 * 2 ^ 12)) 61)
    put dev (at pllctl3) (bit_or (bit_or (0x1F * 2 ^ 24) ((8 - 1) * 2 ^ 16)) 0x2700)
    put dev (at csdis) (bit_or (bit_or 0x08 0x80) 0x04)

  pub trim_lpo : Cmd R W (Unit {0})
  trim_lpo = do
    first ← get dev (at otp_trim)
    elim (lpo_trim_value first == 0xFFFF) [
      | false ↦ do
        word ← get dev (at otp_trim)
        put dev (at lpomonctl) (bit_or (1 * 2 ^ 24) (lpo_trim_value word))
      | true ↦ put dev (at lpomonctl) (bit_or (bit_or (1 * 2 ^ 24) (16 * 2 ^ 8)) 16)
    ]

  pub setup_flash : Cmd R W (Unit {0})
  setup_flash = do
    put dev (at frdcntl) (bit_or (3 * 2 ^ 8) 3)
    put dev (at fsm_wr_ena) 0x5
    put dev (at eeprom_config) (bit_or 0x02 (9 * 2 ^ 16))
    put dev (at fsm_wr_ena) 0x2
    put dev (at fbpwrmode)
        (bit_or (bit_or (sys_active * 2 ^ 14) (sys_active * 2 ^ 2)) (sys_active * 2 ^ 0))

  pub periph_init : Cmd R W (Unit {0})
  periph_init = do
    modify dev (at clkcntl) (λ v. bit_and v 0xFFFF_FEFF)
    put dev (at (pspwrdwnclr 1 0)) 0xFFFF_FFFF
    put dev (at (pspwrdwnclr 1 1)) 0xFFFF_FFFF
    put dev (at (pspwrdwnclr 1 2)) 0xFFFF_FFFF
    put dev (at (pspwrdwnclr 1 3)) 0xFFFF_FFFF
    put dev (at (pspwrdwnclr 2 0)) 0xFFFF_FFFF
    put dev (at (pspwrdwnclr 2 1)) 0xFFFF_FFFF
    put dev (at (pspwrdwnclr 2 2)) 0xFFFF_FFFF
    put dev (at (pspwrdwnclr 2 3)) 0xFFFF_FFFF
    put dev (at (pspwrdwnclr 3 0)) 0xFFFF_FFFF
    put dev (at (pspwrdwnclr 3 1)) 0xFFFF_FFFF
    put dev (at (pspwrdwnclr 3 2)) 0xFFFF_FFFF
    put dev (at (pspwrdwnclr 3 3)) 0xFFFF_FFFF
    modify dev (at clkcntl) (λ v. bit_or v 0x100)

  -- The loop of `mapClocks` that waits for the clock sources, with fuel for its rounds.
  pub wait_clocks : ℕ → Cmd R W (Unit {0})
  wait_clocks zero = λ w. stuck
  wait_clocks (suc fuel) = do
    stat ← get dev (at csvstat)
    dis ← get dev (at csdis)
    elim (all_valid stat dis) [ true ↦ pure tt | false ↦ wait_clocks fuel ]

  -- What `mapClocks` does behind the loop.
  pub switch_clocks : Cmd R W (Unit {0})
  switch_clocks = do
    put dev (at ghvsrc) (bit_or (bit_or (sys_pll1 * 2 ^ 24) (sys_pll1 * 2 ^ 16)) (sys_pll1 * 2 ^ 0))
    put dev (at rclksrc)
        (bit_or (bit_or (bit_or (1 * 2 ^ 24) (sys_vclk * 2 ^ 16)) (1 * 2 ^ 8)) (sys_vclk * 2 ^ 0))
    put dev (at vclkasrc) (bit_or (sys_vclk * 2 ^ 8) (sys_vclk * 2 ^ 0))
    modify dev (at clkcntl) (λ v. bit_or (bit_and v 0xF0FF_FFFF) (1 * 2 ^ 24))
    modify dev (at clkcntl) (λ v. bit_or (bit_and v 0xFFF0_FFFF) (1 * 2 ^ 16))
    modify dev (at clk2cntrl) (λ v. bit_or (bit_and v 0xFFFF_FFF0) (1 * 2 ^ 0))
    put dev (at vclkacon1)
        (bit_or (bit_or ((2 - 1) * 2 ^ 24) (sys_vclk * 2 ^ 16)) (sys_vclk * 2 ^ 0))
    modify dev (at pllctl1) (λ v. bit_and v 0xE0FF_FFFF)
    modify dev (at pllctl3) (λ v. bit_and v 0xE0FF_FFFF)

  pub map_clocks : ℕ → Cmd R W (Unit {0})
  map_clocks fuel = do put dev (at hclkcntl) 1; wait_clocks fuel; switch_clocks

  pub system_init : (Pinmux.Reg → R) → ℕ → Cmd R W (Unit {0})
  system_init pinmux_at fuel = do
    setup_pll
    periph_init
    Pinmux.pinmux_init dev pinmux_at
    setup_flash
    trim_lpo
    map_clocks fuel
