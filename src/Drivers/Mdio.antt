-- ===== src/Drivers/Mdio.antt =====
-- src/drivers/mdio.c: access to the registers of the Ethernet PHY.
pub mod Words
pub mod Phy
use cannelloni_tms.Prelude.{
  ℕ, ◌+◌, ◌*◌, ◌-◌, ◌/◌, ◌%◌, ◌^◌, bit_and, bit_or, Bool, true, false, leb, ◌==◌,
}
use cannelloni_tms.Mmio.{Device, Cmd, ◌>>=◌, ◌>>◌, pure, get, put, modify, wait}

-- The registers of the MDIO module that the driver uses.
pub data Reg : Type 0 where
  control : Reg
  useraccess0 : Reg

abbrev pub useraccess0_go : ℕ
useraccess0_go = 0x8000_0000

abbrev pub useraccess0_write : ℕ
useraccess0_write = 0x4000_0000

abbrev pub useraccess0_read : ℕ
useraccess0_read = 0

abbrev pub useraccess0_ack : ℕ
useraccess0_ack = 0x2000_0000

abbrev pub control_enable : ℕ
control_enable = 0x4000_0000

abbrev pub control_faultenb : ℕ
control_faultenb = 0x0004_0000

abbrev pub control_clkdiv : ℕ
control_clkdiv = 0xFFFF

abbrev pub phy_reg_mask : ℕ
phy_reg_mask = 0x1F

abbrev pub phy_addr_mask : ℕ
phy_addr_mask = 0x1F

abbrev pub mdio_last_std_reg : ℕ
mdio_last_std_reg = 31

abbrev pub mdio_addar : ℕ
mdio_addar = 0xE

abbrev pub mdio_regcr : ℕ
mdio_regcr = 0xD

abbrev pub mdio_regcr_devad_all : ℕ
mdio_regcr_devad_all = 0x1F

abbrev pub mdio_regcr_fn_addr : ℕ
mdio_regcr_fn_addr = 0

abbrev pub mdio_regcr_fn_data_no_incr : ℕ
mdio_regcr_fn_data_no_incr = 1 * 2 ^ 14

-- `VCLK3_FREQ`, in MHz
abbrev pub vclk3_freq : ℕ
vclk3_freq = 75

-- The test of `mdio_wait_until_rdy`
abbrev pub going : ℕ → Bool
going v = bit_and v useraccess0_go == useraccess0_go

module _ {W : Type 0} (dev : Device Reg W) (fuel : ℕ) where
  abbrev pub mdio_wait_until_rdy : Cmd Reg W (Unit {0})
  mdio_wait_until_rdy = wait dev fuel useraccess0 going

  -- The data of an answer that has been acknowledged
  pub rx_data : Cmd Reg W ℕ
  rx_data = do
    answer ← get dev useraccess0
    elim (bit_and answer useraccess0_ack == useraccess0_ack) [
      | true ↦ do value ← get dev useraccess0; pure (bit_and value 0xFFFF)
      | false ↦ pure 0
    ]

  pub mdio_reg_read : ℕ → ℕ → Cmd Reg W ℕ
  mdio_reg_read phy reg = do
    mdio_wait_until_rdy
    put dev useraccess0 (
        bit_or (bit_or (bit_or useraccess0_read useraccess0_go) (bit_and reg phy_reg_mask * 2 ^ 21))
          (bit_and phy phy_addr_mask * 2 ^ 16))
    mdio_wait_until_rdy
    rx_data

  pub mdio_reg_write : ℕ → ℕ → ℕ → Cmd Reg W (Unit {0})
  mdio_reg_write phy reg value = do
    mdio_wait_until_rdy
    put dev useraccess0 (
        bit_or
          (bit_or
            (bit_or (bit_or useraccess0_write useraccess0_go) (bit_and reg phy_reg_mask * 2 ^ 21))
            (bit_and phy phy_addr_mask * 2 ^ 16))
          value)
    mdio_wait_until_rdy

  -- The clock divider; the product is taken in floating point and is exact.
  pub mdio_init : ℕ → Cmd Reg W (Unit {0})
  mdio_init clk =
      let clk_div = (vclk3_freq * 1000000 / clk + 2 ^ 32 - 1) % 2 ^ 32 in
      put dev control
        (bit_or (bit_or (bit_and clk_div control_clkdiv) control_enable) control_faultenb)

  pub mdio_disable : Cmd Reg W (Unit {0})
  mdio_disable = modify dev control (λ v. bit_and v (2 ^ 32 - 1 - control_enable))

  -- The register number to use after an extended one has been selected; `uint8_t`, which it fits.
  pub mdio_send_addr : ℕ → ℕ → Cmd Reg W ℕ
  mdio_send_addr phy addr = elim (leb addr mdio_last_std_reg) [
    | true ↦ pure addr
    | false ↦ do
      mdio_reg_write phy mdio_regcr (bit_or mdio_regcr_fn_addr mdio_regcr_devad_all)
      mdio_reg_write phy mdio_addar addr
      mdio_reg_write phy mdio_regcr (bit_or mdio_regcr_fn_data_no_incr mdio_regcr_devad_all)
      pure mdio_addar
  ]

  pub mdio_read : ℕ → ℕ → Cmd Reg W ℕ
  mdio_read phy addr = do reg ← mdio_send_addr phy addr; mdio_reg_read phy reg

  pub mdio_write : ℕ → ℕ → ℕ → Cmd Reg W (Unit {0})
  mdio_write phy addr value = do reg ← mdio_send_addr phy addr; mdio_reg_write phy reg value
