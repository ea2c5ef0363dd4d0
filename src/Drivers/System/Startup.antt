-- ===== src/Drivers/System/Startup.antt =====
-- The start of the chip as a whole.
use cannelloni_tms.Prelude.{
  ℕ, ◌^◌, ◌≡◌, refl, ap, bit_or, List, [], ◌∷◌, ◌++◌, map, inl, inr, ◌==◌, Bool-cases,
}
use cannelloni_tms.Prelude.{ok}
use cannelloni_tms.Mmio.{Device, behind, and_then}
use cannelloni_tms.Drivers.Pinmux as Pinmux
use cannelloni_tms.Drivers.Pinmux.Lock.{pinmux_order, pinmux_init-Orders}
use cannelloni_tms.Mmio.Orders.{Orders, Orders-bind, registers}
use cannelloni_tms.Drivers.System.{
  Reg, pllctl1, pllctl2, pllctl3, csdis, lpomonctl, otp_trim, frdcntl, fsm_wr_ena, eeprom_config,
  fbpwrmode, clkcntl, pspwrdwnclr, hclkcntl, lpo_trim_value, setup_pll, periph_init, setup_flash,
  trim_lpo, map_clocks, system_init, switch_clocks, wait_clocks,
}
use cannelloni_tms.Drivers.System.Clocks.{switched}

-- Power and reset of the peripherals.
abbrev power_up : List Reg
power_up =
    clkcntl
    ∷ pspwrdwnclr 1 0
    ∷ pspwrdwnclr 1 1
    ∷ pspwrdwnclr 1 2
    ∷ pspwrdwnclr 1 3
    ∷ pspwrdwnclr 2 0
    ∷ pspwrdwnclr 2 1
    ∷ pspwrdwnclr 2 2
    ∷ pspwrdwnclr 2 3
    ∷ pspwrdwnclr 3 0
    ∷ pspwrdwnclr 3 1
    ∷ pspwrdwnclr 3 2
    ∷ pspwrdwnclr 3 3
    ∷ clkcntl
    ∷ []

-- The registers that the start of the chip writes, in order: the PLLs are set up and turned on
-- first, and everything else is done while they lock.
abbrev pub start_order : {R : Type 0} → (Reg → R) → (Pinmux.Reg → R) → List R
start_order at pinmux_at =
    map at (pllctl1 ∷ pllctl2 ∷ pllctl3 ∷ csdis ∷ power_up)
    ++ (map pinmux_at pinmux_order
        ++ map at (
            frdcntl ∷ fsm_wr_ena ∷ eeprom_config ∷ fsm_wr_ena ∷ fbpwrmode ∷ lpomonctl ∷ hclkcntl
            ∷ switched))

module _ {R W : Type 0} (dev : Device R W) (at : Reg → R) where
  trim_lpo-Ends :
      (w : W)
      → (w' : W) × (v : ℕ) × (trim_lpo dev at w
          ≡ ok (tt, w', record { reg = at lpomonctl; value = v } ∷ []))
  unfolding trim_lpo
  trim_lpo-Ends w =
      let w1 = (dev.read (at otp_trim) w).1 in
      let word = lpo_trim_value (dev.read (at otp_trim) w1).0 in
      elim (Bool-cases (lpo_trim_value (dev.read (at otp_trim) w).0 == 0xFFFF)) [
        | inl e ↦ (dev.write (at lpomonctl) 0x0100_1010 w1, 0x0100_1010, rw (trim_lpo, e) refl)
        | inr e ↦ (
          dev.write (at lpomonctl) (bit_or (2 ^ 24) word) (dev.read (at otp_trim) w1).1,
          bit_or (2 ^ 24) word,
          rw (trim_lpo, e) refl,
        )
      ]

  setup_pll-Orders : Orders (setup_pll dev at) (map at (pllctl1 ∷ pllctl2 ∷ pllctl3 ∷ csdis ∷ []))
  unfolding setup_pll registers
  setup_pll-Orders = record { run = λ w. (_, _, _, refl, refl) }

  periph_init-Orders : Orders (periph_init dev at) (map at power_up)
  unfolding periph_init registers
  periph_init-Orders = record { run = λ w. (_, _, _, refl, refl) }

  setup_flash-Orders :
      Orders
        (setup_flash dev at)
        (map at (frdcntl ∷ fsm_wr_ena ∷ eeprom_config ∷ fsm_wr_ena ∷ fbpwrmode ∷ []))
  unfolding setup_flash registers
  setup_flash-Orders = record { run = λ w. (_, _, _, refl, refl) }

  trim_lpo-Orders : Orders (trim_lpo dev at) (at lpomonctl ∷ [])
  unfolding registers
  trim_lpo-Orders = record { run = λ w. let (w', v, e) = trim_lpo-Ends w in (_, _, _, e, refl) }

  map_clocks-Orders :
      (fuel : ℕ)
      → ((w0 : W) → (w1 : W) × (wait_clocks dev at fuel w0 ≡ ok (tt, w1, [])))
      → Orders (map_clocks dev at fuel) (at hclkcntl ∷ map at switched)
  unfolding map_clocks switch_clocks registers
  map_clocks-Orders fuel settles = record {
    run = λ w.
        let (w1, e) = settles (dev.write (at hclkcntl) 1 w) in
        (
          _,
          _,
          _,
          ap
              (λ o.
                behind (record { reg = at hclkcntl; value = 1 } ∷ [])
                  (and_then o (λ _. switch_clocks dev at)))
              e,
          refl,
        );
  }

  -- If from every state the wait for the clock sources ends within the fuel, then the start of the
  -- chip returns, and it has written the registers in the order above: the clock domains are
  -- switched last.
  pub system_init-Orders :
      (pinmux_at : Pinmux.Reg → R) (fuel : ℕ)
      → ((w0 : W) → (w1 : W) × (wait_clocks dev at fuel w0 ≡ ok (tt, w1, [])))
      → Orders (system_init dev at pinmux_at fuel) (start_order at pinmux_at)
  unfolding system_init
  system_init-Orders pinmux_at fuel settles = Orders-bind setup_pll-Orders (λ _.
      Orders-bind periph_init-Orders (λ _. Orders-bind (pinmux_init-Orders dev pinmux_at) (λ _.
        Orders-bind setup_flash-Orders
          (λ _. Orders-bind trim_lpo-Orders (λ _. map_clocks-Orders fuel settles)))))
