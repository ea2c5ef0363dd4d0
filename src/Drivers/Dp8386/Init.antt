-- ===== src/Drivers/Dp8386/Init.antt =====
-- `DP8386_init` on a PHY that keeps what is written to it.
use cannelloni_tms.Prelude.{ℕ, zero, suc, ◌%◌, ◌^◌, ◌<◌, ◌≡◌, ap, ◌∙◌, arith, ◌==◌}
use cannelloni_tms.Mmio.{Device}
use cannelloni_tms.Mmio.Runs.{Ends, Ends-bind, Ends-weaken, Ends-pure}
use cannelloni_tms.Drivers.Mdio.{Reg}
use cannelloni_tms.Drivers.Mdio.Phy.{MdioPhy, written, touched, value_at}
use cannelloni_tms.Drivers.Mdio.Phy.Access.{
  mdio_write-Ends, mdio_read-Ends, mdio_init-Ends, mdio_disable-Ends,
}
use cannelloni_tms.Drivers.Dp8386.{dp8386_rgmiictl, configure, dp8386_init}

module _ {W : Type 0} (dev : Device Reg W) (fuel : ℕ) (bus : MdioPhy dev fuel 3) where
  open bus use {phy}

  configure-Ends :
      (attempts : ℕ) (w : W)
      → Ends (configure dev fuel (suc attempts)) w (λ _ w'. phy w' ≡ written (phy w) 0x32 0xD3)
  unfolding configure
  configure-Ends attempts w =
      Ends-bind _
        (mdio_write-Ends dev fuel 3 (omega arith) bus 0x32 0xD3 w (omega arith) (omega arith))
        λ _ w1 p.
          Ends-bind _ (mdio_read-Ends dev fuel 3 (omega arith) bus 0x32 w1 (omega arith)) λ v w2 q.
            let e : v ≡ 0xD3 = q.0 ∙ ap (λ x. value_at x 0x32 % 2 ^ 16) p in
            rw (ap (λ x. x == 0xD3) e) (Ends-pure dev tt (q.1 ∙ ap (λ x. touched x 0x32) p))

  -- With at least one attempt, on an MDIO module that behaves as its manual says and a PHY with
  -- number 3 on its bus, `DP8386_init` ends; the extended register RGMIICTL of the PHY has the value
  -- 0xD3, is left selected, and no other register of the PHY has changed.
  pub dp8386_init-Ends :
      (attempts : ℕ) (w : W)
      → 0 < attempts
      → Ends
          (dp8386_init dev fuel attempts)
          w
          (λ _ w'. phy w' ≡ written (phy w) dp8386_rgmiictl 0xD3)
  unfolding dp8386_init
  dp8386_init-Ends zero w some_attempt = absurd (omega arith)
  dp8386_init-Ends (suc attempts) w some_attempt =
      Ends-bind _ (mdio_init-Ends dev fuel 3 (omega arith) bus 100000 w) λ _ w1 p.
        Ends-bind _ (configure-Ends attempts w1) λ _ w2 q.
          Ends-weaken (mdio_disable-Ends dev fuel 3 (omega arith) bus w2)
            λ _ w3 r. r ∙ q ∙ ap (λ x. written x 0x32 0xD3) p
