-- ===== src/Drivers/Mdio/Phy/Access.antt =====
-- Reads and writes of standard and extended registers of the PHY.
use cannelloni_tms.Prelude.{
  ℕ, ◌/◌, ◌%◌, ◌^◌, ◌<◌, ◌≡◌, refl, ap, ◌∙◌, arith, bit_and, [], if◌then◌else◌, leb, dec_lt,
  Bool-cases, inl, inr, true, false,
}
use cannelloni_tms.Prelude.Bits.{bit_and_mask, bit_and_bit}
use cannelloni_tms.Mmio.{Device}
use cannelloni_tms.Mmio.Runs.{
  Ends, Ends-bind, Ends-weaken, Ends-pure, Ends-put, Ends-wait, Ends-last_wait,
}
use cannelloni_tms.Drivers.Mdio.{
  Reg, useraccess0, going, mdio_reg_read, rx_data, mdio_reg_write, mdio_send_addr, mdio_read,
  mdio_write, useraccess0_ack, mdio_init, mdio_disable,
}
use cannelloni_tms.Drivers.Mdio.Words.{request, read_request, write_request}
use cannelloni_tms.Drivers.Mdio.Phy.{Phy, phy_write, phy_read, written, touched, value_at, MdioPhy}

written_lem :
    (p : Phy) (addr v : ℕ)
    → phy_write (touched p addr) (if leb addr 31 then addr else 14) v ≡ written p addr v
written_lem p addr v = elim (Bool-cases (leb addr 31)) [ inl e ↦ rw e | inr e ↦ rw e ]

value_at_lem :
    (p : Phy) (addr : ℕ)
    → phy_read (touched p addr) (if leb addr 31 then addr else 14) ≡ value_at p addr
value_at_lem p addr = elim (Bool-cases (leb addr 31)) [ inl e ↦ rw e | inr e ↦ rw e ]

module _ {W : Type 0} (dev : Device Reg W) (fuel n : ℕ) (n_u5 : n < 2 ^ 5)
    (bus : MdioPhy dev fuel n) where
  open bus use {phy, Idle, ends, writes, reads, answers}

  mdio_reg_write-Ends :
      (reg v : ℕ) (w : W)
      → reg < 2 ^ 5
      → v < 2 ^ 16
      → Ends (mdio_reg_write dev fuel n reg v) w (λ _ w'. phy w' ≡ phy_write (phy w) reg v)
  unfolding mdio_reg_write
  mdio_reg_write-Ends reg v w reg_u5 u16 =
      let (w1, end1, idle, same1) = ends w in
      let (w2, end2, idle2, same2) = ends (dev.write useraccess0 (request 1 n reg v) w1) in
      rw (write_request n reg n_u5 reg_u5 v u16) (
        Ends-wait dev fuel useraccess0 going _ end1 (
          Ends-put dev useraccess0 _ _ (
            Ends-last_wait dev fuel useraccess0 going end2
              (same2 ∙ writes w1 reg v idle reg_u5 u16 ∙ ap (λ x. phy_write x reg v) same1))))

  rx_data-Ends :
      (w w' : W)
      → let again = dev.read useraccess0 (dev.read useraccess0 w').1 in
        (dev.read useraccess0 w').0 / 2 ^ 29 % 2 ≡ 1
        → Ends (rx_data dev fuel) w' (λ v w''. (v ≡ again.0 % 2 ^ 16) × (w'' ≡ again.1))
  unfolding rx_data
  rx_data-Ends w w' ack =
      let v1 = (dev.read useraccess0 w').0 in
      let flag : bit_and v1 useraccess0_ack ≡ useraccess0_ack = omega (arith, bit_and_bit 29 v1) in
      record {
        result = bit_and (dev.read useraccess0 (dev.read useraccess0 w').1).0 0xFFFF;
        state = (dev.read useraccess0 (dev.read useraccess0 w').1).1;
        trace = [];
        run = rw (flag, rx_data);
        post = (bit_and_mask 16 _ 0xFFFF refl, refl);
      }

  mdio_reg_read-Ends :
      (reg : ℕ) (w : W)
      → reg < 2 ^ 5
      → Ends
          (mdio_reg_read dev fuel n reg)
          w
          (λ v w'. (v ≡ phy_read (phy w) reg % 2 ^ 16) × (phy w' ≡ phy w))
  unfolding mdio_reg_read
  mdio_reg_read-Ends reg w reg_u5 =
      let (w1, end1, idle, same1) = ends w in
      let (w2, end2, idle2, same2) = ends (dev.write useraccess0 (request 0 n reg 0) w1) in
      let (ack, value, same3) = answers w1 w2 reg idle reg_u5 end2 in
      let answer = rx_data-Ends w1 w2 ack in
      rw (read_request n reg n_u5 reg_u5) (
        Ends-wait dev fuel useraccess0 going _ end1 (
          Ends-put dev useraccess0 _ _ (
            Ends-wait dev fuel useraccess0 going _ end2 (
              Ends-weaken answer λ v w3 p. (
                p.0 ∙ value ∙ ap (λ x. phy_read x reg % 2 ^ 16) same1,
                ap phy p.1 ∙ same3 ∙ same1,
              )))))

  mdio_send_addr-Ends :
      (addr : ℕ) (w : W)
      → addr < 2 ^ 16
      → Ends
          (mdio_send_addr dev fuel n addr)
          w
          (λ reg w'. (reg ≡ (if leb addr 31 then addr else 14)) × (phy w' ≡ touched (phy w) addr))
  unfolding mdio_send_addr
  mdio_send_addr-Ends addr w u16 = elim (dec_lt 31 addr) [
    | no standard ↦
        let e : leb addr 31 ≡ true = ground arith in
        rw (e, mdio_send_addr) (Ends-pure dev addr (refl, refl))
    | yes extended ↦
        let e : leb addr 31 ≡ false = ground arith in
        rw (e, mdio_send_addr)
          (Ends-bind _ (mdio_reg_write-Ends 13 0x1F w (omega arith) (omega arith)) λ _ w1 p1.
            Ends-bind _ (mdio_reg_write-Ends 14 addr w1 (omega arith) u16) λ _ w2 p2.
              Ends-bind _ (mdio_reg_write-Ends 13 0x401F w2 (omega arith) (omega arith)) λ _ w3 p3.
                Ends-pure dev 14 (
                  refl,
                  p3 ∙ ap (λ x. phy_write x 13 0x401F) (p2 ∙ ap (λ x. phy_write x 14 addr) p1),
                ))
  ]

  -- On an MDIO module that behaves as its manual says, with the PHY of a number of five bits on its
  -- bus, a write of 16 bits to register `addr` of the PHY, standard or extended, ends; the register
  -- has the value, an extended register is left selected, and no other register has changed.
  pub mdio_write-Ends :
      (addr v : ℕ) (w : W)
      → addr < 2 ^ 16
      → v < 2 ^ 16
      → Ends (mdio_write dev fuel n addr v) w (λ _ w'. phy w' ≡ written (phy w) addr v)
  unfolding mdio_write
  mdio_write-Ends addr v w u16 v_u16 = Ends-bind _ (mdio_send_addr-Ends addr w u16) λ reg w1 p.
      Ends-weaken (mdio_reg_write-Ends reg v w1 (rw p.0 (ground arith)) v_u16) λ _ w2 q.
        q
        ∙ ap (λ x. phy_write x reg v) p.1
        ∙ ap (λ r. phy_write (touched (phy w) addr) r v) p.0
        ∙ written_lem (phy w) addr v

  -- On such a module, a read of register `addr`, standard or extended, ends with its 16 bits; an
  -- extended register is left selected, and no other register has changed.
  pub mdio_read-Ends :
      (addr : ℕ) (w : W)
      → addr < 2 ^ 16
      → Ends
          (mdio_read dev fuel n addr)
          w
          (λ v w'. (v ≡ value_at (phy w) addr % 2 ^ 16) × (phy w' ≡ touched (phy w) addr))
  unfolding mdio_read
  mdio_read-Ends addr w u16 = Ends-bind _ (mdio_send_addr-Ends addr w u16) λ reg w1 p.
      Ends-weaken (mdio_reg_read-Ends reg w1 (rw p.0 (ground arith))) λ v w2 q. (
        q.0
            ∙ ap (λ t. t % 2 ^ 16)
                (ap (λ x. phy_read x reg) p.1
                  ∙ ap (λ r. phy_read (touched (phy w) addr) r) p.0
                  ∙ value_at_lem (phy w) addr),
        q.1 ∙ p.1,
      )

  -- The other two operations leave the PHY alone.
  pub mdio_init-Ends : (clk : ℕ) (w : W) → Ends (mdio_init dev fuel clk) w (λ _ w'. phy w' ≡ phy w)
  unfolding mdio_init
  mdio_init-Ends clk w = record {
    result = tt;
    state = _;
    trace = _;
    run = refl;
    post = bus.control_write w _;
  }

  pub mdio_disable-Ends : (w : W) → Ends (mdio_disable dev fuel) w (λ _ w'. phy w' ≡ phy w)
  unfolding mdio_disable
  mdio_disable-Ends w = record {
    result = tt;
    state = _;
    trace = _;
    run = refl;
    post = bus.control_write _ _ ∙ bus.control_read w;
  }
