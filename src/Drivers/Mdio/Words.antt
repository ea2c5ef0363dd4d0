-- ===== src/Drivers/Mdio/Words.antt =====
-- The words that the driver writes to USERACCESS0, as fields.
use cannelloni_tms.Prelude.{ℕ, ◌+◌, ◌*◌, ◌^◌, ◌<◌, ◌≡◌, refl, ap, ◌∙◌, arith, bit_and, bit_or}
use cannelloni_tms.Prelude.Bits.{bit_and_mask, bit_or_disjoint}
use cannelloni_tms.Drivers.Mdio.{
  useraccess0_go, useraccess0_write, useraccess0_read, phy_reg_mask, phy_addr_mask,
}

-- A request that the module is to carry out: to write (1) or to read (0), the register, the PHY and
-- the data.
abbrev pub request : ℕ → ℕ → ℕ → ℕ → ℕ
request op phy reg value = 2 ^ 31 + op * 2 ^ 30 + reg * 2 ^ 21 + phy * 2 ^ 16 + value

module _ (phy reg : ℕ) (phy_u5 : phy < 2 ^ 5) (reg_u5 : reg < 2 ^ 5) where
  phy_field : bit_and phy 0x1F ≡ phy
  phy_field = omega (arith, bit_and_mask 5 phy 0x1F refl)

  reg_field : bit_and reg 0x1F ≡ reg
  reg_field = omega (arith, bit_and_mask 5 reg 0x1F refl)

  pub read_request :
      bit_or
        (bit_or (bit_or useraccess0_read useraccess0_go) (bit_and reg phy_reg_mask * 2 ^ 21))
        (bit_and phy phy_addr_mask * 2 ^ 16)
      ≡ request 0 phy reg 0
  read_request =
      rw (phy_field, reg_field)
        (ap (λ a. bit_or a (phy * 2 ^ 16))
            (bit_or_disjoint 26 32 (reg * 2 ^ 21) (omega arith) ∙ omega arith)
          ∙ bit_or_disjoint 21 (1024 + reg) (phy * 2 ^ 16) (omega arith)
          ∙ omega arith)

  pub write_request :
      (value : ℕ)
      → value < 2 ^ 16
      → bit_or
          (bit_or
            (bit_or (bit_or useraccess0_write useraccess0_go) (bit_and reg phy_reg_mask * 2 ^ 21))
            (bit_and phy phy_addr_mask * 2 ^ 16))
          value
        ≡ request 1 phy reg value
  write_request value u16 =
      rw (phy_field, reg_field)
        (ap (λ a. bit_or (bit_or a (phy * 2 ^ 16)) value)
            (bit_or_disjoint 26 48 (reg * 2 ^ 21) (omega arith) ∙ omega arith)
          ∙ ap (λ a. bit_or a value)
              (bit_or_disjoint 21 (1536 + reg) (phy * 2 ^ 16) (omega arith) ∙ omega arith)
          ∙ bit_or_disjoint 16 ((1536 + reg) * 32 + phy) value (omega arith)
          ∙ omega arith)
