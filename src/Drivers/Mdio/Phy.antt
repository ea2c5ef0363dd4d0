-- ===== src/Drivers/Mdio/Phy.antt =====
-- What the driver's requests do to a PHY with extended registers behind REGCR and ADDAR.
pub mod Access
use cannelloni_tms.Prelude.{ℕ, ◌+◌, ◌/◌, ◌%◌, ◌^◌, ◌<◌, ◌≡◌, if◌then◌else◌, ◌==◌, ◌&&◌, leb}
use cannelloni_tms.Prelude.{Exec, ok}
use cannelloni_tms.Mmio.{Device, poll}
use cannelloni_tms.Drivers.Mdio.{Reg, useraccess0, control, going}
use cannelloni_tms.Drivers.Mdio.Words.{request}

-- The registers of a PHY: those with numbers up to 31, but for REGCR and ADDAR, and the extended
-- ones by device address and number.
pub record Phy : Type 0 where
  pub std : ℕ → ℕ
  pub ext : ℕ → ℕ → ℕ
  pub regcr : ℕ
  pub addar : ℕ

-- REGCR selects by its top bits what ADDAR is: the number of the extended register (0), or that
-- register itself.
abbrev pub phy_write : Phy → ℕ → ℕ → Phy
phy_write p reg v =
    if reg == 13
    then record p { regcr = v }
    else if reg == 14
    then (if p.regcr / 2 ^ 14 == 0
        then record p { addar = v }
        else record p { ext = λ d r. if d == p.regcr % 32 && r == p.addar then v else p.ext d r })
    else record p { std = λ r. if r == reg then v else p.std r }

abbrev pub phy_read : Phy → ℕ → ℕ
phy_read p reg =
    if reg == 13
    then p.regcr
    else if reg == 14
    then (if p.regcr / 2 ^ 14 == 0 then p.addar else p.ext (p.regcr % 32) p.addar)
    else p.std reg

-- An extended register is selected.
abbrev pub select : Phy → ℕ → Phy
select p addr = record p { regcr = 0x401F; addar = addr }

-- What a write and a read of register `addr`, standard or extended, are to do.
abbrev pub written : Phy → ℕ → ℕ → Phy
written p addr v =
    if leb addr 31
    then phy_write p addr v
    else record (select p addr) { ext = λ d r. if d == 0x1F && r == addr then v else p.ext d r }

abbrev pub touched : Phy → ℕ → Phy
touched p addr = if leb addr 31 then p else select p addr

abbrev pub value_at : Phy → ℕ → ℕ
value_at p addr = if leb addr 31 then phy_read p addr else p.ext 0x1F addr

-- The MDIO module with PHY number `n` on its bus, as its manual describes it. `Idle` holds of the
-- states in which no request is being carried out.
pub record MdioPhy {W : Type 0} (dev : Device Reg W) (fuel n : ℕ) : Type 1 where
  pub phy : W → Phy
  pub Idle : W → Type 0
  -- A request is carried out while its flag is read, in time; the reads leave the PHY alone.
  pub ends :
      (w : W) → (w' : W) × (poll dev fuel useraccess0 going w ≡ ok w') × Idle w' × (phy w' ≡ phy w)
  pub writes :
      (w : W) (reg v : ℕ)
      → Idle w
      → reg < 2 ^ 5
      → v < 2 ^ 16
      → phy (dev.write useraccess0 (request 1 n reg v) w) ≡ phy_write (phy w) reg v
  pub reads :
      (w : W) (reg : ℕ)
      → Idle w
      → reg < 2 ^ 5
      → phy (dev.write useraccess0 (request 0 n reg 0) w) ≡ phy w
  -- When a read has been carried out, USERACCESS0 has the acknowledgement and the value.
  pub answers :
      (w w' : W) (reg : ℕ)
      → Idle w
      → reg < 2 ^ 5
      → poll dev fuel useraccess0 going (dev.write useraccess0 (request 0 n reg 0) w) ≡ ok w'
      → let again = dev.read useraccess0 (dev.read useraccess0 w').1 in
        ((dev.read useraccess0 w').0 / 2 ^ 29 % 2 ≡ 1)
        × (again.0 % 2 ^ 16 ≡ phy_read (phy w) reg % 2 ^ 16)
        × (phy again.1 ≡ phy w)
  pub control_write : (w : W) (v : ℕ) → phy (dev.write control v w) ≡ phy w
  pub control_read : (w : W) → phy (dev.read control w).1 ≡ phy w
