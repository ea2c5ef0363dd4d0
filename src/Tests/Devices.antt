-- ===== src/Tests/Devices.antt =====
-- Concrete hardware behind the drivers' registers.
use cannelloni_tms.Prelude.{
  ℕ, ◌+◌, ◌/◌, ◌%◌, ◌^◌, ◌<◌, ◌≡◌, refl, ap, sym, ◌∙◌, arith, bit_and, bit_or, false, if◌then◌else◌,
  ◌==◌,
}
use cannelloni_tms.Prelude.{ok, fault, stuck}
use cannelloni_tms.Prelude.Bits.{bit_and_bit}
use cannelloni_tms.Mmio.{Device, poll}
use cannelloni_tms.Mmio.Runs.{Settles, poll-ready}
use cannelloni_tms.Drivers.Spi as Spi
use cannelloni_tms.Drivers.Mdio as Mdio
use cannelloni_tms.Drivers.Mdio.{useraccess0, control, going}
use cannelloni_tms.Drivers.Mdio.Words.{request}
use cannelloni_tms.Drivers.Mdio.Phy.{Phy, MdioPhy, phy_write, phy_read}
use cannelloni_tms.Drivers.Vim as Vim
use cannelloni_tms.Drivers.Vim.{vim_ram, reqmaskset}
use cannelloni_tms.Drivers.Vim.Table.{VimDevice}

-- A device with one register, all bits of which are 0 whenever it is read.
abbrev pub quiet : {R : Type 0} → Device R (Unit {0})
quiet = record { read = λ r w. (0, w); write = λ r v w. w }

pub quiet-Settles : Settles quiet 1 Spi.buf Spi.tx_full
quiet-Settles w = (w, poll-ready quiet 0 Spi.buf Spi.tx_full w refl)

-- The module with a PHY on its bus: what USERACCESS0 has as data, and the PHY.
pub record Bus : Type 0 where
  pub answer : ℕ
  pub phy : Phy

-- What a request makes of the PHY, and of the data.
abbrev pub carried_out : ℕ → Bus → Bus
carried_out v b =
    let reg = v / 2 ^ 21 % 32 in
    if v / 2 ^ 30 % 2 == 1
    then record { answer = b.answer; phy = phy_write b.phy reg (v % 2 ^ 16) }
    else record { answer = phy_read b.phy reg; phy = b.phy }

abbrev mdio_value : Mdio.Reg → Bus → ℕ
mdio_value control b = 0
mdio_value useraccess0 b = 2 ^ 29 + b.answer % 2 ^ 16

abbrev mdio_written : Mdio.Reg → ℕ → Bus → Bus
mdio_written control v b = b
mdio_written useraccess0 v b = carried_out v b

abbrev pub bus_device : Device Mdio.Reg Bus
bus_device = record { read = λ r b. (mdio_value r b, b); write = mdio_written }

pub idle : (b : Bus) → poll bus_device 1 useraccess0 going b ≡ ok b
idle b =
    let e : going (2 ^ 29 + b.answer % 2 ^ 16) ≡ false =
      let m : bit_and (2 ^ 29 + b.answer % 2 ^ 16) (2 ^ 31) ≡ 0 =
        bit_and_bit 31 (2 ^ 29 + b.answer % 2 ^ 16) ∙ omega arith in
      rw m refl in
    poll-ready bus_device 0 useraccess0 going b e

module _ (b : Bus) (reg : ℕ) (reg_u5 : reg < 2 ^ 5) where
  pub writing :
      (v : ℕ)
      → v < 2 ^ 16
      → carried_out (request 1 3 reg v) b
        ≡ record { answer = b.answer; phy = phy_write b.phy reg v }
  writing v u16 =
      let op : request 1 3 reg v / 2 ^ 30 % 2 ≡ 1 = omega arith in
      let to : request 1 3 reg v / 2 ^ 21 % 32 ≡ reg = omega arith in
      let value : request 1 3 reg v % 2 ^ 16 ≡ v = omega arith in rw (op, to, value) refl

  pub reading :
      carried_out (request 0 3 reg 0) b ≡ record { answer = phy_read b.phy reg; phy = b.phy }
  reading =
      let op : request 0 3 reg 0 / 2 ^ 30 % 2 ≡ 0 = omega arith in
      let from : request 0 3 reg 0 / 2 ^ 21 % 32 ≡ reg = omega arith in rw (op, from) refl

  -- The state in which a wait that follows a read ends.
  pub read_out :
      (b' : Bus)
      → poll bus_device 1 useraccess0 going (carried_out (request 0 3 reg 0) b) ≡ ok b'
      → b' ≡ record { answer = phy_read b.phy reg; phy = b.phy }
  read_out b' e =
      ap (λ o. elim o [ ok s ↦ s | fault f ↦ b | stuck ↦ b ])
        (sym e ∙ idle (carried_out (request 0 3 reg 0) b))
      ∙ reading

unfoldable pub phy_on_bus : MdioPhy bus_device 1 3
phy_on_bus = record {
  phy = λ b. b.phy;
  Idle = λ b. Unit {0};
  ends = λ b. (b, idle b, tt, refl);
  writes = λ b reg v i h k. ap (λ x. x.phy) (writing b reg h v k);
  reads = λ b reg i h. ap (λ x. x.phy) (reading b reg h);
  answers = λ b b' reg i h e. (
    omega arith,
    ap (λ x. (2 ^ 29 + x.answer % 2 ^ 16) % 2 ^ 16) (read_out b reg h b' e) ∙ omega arith,
    ap (λ x. x.phy) (read_out b reg h b' e),
  );
  control_write = λ b v. refl;
  control_read = λ b. refl;
}

-- The interrupt manager as a table and words.
pub record Manager : Type 0 where
  pub handlers : ℕ → ℕ
  pub channels : ℕ → ℕ

abbrev manager_value : Vim.Reg → Manager → ℕ
manager_value (vim_ram i) m = m.handlers i
manager_value (reqmaskset k) m = m.channels k

abbrev manager_written : Vim.Reg → ℕ → Manager → Manager
manager_written (vim_ram i) v m = record m { handlers = λ j. if j == i then v else m.handlers j }
manager_written (reqmaskset k) v m = record m {
  channels = λ j. if j == k then bit_or (m.channels k) v else m.channels j;
}

abbrev pub manager : Device Vim.Reg Manager
manager = record { read = λ r m. (manager_value r m, m); write = manager_written }

abbrev pub manager_vim : VimDevice manager (λ r. r)
manager_vim = record {
  table = λ m. m.handlers;
  mask = λ m. m.channels;
  table_write = λ m i h j. refl;
  mask_kept = λ m i h k. refl;
  mask_write = λ m k v j. refl;
  table_kept = λ m k v j. refl;
  mask_read = λ m k. refl;
  read_table = λ m k j. refl;
  read_mask = λ m k j. refl;
}
