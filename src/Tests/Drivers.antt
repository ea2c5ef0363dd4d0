-- ===== src/Tests/Drivers.antt =====
-- The theorems on the peripherals' drivers at concrete hardware.
use cannelloni_tms.Prelude.{
  ℕ, zero, suc, ◌+◌, ◌*◌, ◌/◌, ◌%◌, ◌^◌, ◌<◌, ◌≤◌, ◌≡◌, ◌≢◌, ◌⊎◌, refl, arith, List, [], ◌∷◌, ◌++◌,
  map, false, if◌then◌else◌, ◌==◌, some,
}
use cannelloni_tms.Prelude.{ok}
use cannelloni_tms.Cannelloni.Wire.{be32}
use cannelloni_tms.Can.{Dcan, Hardware, can_init}
use cannelloni_tms.Can.Wait.{can_if_wait_ready_lem}
use cannelloni_tms.Can.Mailboxes.{Object, MessageRam, receiver, TakesAll, can_init-receivers}
use cannelloni_tms.Mmio.{Device, Write}
use cannelloni_tms.Mmio.Runs.{Runs, Ends}
use cannelloni_tms.Mmio.Orders.{Orders}
use cannelloni_tms.Drivers.Spi.Transfer.{setup, transaction}
use cannelloni_tms.Drivers.Sja1105.{sja1105_init, static_config_addr}
use cannelloni_tms.Drivers.Sja1105.Format.{static_config}
use cannelloni_tms.Drivers.Sja1105.Checked.{tables}
use cannelloni_tms.Drivers.Sja1105.Init.{command, sja1105_init-Runs}
use cannelloni_tms.Drivers.Mdio.{mdio_write, mdio_read}
use cannelloni_tms.Drivers.Mdio.Phy.{written, touched, value_at}
use cannelloni_tms.Drivers.Mdio.Phy.Access.{mdio_write-Ends, mdio_read-Ends}
use cannelloni_tms.Drivers.Pinmux.{pinmux_init}
use cannelloni_tms.Drivers.Pinmux as Pinmux
use cannelloni_tms.Drivers.Pinmux.Lock.{is_open, lock_run, pinmux_init-lock_run}
use cannelloni_tms.Drivers.Vim.{vim_init}
use cannelloni_tms.Drivers.Vim.Table.{vim_init-Registered}
use cannelloni_tms.Drivers.System as System
use cannelloni_tms.Drivers.System.{switch_clocks, map_clocks, system_init, hclkcntl, wait_clocks}
use cannelloni_tms.Drivers.System.Clocks.{
  switched, sampled, shows_valid, wait_clocks_lem, map_clocks-switched,
}
use cannelloni_tms.Drivers.System.Startup.{start_order, system_init-Orders}
use cannelloni_tms.Port.SysArch.{Intrinsics, sys_arch_protect}
use cannelloni_tms.Port.SysArch.Sections.{
  Code, step, next, protected, Masking, masked, run, Shielded, Steady, sys_arch_protect-Shielded,
}
use cannelloni_tms.Tests.Devices.{
  quiet, quiet-Settles, Bus, bus_device, phy_on_bus, Manager, manager, manager_vim,
}

sja1105_init-Runs_example : Runs (sja1105_init quiet 1) tt (
    setup
    ++ (transaction (be32 (command 0x100032) ++ be32 0xB00_0800)
        ++ transaction (be32 (command static_config_addr) ++ static_config 0x9e00_030e tables)))
sja1105_init-Runs_example = sja1105_init-Runs quiet 1 quiet-Settles

-- A PHY whose registers are all 0.
abbrev blank : Bus
blank = record { answer = 0; phy = record { std = λ r. 0; ext = λ d r. 0; regcr = 0; addar = 0 } }

mdio_write-Ends_example :
    Ends (mdio_write bus_device 1 3 0x32 0xD3) blank (λ _ b. b.phy ≡ written blank.phy 0x32 0xD3)
unfolding phy_on_bus
mdio_write-Ends_example =
    mdio_write-Ends bus_device 1 3 (omega arith) phy_on_bus 0x32 0xD3 blank (omega arith)
      (omega arith)

mdio_read-Ends_example :
    Ends
      (mdio_read bus_device 1 3 4)
      blank
      (λ v b. (v ≡ value_at blank.phy 4 % 2 ^ 16) × (b.phy ≡ touched blank.phy 4))
unfolding phy_on_bus
mdio_read-Ends_example =
    mdio_read-Ends bus_device 1 3 (omega arith) phy_on_bus 4 blank (omega arith)

pinmux_init-lock_run_example :
    (w' : Unit {0}) × (l : List (Write Pinmux.Reg)) × (pinmux_init quiet (λ r. r) tt
      ≡ ok (tt, w', l))
    × (lock_run (record { kick0 = 1; kick1 = 2 }) l ≡ some (record { kick0 = 0; kick1 = 0 }))
    × (is_open (record { kick0 = 0; kick1 = 0 }) ≡ false)
pinmux_init-lock_run_example = pinmux_init-lock_run quiet tt (record { kick0 = 1; kick1 = 2 })

abbrev fresh : Manager
fresh = record { handlers = λ i. 7; channels = λ k. 1 }

vim_init-Registered_example : Ends (vim_init manager (λ r. r) 0x100 0x200) fresh (λ _ m.
    ((j : ℕ) → j < 128 → j ≢ 1 → m.handlers j ≡ 0x100)
    × (m.handlers 1 ≡ 0x200)
    × (m.channels 0 / 2 ^ 0 % 2 ≡ 1)
    × ((k : ℕ) → k ≢ 0 → m.channels k ≡ fresh.channels k))
vim_init-Registered_example = vim_init-Registered manager (λ r. r) manager_vim 0x100 0x200 fresh

-- Clock sources of which the first read of CSVSTAT shows none, and later reads all.
abbrev clock_value : System.Reg → ℕ → ℕ
clock_value System.csvstat n = if n == 0 then 0 else 0xFF
clock_value r n = 0

abbrev clocks : Device System.Reg ℕ
clocks = record { read = λ r n. (clock_value r n, n + 1); write = λ r v n. n }

first_only : (k : ℕ) → k < 1 → shows_valid clocks (λ r. r) (sampled clocks (λ r. r) k 0) ≡ false
first_only zero h = refl
first_only (suc k) h = absurd (omega arith)

map_clocks-switched_example :
    (n : ℕ) × (l : List (Write System.Reg)) × (switch_clocks clocks
        (λ r. r)
        (sampled clocks (λ r. r) 2 0)
      ≡ ok (tt, n, l))
    × (map_clocks clocks (λ r. r) 2 0 ≡ ok (tt, n, record { reg = hclkcntl; value = 1 } ∷ l))
    × (map (λ x. x.reg) l ≡ map (λ r. r) switched)
map_clocks-switched_example =
    map_clocks-switched clocks (λ r. r) 1 2 0 (omega arith) first_only refl

-- Clock sources that are all valid at once.
abbrev locked : Device System.Reg (Unit {0})
locked = record { read = λ r w. (0xFF, w); write = λ r v w. w }

locked_ends : (w : Unit {0}) → (w1 : Unit {0}) × (wait_clocks locked (λ r. r) 1 w ≡ ok (tt, w1, []))
locked_ends w =
    (w, wait_clocks_lem locked (λ r. r) 0 1 w (omega arith) (λ k h. absurd (omega arith)) refl)

system_init-Orders_example :
    Orders
      (system_init locked (λ r. r) (λ r. System.otp_trim) 1)
      (start_order (λ r. r) (λ r. System.otp_trim))
system_init-Orders_example = system_init-Orders locked (λ r. r) (λ r. System.otp_trim) 1 locked_ends

-- A processor of which the state is the mask.
abbrev processor : Intrinsics ℕ
processor = record { enable_irq = λ c. 0; disable_irq = λ c. 1; get_cpsr = λ c. c % 2 * 128 + 19 }

abbrev processor_masking : Masking processor
processor_masking = record { enables = λ c. refl; disables = λ c. refl }

abbrev nested : Code ℕ
nested = next (step (λ c. c)) (protected (step (λ c. c)))

nested-Steady : Steady processor nested
unfolding Steady
nested-Steady = ((λ c. refl), (λ c. refl))

sys_arch_protect-Shielded_example :
    Shielded processor nested (sys_arch_protect processor 0).1
    × (masked processor (run processor (protected nested) 0) ≡ masked processor 0)
sys_arch_protect-Shielded_example =
    sys_arch_protect-Shielded processor processor_masking nested 0 nested-Steady

-- A controller whose transfers are done at once.
abbrev objects : Hardware (ℕ → Object)
objects = record {
  poll = λ s. (0, s);
  start = λ s. record s {
    ram = λ j.
        if j == s.if1no
        then record { mask = s.if1msk; arbitration = s.if1arb; control = s.if1mctl }
        else s.ram j;
  };
}

abbrev object_ram : MessageRam objects 1
object_ram = record {
  object = λ m. m;
  wait = λ s. (
    s,
    can_if_wait_ready_lem objects 0 1 s (omega arith) (λ k h. absurd (omega arith)) refl,
    (λ j. refl),
    refl,
  );
  transfer = λ s j h. refl;
  transfer_ctl = λ s. refl;
}

abbrev blank_can : Dcan (ℕ → Object)
blank_can = record {
  ctl = 1;
  btr = 0;
  tioc = 0;
  rioc = 0;
  if1msk = 0;
  if1arb = 0;
  if1mctl = 0;
  if1dat = [];
  if1cmd = 0;
  if1no = 0;
  txrq = 0;
  ram = λ j. record { mask = 0; arbitration = 0; control = 0 };
}

can_init-receivers_example :
    (s : Dcan (ℕ → Object)) × (can_init objects 1 blank_can ≡ ok s)
    × ((j : ℕ) → 2 ≤ j → j ≤ 64 → s.ram j ≡ receiver j)
    × ((j : ℕ) → (j < 2) ⊎ (64 < j) → s.ram j ≡ blank_can.ram j)
    × ((j : ℕ) → TakesAll (receiver j))
    × (s.ctl ≡ 0x1400)
can_init-receivers_example = can_init-receivers objects 1 object_ram blank_can
