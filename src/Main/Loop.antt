-- ===== src/Main/Loop.antt =====
-- The endless loop of `main` in src/main.c, over the four channels with their controllers.
pub mod Pass
pub mod Arrival
pub mod Reachable
use cannelloni_tms.Prelude.{ℕ, List, [], ◌∷◌, some}
use cannelloni_tms.Prelude.{Exec, ok, ◌>>=◌}
use cannelloni_tms.Cannelloni.Frame.{Store}
use cannelloni_tms.Cannelloni.Lwip.{Lwip}
use cannelloni_tms.Cannelloni.Handle.{Handle, Node}
use cannelloni_tms.Cannelloni.Run.{run_cannelloni}
use cannelloni_tms.Can.{Dcan, Hardware}
use cannelloni_tms.Main.Receive.{on_can_receive}
use cannelloni_tms.Main.Transmit.{on_can_transmit}

-- `struct CANInterface`; its two arrays are in the store.
pub record CanInterface (M : Type 0) : Type 0 where
  pub cannelloni : Handle
  pub canreg : Dcan M

-- The interfaces, the frame arrays, and the network stack.
pub record Gateway (M N : Type 0) : Type 0 where
  pub can_interfaces : List (CanInterface M)
  pub store : Store
  pub net : N

-- One channel as `run_cannelloni` sees it.
abbrev pub node_of : {M N : Type 0} → CanInterface M → Store → N → Node N
node_of i st n = record { handle = i.cannelloni; store = st; net = n }

module _ (L : Lwip) {M : Type 0} (hw : Hardware M) (fuel : ℕ) where
  open L use {Net}

  -- The loop over the interfaces.
  pub run_interfaces : List (CanInterface M) → Store → Net → Exec (Gateway M Net)
  run_interfaces [] st n = ok (record { can_interfaces = []; store = st; net = n })
  run_interfaces (i ∷ is) st n = do
    r ←
        run_cannelloni L (some (on_can_transmit hw fuel)) (some (on_can_receive hw fuel))
          (node_of i st n) i.canreg
    g ← run_interfaces is r.0.store r.0.net
    ok (record g {
      can_interfaces = record { cannelloni = r.0.handle; canreg = r.1 } ∷ g.can_interfaces;
    })

  -- One round of the endless loop; `sys_check_timeouts` is lwIP's.
  pub main_round : (Net → Net) → Gateway M Net → Exec (Gateway M Net)
  main_round sys_check_timeouts g =
      run_interfaces g.can_interfaces g.store (sys_check_timeouts g.net)
