-- ===== src/Main/Start.antt =====
-- The loop of `main` in src/main.c that starts the four channels.
use cannelloni_tms.Prelude.{
  ℕ, zero, suc, ◌+◌, ◌*◌, ◌<◌, ◌≡◌, refl, ap, sym, subst, ◌∙◌, arith, List, [], ◌∷◌, length, All,
  none,
}
use cannelloni_tms.Prelude.{Exec, ok, ◌>>=◌}
use cannelloni_tms.Cannelloni.Frame.{Store}
use cannelloni_tms.Cannelloni.Lwip.{Lwip}
use cannelloni_tms.Cannelloni.Handle.{Handle, Config, init_cannelloni}
use cannelloni_tms.Cannelloni.Handle.Init.{IsReady, init_cannelloni-IsReady}
use cannelloni_tms.Cannelloni.Queue.{FramesQueue}
use cannelloni_tms.Cannelloni.Short.{AllShort}
use cannelloni_tms.Can.{Dcan, Hardware, can_init}
use cannelloni_tms.Can.Controller.{Controller, can_init-returns}
use cannelloni_tms.Main.{can_ifaces, interface_config, node_id, tx_buf, rx_buf}
use cannelloni_tms.Main.Loop.{CanInterface, Gateway}
use cannelloni_tms.Main.Loop.Pass.{HasQueues, IsSound}

abbrev unset : FramesQueue
unset = record { head = 0; tail = 0; count = 0; frames = 0 }

-- The static object of an interface, whose members are 0, with its configuration.
abbrev pub static_handle : Config → Handle
static_handle c = record {
  config = c;
  tx_queue = unset;
  rx_queue = unset;
  sequence_number = 0;
  udp_pcb = none;
  udp_rx_count = 0;
}

-- `canreg` are the registers of the four controllers, and `addr` is the multicast address that the
-- body of the loop makes of the interface's.
module _ (L : Lwip) {M : Type 0} (hw : Hardware M) (fuel : ℕ) (canreg : ℕ → Dcan M)
    (mdns_resp_add_service : ℕ → L.Net → L.Net) (die addr : ℕ) where
  open L use {Net}

  -- The body of the loop.
  pub start_interface : ℕ → Net → Exec (CanInterface M × Net)
  start_interface i net = do
    regs ← can_init hw fuel (canreg i)
    let r = init_cannelloni L (static_handle (interface_config die addr i)) net
    ok (record { cannelloni = r.0; canreg = regs }, mdns_resp_add_service i r.1)

  -- The loop with `n` rounds left, from interface `i` on.
  pub start_interfaces : ℕ → ℕ → Net → Exec (List (CanInterface M) × Net)
  start_interfaces zero i net = ok ([], net)
  start_interfaces (suc n) i net = do
    r ← start_interface i net
    t ← start_interfaces n (i + 1) r.1
    ok (r.0 ∷ t.0, t.1)

  -- The gateway when the endless loop begins; `store` are the arrays.
  pub main_start : Store → Net → Exec (Gateway M Net)
  main_start store net = start_interfaces can_ifaces 0 net >>= λ r.
      ok (record { can_interfaces = r.0; store = store; net = r.1 })

  -- Interface `i` after its start: a controller that works, and two empty queues of 128 frames over
  -- the arrays of interface 0, with the port of the channel.
  pub record IsStarted (c : Controller hw fuel) (i : ℕ) (f : CanInterface M) : Type 0 where
    pub works : c.Works f.canreg
    pub ready : IsReady f.cannelloni
    pub size : f.cannelloni.config.can_buf_size ≡ 128
    pub tx_array : f.cannelloni.config.can_tx_buf ≡ tx_buf 0
    pub rx_array : f.cannelloni.config.can_rx_buf ≡ rx_buf 0
    pub port : f.cannelloni.config.port ≡ 20000 + node_id die * 10 + i

  -- The interfaces from number `i` on.
  abbrev pub AllStarted : Controller hw fuel → ℕ → List (CanInterface M) → Type 0
  AllStarted c i [] = Unit {0}
  AllStarted c i (f ∷ fs) = IsStarted c i f × AllStarted c (i + 1) fs

  module _ (c : Controller hw fuel) (reset : (i : ℕ) → c.Works (canreg i)) where
    start_interface-IsStarted :
        (i : ℕ) (net : Net)
        → i < 4
        → (f : CanInterface M) × (net' : Net) × (start_interface i net ≡ ok (f, net'))
          × IsStarted c i f
    unfolding start_interface interface_config node_id
    start_interface-IsStarted i net few =
        let (regs, run, works) = can_init-returns hw fuel c (canreg i) (reset i) in
        let h = static_handle (interface_config die addr i) in
        let (ready, kept) = init_cannelloni-IsReady L h net (omega arith) (omega arith) in
        (
          record { cannelloni = (init_cannelloni L h net).0; canreg = regs },
          mdns_resp_add_service i (init_cannelloni L h net).1,
          rw (start_interface, run) refl,
          record {
            works = works;
            ready = ready;
            size = ap (λ x. x.can_buf_size) kept;
            tx_array = ap (λ x. x.can_tx_buf) kept;
            rx_array = ap (λ x. x.can_rx_buf) kept;
            port = ap (λ x. x.port) kept ∙ ground arith;
          },
        )

    start_interfaces-AllStarted :
        (n i : ℕ) (net : Net)
        → n + i ≡ 4
        → (is : List (CanInterface M)) × (net' : Net) × (start_interfaces n i net ≡ ok (is, net'))
          × (length is ≡ n)
          × AllStarted c i is
    unfolding start_interfaces
    start_interfaces-AllStarted zero i net few = ([], net, refl, refl, tt)
    start_interfaces-AllStarted (suc n) i net few =
        let (f, net1, run, started) = start_interface-IsStarted i net (omega arith) in
        let (is, net', rest, len, all) = start_interfaces-AllStarted n (i + 1) net1 (omega arith) in
        (f ∷ is, net', rw (start_interfaces, run, rest) refl, ap suc len, (started, all))

    -- With controllers that finish each transfer within the fuel, whatever the network stack gives
    -- out, the start returns: there are four channels, over the arrays as they were, and in order
    -- each has a controller that works, two valid and empty queues of 128 frames, which lie over the
    -- arrays of interface 0, counters at zero, and the port 20000 plus ten times the node's number
    -- plus its own.
    pub main_start-AllStarted :
        (store : Store) (net : Net)
        → (g : Gateway M Net) × (main_start store net ≡ ok g)
          × (length g.can_interfaces ≡ 4)
          × AllStarted c 0 g.can_interfaces
          × (g.store ≡ store)
    unfolding main_start
    main_start-AllStarted store net =
        let (is, net', run, len, all) = start_interfaces-AllStarted 4 0 net refl in
        (
          record { can_interfaces = is; store = store; net = net' },
          rw (main_start, run) refl,
          len,
          all,
          refl,
        )

    AllStarted-HasQueues :
        (i : ℕ) (is : List (CanInterface M)) → AllStarted c i is → All (HasQueues c) is
    AllStarted-HasQueues i [] h = tt
    AllStarted-HasQueues i (f ∷ fs) (s, h) = (
      record { tx = s.ready.tx_valid; rx = s.ready.rx_valid; works = s.works },
      AllStarted-HasQueues (i + 1) fs h,
    )

    -- Over arrays of classic frames of at most eight bytes, as those of bytes 0 are, the endless loop
    -- begins in a sound state.
    pub main_start-IsSound :
        (store : Store) (net : Net)
        → AllShort store
        → (g : Gateway M Net) × (main_start store net ≡ ok g) × IsSound c g
    main_start-IsSound store net frames =
        let (g, run, len, all, same) = main_start-AllStarted store net in
        (
          g,
          run,
          record {
            queues = AllStarted-HasQueues 0 g.can_interfaces all;
            frames = subst AllShort (sym same) frames;
          },
        )
