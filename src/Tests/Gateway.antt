-- ===== src/Tests/Gateway.antt =====
-- The theorems on the loop of `main` at two channels with a controller that has two messages.
use cannelloni_tms.Prelude.{◌≡◌, refl, arith, [], ◌∷◌, length}
use cannelloni_tms.Prelude.{ok}
use cannelloni_tms.Cannelloni.Frame.{Frame, Store}
use cannelloni_tms.Cannelloni.Short.{AllShort}
use cannelloni_tms.Can.{Dcan}
use cannelloni_tms.Main.Loop.{Gateway, main_round}
use cannelloni_tms.Main.Loop.Pass.{IsSound, main_round-IsSound}
use cannelloni_tms.Main.Loop.Reachable.{round, start, then, main_round-reachable}
use cannelloni_tms.Main.Start.{main_start, AllStarted, main_start-AllStarted}
use cannelloni_tms.Tests.Sim.{Sim, sim, idle, blank, node, loaded, wrapped-IsValid, vacant-IsValid}
use cannelloni_tms.Tests.Dcan.{Ram, dcan, dcan_controller, powered, powered-Works}

abbrev empty_frames : Store
empty_frames b i = blank

empty_frames-AllShort : AllShort empty_frames
empty_frames-AllShort b i = record {
  frame = record {
    can_id_u32 = omega arith;
    len_u8 = omega arith;
    flags_u8 = omega arith;
    array = refl;
    bytes = omega arith;
  };
  short = omega arith;
}

-- A channel with frames for the bus, and one with frames for the network.
abbrev two_channels : Gateway Ram Sim
two_channels = record {
  can_interfaces =
      record { cannelloni = loaded.handle; canreg = powered }
      ∷ record { cannelloni = node.handle; canreg = powered }
      ∷ [];
  store = empty_frames;
  net = idle;
}

two_channels-IsSound : IsSound dcan_controller two_channels
two_channels-IsSound = record {
  queues = (
    record { tx = wrapped-IsValid; rx = vacant-IsValid; works = powered-Works },
    (record { tx = vacant-IsValid; rx = wrapped-IsValid; works = powered-Works }, tt),
  );
  frames = empty_frames-AllShort;
}

abbrev timeouts : Sim → Sim
timeouts n = n

first_round :
    (g : Gateway Ram Sim) × (main_round sim dcan 2 timeouts two_channels ≡ ok g)
    × IsSound dcan_controller g
first_round =
    main_round-IsSound sim dcan 2 dcan_controller timeouts two_channels two_channels-IsSound

main_round-reachable_example :
    IsSound dcan_controller first_round.0
    × ((g : Gateway Ram Sim) × (main_round sim dcan 2 timeouts first_round.0 ≡ ok g))
main_round-reachable_example =
    main_round-reachable sim dcan 2 timeouts dcan_controller two_channels first_round.0
      two_channels-IsSound (then two_channels first_round.0 start (round first_round.1))

main_start-AllStarted_example :
    (g : Gateway Ram Sim) × (main_start sim dcan 2
        (λ i. powered)
        (λ i n. n)
        0x1600_600D
        7
        empty_frames
        idle
      ≡ ok g)
    × (length g.can_interfaces ≡ 4)
    × AllStarted sim dcan 2
        (λ i. powered)
        (λ i n. n)
        0x1600_600D
        7
        dcan_controller
        0
        g.can_interfaces
    × (g.store ≡ empty_frames)
main_start-AllStarted_example =
    main_start-AllStarted sim dcan 2 (λ i. powered) (λ i n. n) 0x1600_600D 7 dcan_controller
      (λ i. powered-Works) empty_frames idle
