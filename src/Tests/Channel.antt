-- ===== src/Tests/Channel.antt =====
-- The theorems on a channel at concrete nodes and datagrams.
use cannelloni_tms.Prelude.{
  ℕ, ◌+◌, ◌^◌, ◌<◌, ◌≡◌, refl, arith, some, List, [], ◌∷◌, ◌++◌, map, length, length-append, All,
  drop,
}
use cannelloni_tms.Prelude.{ok, fault, write_oob}
use cannelloni_tms.Cannelloni.Frame.{Frame}
use cannelloni_tms.Cannelloni.Handle.{Node, init_cannelloni}
use cannelloni_tms.Cannelloni.Handle.Init.{IsReady, init_cannelloni-IsReady}
use cannelloni_tms.Cannelloni.Lwip.{Pbuf}
use cannelloni_tms.Cannelloni.Wire.{datagram, encode, encode_all, length-encode, be16, be32}
use cannelloni_tms.Cannelloni.Receive.{receive_loop, handle_cannelloni_frame}
use cannelloni_tms.Cannelloni.Receive.Grammar.{parse, absorb}
use cannelloni_tms.Cannelloni.Receive.Refine.{receive_loop-absorb}
use cannelloni_tms.Cannelloni.Receive.RoundTrip.{IsClassic, wire_of}
use cannelloni_tms.Cannelloni.Receive.Deliver.{
  pbuf_of, Delivered, handle_cannelloni_frame-Delivered, handle_cannelloni_frame_overlong,
}
use cannelloni_tms.Tests.Sim.{
  Sim, sim, idle, two_bytes, extended, two_bytes-IsClassic, extended-IsClassic, vacant,
  vacant-IsValid, frames_of, frames_of-Slots, node,
}

abbrev both : List Frame
both = two_bytes ∷ extended ∷ []

both-IsClassic : All IsClassic both
both-IsClassic = (two_bytes-IsClassic, (extended-IsClassic, tt))

both_small : length (encode_all both) + 6 < 2 ^ 16
both_small = omega (
  arith,
  length-append (encode two_bytes) (encode extended ++ []),
  length-append (encode extended) [],
  length-encode two_bytes two_bytes-IsClassic.sendable,
  length-encode extended extended-IsClassic.sendable,
  two_bytes-IsClassic.sendable.fits,
  extended-IsClassic.sendable.fits,
)

handle_cannelloni_frame-Delivered_example :
    (s' : Node Sim) × (handle_cannelloni_frame sim (some (pbuf_of (datagram 7 both))) node ≡ ok s')
    × Delivered node (map wire_of both) s'
    × (s'.net ≡ sim.pbuf_free (pbuf_of (datagram 7 both)) node.net)
handle_cannelloni_frame-Delivered_example =
    handle_cannelloni_frame-Delivered sim 7 two_bytes (extended ∷ []) node both-IsClassic both_small
      vacant-IsValid frames_of-Slots

-- A frame of two bytes, and one that is cut off.
abbrev cut_off : Pbuf
cut_off =
    pbuf_of (2 ∷ 0 ∷ 7 ∷ 0 ∷ 2 ∷ 0 ∷ 0 ∷ 1 ∷ 0x23 ∷ 2 ∷ 0xAA ∷ 0xBB ∷ 0 ∷ 0 ∷ 1 ∷ 0x24 ∷ 8 ∷ 1 ∷ [])

receive_loop-absorb_example :
    receive_loop 2 cut_off 5 vacant frames_of
    ≡ absorb
        (parse 2 (drop 5 cut_off.payload)).0
        (parse 2 (drop 5 cut_off.payload)).1
        vacant
        frames_of
receive_loop-absorb_example =
    receive_loop-absorb cut_off refl (omega arith) (omega arith) 2 5 vacant frames_of (omega arith)
      frames_of-Slots

abbrev nine : List ℕ
nine = 1 ∷ 2 ∷ 3 ∷ 4 ∷ 5 ∷ 6 ∷ 7 ∷ 8 ∷ 9 ∷ []

handle_cannelloni_frame_overlong_example :
    handle_cannelloni_frame sim
      (some (pbuf_of (2 ∷ 0 ∷ 7 ∷ be16 1 ++ (be32 0x123 ++ (9 ∷ (nine ++ []))))))
      node
    ≡ fault write_oob
handle_cannelloni_frame_overlong_example =
    handle_cannelloni_frame_overlong sim 7 0 0x123 9 nine [] node (omega arith) (omega arith) refl
      (omega arith) (omega arith) refl (omega arith) (omega arith) vacant-IsValid frames_of-Slots
      (omega arith)

init_cannelloni-IsReady_example :
    IsReady (init_cannelloni sim node.handle idle).0
    × ((init_cannelloni sim node.handle idle).0.config ≡ node.handle.config)
init_cannelloni-IsReady_example =
    init_cannelloni-IsReady sim node.handle idle (omega arith) (omega arith)
