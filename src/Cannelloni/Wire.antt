-- ===== src/Cannelloni/Wire.antt =====
-- The wire format: what one frame and one datagram are, as lists of bytes.
use cannelloni_tms.Prelude.{
  ℕ, ◌+◌, ◌/◌, ◌%◌, ◌^◌, ◌≤◌, ◌≡◌, arith, List, [], ◌∷◌, ◌++◌, length, take, length-take, ltb,
  if◌then◌else◌,
}
use cannelloni_tms.Cannelloni.Frame.{Frame, IsFrame, canfd_len}

-- A 32-bit number, and a 16-bit one, most significant byte first.
abbrev pub be32 : ℕ → List ℕ
be32 x = x / 2 ^ 24 % 256 ∷ x / 2 ^ 16 % 256 ∷ x / 2 ^ 8 % 256 ∷ x % 256 ∷ []

abbrev pub be16 : ℕ → List ℕ
be16 x = x / 256 % 256 ∷ x % 256 ∷ []

abbrev pub encode : Frame → List ℕ
encode f = be32 f.can_id ++ (f.len ∷ take (canfd_len f) f.payload)

abbrev pub encode_all : List Frame → List ℕ
encode_all [] = []
encode_all (f ∷ fs) = encode f ++ encode_all fs

-- A whole datagram: version, op code, sequence number, count of frames, frames.
abbrev pub datagram : ℕ → List Frame → List ℕ
datagram seq fs = 2 ∷ 0 ∷ seq % 256 ∷ be16 (length fs) ++ encode_all fs

-- The frames that a datagram with `room` bytes takes from position `pos` on, and the others.
abbrev pub packed : ℕ → ℕ → List Frame → List Frame
packed room pos [] = []
packed room pos (f ∷ fs) =
    let rest = packed room (pos + 5 + canfd_len f) fs in
    if ltb (pos + 5 + canfd_len f) room then f ∷ rest else []

abbrev pub unpacked : ℕ → ℕ → List Frame → List Frame
unpacked room pos [] = []
unpacked room pos (f ∷ fs) =
    let rest = unpacked room (pos + 5 + canfd_len f) fs in
    if ltb (pos + 5 + canfd_len f) room then rest else f ∷ fs

-- A frame whose data length fits the array.
pub record IsSendable (f : Frame) : Type 0 where
  pub frame : IsFrame f
  pub fits : canfd_len f ≤ 8

pub length-encode : (f : Frame) → IsSendable f → length (encode f) ≡ 5 + canfd_len f
length-encode f s = omega (arith, length-take (canfd_len f) f.payload)
