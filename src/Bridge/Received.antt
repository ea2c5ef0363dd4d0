-- ===== src/Bridge/Received.antt =====
-- What the bridge makes of a datagram of the gateway.
use cannelloni_tms.Prelude.{
  ℕ, zero, suc, ◌+◌, ◌-◌, ◌*◌, ◌/◌, ◌%◌, ◌^◌, ◌≤◌, ◌<◌, ◌≡◌, refl, ap, ap₂, sym, ◌∙◌, arith, bit_or,
  List, [], ◌∷◌, ◌++◌, map, length, take, drop, drop-append, drop-drop, length-append, length-take,
  append_assoc, append-nil, get_elem?, get_elem?-drop, some, All, ltb, true, false,
}
use cannelloni_tms.Prelude.{ok}
use cannelloni_tms.Prelude.Bits.{bit_or_disjoint}
use cannelloni_tms.Cannelloni.Frame.{Frame, canfd_len-mod}
use cannelloni_tms.Cannelloni.Bytes.{
  load_byte, load_byte-ok, store_bytes-ok, splice, length-splice, take-splice,
}
use cannelloni_tms.Cannelloni.Short.{IsShort}
use cannelloni_tms.Cannelloni.Wire.{be32, encode, encode_all, datagram}
use cannelloni_tms.Cannelloni.Receive.{word32}
use cannelloni_tms.Cannelloni.Receive.Prefix.{word32-bytes}
use cannelloni_tms.Bridge.{CanFrame, Locals, copy_data, read_one, read_frames, received}

-- The frame that the bridge makes of it, in the place of `junk`: bytes past the length stay.
abbrev pub host_frame : CanFrame → Frame → CanFrame
host_frame junk f = record {
  can_id = f.can_id;
  can_dlc = f.len;
  payload = splice junk.payload 0 (take f.len f.payload);
}

drop-splice :
    (xs : List ℕ) (i k : ℕ) (bs : List ℕ)
    → i + length bs ≤ length xs
    → drop (i + length bs + k) (splice xs i bs) ≡ drop (i + length bs + k) xs
drop-splice xs i k bs h =
    sym (drop-drop (i + length bs) k (splice xs i bs))
    ∙ ap (drop k) (
        ap (drop (i + length bs)) (sym (append_assoc (take i xs) bs (drop (i + length bs) xs)))
        ∙ drop-append (take i xs ++ bs) (drop (i + length bs) xs) (i + length bs)
            (omega (arith, length-append (take i xs) bs, length-take i xs)))
    ∙ drop-drop (i + length bs) k xs

take-drop : (i : ℕ) (xs : List ℕ) → take i xs ++ drop i xs ≡ xs
take-drop zero xs = refl
take-drop (suc i) [] = refl
take-drop (suc i) (x ∷ xs) = ap (λ l. x ∷ l) (take-drop i xs)

-- Byte after byte is the same as all at once.
splice-cons :
    (xs : List ℕ) (i b : ℕ) (bs : List ℕ)
    → i + 1 + length bs ≤ length xs
    → splice (splice xs i (b ∷ [])) (i + 1) bs ≡ splice xs i (b ∷ bs)
splice-cons xs i b bs h =
    ap₂ (λ x y. x ++ (bs ++ y)) (take-splice xs i (i + 1) (b ∷ []) refl (omega arith))
      (drop-splice xs i (length bs) (b ∷ []) (omega arith)
        ∙ ap (λ n. drop n xs) {y = i + suc (length bs)} (omega arith))
    ∙ append_assoc (take i xs) (b ∷ []) (bs ++ drop (i + suc (length bs)) xs)

-- A byte at a place of the buffer from which on the bytes are known.
pub load_at :
    (buffer bytes : List ℕ) (pos k b : ℕ)
    → drop pos buffer ≡ bytes
    → get_elem? bytes k ≡ some b
    → load_byte buffer (pos + k) ≡ ok b
load_at buffer bytes pos k b h e =
    load_byte-ok buffer (pos + k) b
      (sym (get_elem?-drop pos k buffer) ∙ ap (λ x. get_elem? x k) h ∙ e)

pub next_drop :
    (buffer bs rest : List ℕ) (pos n : ℕ)
    → drop pos buffer ≡ bs ++ rest
    → length bs ≡ n
    → drop (pos + n) buffer ≡ rest
next_drop buffer bs rest pos n h e =
    sym (drop-drop pos n buffer) ∙ ap (drop n) h ∙ drop-append bs rest n e

copy_data-splice :
    (bs rest buffer payload : List ℕ) (i pos : ℕ)
    → drop pos buffer ≡ bs ++ rest
    → i + length bs ≤ length payload
    → copy_data (length bs) i pos buffer payload ≡ ok (splice payload i bs, pos + length bs)
unfolding copy_data
copy_data-splice [] rest buffer payload i pos h k =
    ap₂ (λ x y. ok (x, y))
      (sym (take-drop i payload) ∙ ap (λ n. take i payload ++ drop n payload) (omega arith))
      (omega arith)
copy_data-splice (b ∷ bs) rest buffer payload i pos h k =
    let load : load_byte buffer pos ≡ ok b =
      ap (load_byte buffer) {y = pos + 0} (omega arith) ∙ load_at buffer _ pos 0 b h refl in
    let room : length (splice payload i (b ∷ [])) ≡ length payload =
      length-splice payload i (b ∷ []) (omega arith) in
    rw (copy_data, load, store_bytes-ok payload i (b ∷ []) (omega arith))
      (copy_data-splice bs rest buffer (splice payload i (b ∷ [])) (i + 1) (pos + 1)
          (next_drop buffer (b ∷ []) (bs ++ rest) pos 1 h refl) (omega arith)
        ∙ ap₂ (λ x y. ok (x, y)) (splice-cons payload i b bs (omega arith)) (omega arith))

encode-short : (f : Frame) → IsShort f → encode f ≡ be32 f.can_id ++ (f.len ∷ take f.len f.payload)
encode-short f s =
    ap (λ n. be32 f.can_id ++ (f.len ∷ take n f.payload))
      (canfd_len-mod f s.frame.len_u8 ∙ omega (arith, s.short))

length-short : (f : Frame) → IsShort f → length (take f.len f.payload) ≡ f.len
length-short f s = omega (arith, length-take f.len f.payload, s.short, s.frame.array)

module _ (junk : CanFrame) (buffer : List ℕ) (array : length junk.payload ≡ 8) where
  -- One frame.
  read_one-frame :
      (f : Frame) (rest : List ℕ) (pos : ℕ)
      → IsShort f
      → drop pos buffer ≡ encode f ++ rest
      → read_one junk buffer pos ≡ ok (host_frame junk f, pos + 5 + f.len)
  unfolding read_one
  read_one-frame f rest pos s h =
      let a = f.can_id / 2 ^ 24 % 256 in
      let b = f.can_id / 2 ^ 16 % 256 in
      let c = f.can_id / 2 ^ 8 % 256 in
      let d = f.can_id % 256 in
      let bytes = be32 f.can_id ++ (f.len ∷ (take f.len f.payload ++ rest)) in
      let at : drop pos buffer ≡ bytes = h ∙ ap (λ x. x ++ rest) (encode-short f s) in
      let load0 : load_byte buffer pos ≡ ok a =
        ap (load_byte buffer) {y = pos + 0} (omega arith) ∙ load_at buffer bytes pos 0 a at refl in
      let id : word32 a b c d ≡ f.can_id =
        word32-bytes a b c d (omega arith) (omega arith) (omega arith) (omega arith)
        ∙ omega (arith, s.frame.can_id_u32) in
      let data_at =
        next_drop buffer (be32 f.can_id ++ (f.len ∷ [])) (take f.len f.payload ++ rest) pos 5 at
          refl in
      let size = length-short f s in
      let copied =
        ap (λ n. copy_data n 0 (pos + 5) buffer junk.payload) (sym size)
        ∙ copy_data-splice (take f.len f.payload) rest buffer junk.payload 0 (pos + 5) data_at
            (omega (arith, s.short))
        ∙ ap (λ n. ok (splice junk.payload 0 (take f.len f.payload), pos + 5 + n)) size in
      rw
        (
          read_one,
          load0,
          load_at buffer bytes pos 1 b at refl,
          load_at buffer bytes pos 2 c at refl,
          load_at buffer bytes pos 3 d at refl,
          load_at buffer bytes pos 4 f.len at refl,
          copied,
          id,
        )
        refl

  read_frames-all :
      (fs : List Frame) (fuel n pos : ℕ) (rest : List ℕ) (frames : List CanFrame)
      → All IsShort fs
      → drop pos buffer ≡ encode_all fs ++ rest
      → n ≡ pos + length (encode_all fs)
      → length fs < fuel
      → length fs < 2 ^ 16
      → read_frames fuel junk n buffer pos (length fs) frames
        ≡ ok (frames ++ map (host_frame junk) fs, 0)
  unfolding read_frames
  read_frames-all fs zero n pos rest frames s h e few u16 = absurd (omega arith)
  read_frames-all [] (suc fuel) n pos rest frames s h e few u16 =
      let stop : ltb pos n ≡ false = ground arith in rw (read_frames, stop, append-nil frames) refl
  read_frames-all (f ∷ fs) (suc fuel) n pos rest frames (s, ss) h e few u16 =
      let size : length (encode f) ≡ 5 + f.len =
        ap length (encode-short f s) ∙ omega (arith, length-short f s) in
      let all = length-append (encode f) (encode_all fs) in
      let more : ltb pos n ≡ true = ground (arith, all, size) in
      let h' = h ∙ append_assoc (encode f) (encode_all fs) rest in
      let left : (length (f ∷ fs) + 2 ^ 16 - 1) % 2 ^ 16 ≡ length fs = omega arith in
      let next : drop (pos + 5 + f.len) buffer ≡ encode_all fs ++ rest =
        ap (λ k. drop k buffer) (omega arith)
        ∙ next_drop buffer (encode f) (encode_all fs ++ rest) pos (5 + f.len) h' size in
      rw (read_frames, more, read_one-frame f (encode_all fs ++ rest) pos s h', left)
        (read_frames-all fs fuel n (pos + 5 + f.len) rest (frames ++ (host_frame junk f ∷ [])) ss
            next (omega (arith, all, size)) (omega arith) (omega arith)
          ∙ ap (λ x. ok (x, 0))
              (append_assoc frames (host_frame junk f ∷ []) (map (host_frame junk) fs)))

length-encode_all : (fs : List Frame) → All IsShort fs → length fs * 5 ≤ length (encode_all fs)
length-encode_all [] s = omega arith
length-encode_all (f ∷ fs) (s, ss) = omega (
  arith,
  length-append (encode f) (encode_all fs),
  ap length (encode-short f s),
  length-encode_all fs ss,
)

-- A datagram in the gateway's format, with frames of at most 8 bytes that are not CAN FD frames, and
-- of at most 1024 bytes, which is the size of the bridge's array: the bridge gets its frames behind
-- those that it has, in order, with the same identifiers, lengths and data, and finds no frame
-- missing. Bytes of a frame past its length are not written.
pub received-datagram :
    (l : Locals) (seq : ℕ) (fs : List Frame) (frames : List CanFrame)
    → All IsShort fs
    → length l.buffer ≡ 1024
    → length l.frame.payload ≡ 8
    → length (datagram seq fs) ≤ 1024
    → received l (datagram seq fs) frames ≡ ok (frames ++ map (host_frame l.frame) fs, 0)
unfolding received
received-datagram l seq fs frames s size array fits =
    let bytes = datagram seq fs in
    let buffer = splice l.buffer 0 bytes in
    let rest = drop (length bytes) l.buffer in
    let few = length-encode_all fs s in
    let whole : buffer ≡ bytes ++ rest =
      ap (λ n. bytes ++ drop n l.buffer) {x = 0 + length bytes} {y = length bytes} (omega arith) in
    let high = length fs / 256 % 256 in
    let low = length fs % 256 in
    let count : bit_or (high * 2 ^ 8) low ≡ length fs =
      bit_or_disjoint 8 high low (omega arith) ∙ omega arith in
    let at : drop 0 buffer ≡ bytes ++ rest = whole in
    rw
      (
        received,
        store_bytes-ok l.buffer 0 bytes (omega arith),
        load_at buffer (bytes ++ rest) 0 3 high at refl,
        load_at buffer (bytes ++ rest) 0 4 low at refl,
        count,
      )
      (read_frames-all l.frame buffer array fs (length bytes) (length bytes) 5 rest frames s
        (ap (drop 5) whole) (omega arith) (omega arith) (omega arith))
