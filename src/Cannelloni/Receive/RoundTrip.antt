-- ===== src/Cannelloni/Receive/RoundTrip.antt =====
-- What `transmit_udp_frame` sends, `handle_cannelloni_frame` reads back.
use cannelloni_tms.Prelude.{
  ℕ, suc, ◌+◌, ◌*◌, ◌/◌, ◌%◌, ◌^◌, ◌<◌, ◌≡◌, refl, ap, ◌∙◌, arith, List, [], ◌∷◌, ◌++◌, map, length,
  take, take-append, drop-append, length-append, length-take, All, All-append, All-take, false, ltb,
}
use cannelloni_tms.Cannelloni.Frame.{Frame, IsByte, canfd_len, canfd_len-mod}
use cannelloni_tms.Cannelloni.Wire.{be32, encode, encode_all, IsSendable}
use cannelloni_tms.Cannelloni.Receive.Grammar.{WireFrame, is_rtr, parse, cons_frame, complete}
use cannelloni_tms.Cannelloni.Receive.Refine.{parse_flags-classic}
use cannelloni_tms.Cannelloni.Receive.Accept.{view, IsWhole}

-- A classic CAN data frame of at most eight bytes.
pub record IsClassic (f : Frame) : Type 0 where
  pub sendable : IsSendable f
  pub no_fd : f.len < 128
  pub no_rtr : is_rtr f.can_id ≡ false

-- `flags` is not sent for such a frame.
abbrev pub wire_of : Frame → WireFrame
wire_of f = record (view f) { flags = 0 }

wire_of-IsWhole : (f : Frame) → IsClassic f → IsWhole (wire_of f)
wire_of-IsWhole f c = record {
  byte = c.sendable.frame.len_u8;
  announced = omega (
    arith,
    length-take (canfd_len f) f.payload,
    canfd_len-mod f c.sendable.frame.len_u8,
    c.sendable.fits,
    c.sendable.frame.array,
  );
  fits = omega (arith, length-take (canfd_len f) f.payload, c.sendable.fits);
}

pub wires-IsWhole : (fs : List Frame) → All IsClassic fs → All IsWhole (map wire_of fs)
wires-IsWhole [] c = c
wires-IsWhole (f ∷ fs) c = (wire_of-IsWhole f c.0, wires-IsWhole fs c.1)

-- A classic data frame is parsed whatever its length byte, and the parser goes on behind it.
pub parse-data :
    (n can_id len : ℕ) (body bytes : List ℕ)
    → can_id < 2 ^ 32
    → is_rtr can_id ≡ false
    → len < 128
    → length body ≡ len
    → parse (suc n) (be32 can_id ++ (len ∷ (body ++ bytes)))
      ≡ cons_frame (record { can_id = can_id; len = len; flags = 0; body = body }) (parse n bytes)
unfolding parse
parse-data n can_id len body bytes u32 no_rtr no_fd size =
    let id : can_id / 2 ^ 24 % 256 * 2 ^ 24
          + can_id / 2 ^ 16 % 256 * 2 ^ 16
          + can_id / 2 ^ 8 % 256 * 2 ^ 8
          + can_id % 256
        ≡ can_id =
      omega arith in
    let dlc : len % 128 ≡ len = omega arith in
    let enough : ltb (length (body ++ bytes)) len ≡ false =
      let k = length-append body bytes in ground arith in
    rw (
      parse_flags-classic _ len (body ++ bytes) (parse n) no_fd,
      id,
      no_rtr,
      dlc,
      enough,
      take-append body bytes len size,
      drop-append body bytes len size,
    )

parse-encode :
    (n : ℕ) (f : Frame) (bytes : List ℕ)
    → IsClassic f
    → parse (suc n) (encode f ++ bytes) ≡ cons_frame (wire_of f) (parse n bytes)
parse-encode n f bytes c =
    parse-data n f.can_id f.len (take (canfd_len f) f.payload) bytes c.sendable.frame.can_id_u32
      c.no_rtr c.no_fd
      (omega (
        arith,
        length-take (canfd_len f) f.payload,
        canfd_len-mod f c.sendable.frame.len_u8,
        c.no_fd,
        c.sendable.fits,
        c.sendable.frame.array,
      ))

-- The frames of a datagram that was built from classic data frames of at most eight bytes are read
-- back: identifier, length and data are the same, and nothing is left to read.
pub parse-encode_all :
    (fs : List Frame)
    → All IsClassic fs
    → parse (length fs) (encode_all fs) ≡ (map wire_of fs, complete)
parse-encode_all [] c = unfold parse in refl
parse-encode_all (f ∷ fs) c =
    parse-encode (length fs) f (encode_all fs) c.0
    ∙ ap (cons_frame (wire_of f)) (parse-encode_all fs c.1)

pub encode_all-IsByte : (fs : List Frame) → All IsClassic fs → All IsByte (encode_all fs)
encode_all-IsByte [] c = tt
encode_all-IsByte (f ∷ fs) c =
    All-append IsByte (encode f) (encode_all fs)
      (
        omega arith,
        (
          omega arith,
          (
            omega arith,
            (
              omega arith,
              (
                c.0.sendable.frame.len_u8,
                All-take IsByte (canfd_len f) f.payload c.0.sendable.frame.bytes,
              ),
            ),
          ),
        ),
      )
      (encode_all-IsByte fs c.1)
