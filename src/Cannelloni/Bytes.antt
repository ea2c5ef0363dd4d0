-- ===== src/Cannelloni/Bytes.antt =====
-- Reads and writes of byte arrays, with a fault outside the array.
use cannelloni_tms.Prelude.{
  ℕ, zero, suc, [], ◌∷◌, ◌+◌, ◌≤◌, ◌<◌, ◌≡◌, ap, sym, ◌∙◌, arith, List, ◌++◌, length, length-append,
  take, drop, length-take, length-drop, take-append, append_assoc, leb, if◌then◌else◌, none, some,
  get_elem?,
}
use native.Mathlib.Nat.{zero-add}
use cannelloni_tms.Prelude.{Exec, ok, fault, read_oob, write_oob}

-- `a[i]`
unfoldable pub load_byte : List ℕ → ℕ → Exec ℕ
load_byte xs i = elim (get_elem? xs i) [ none ↦ fault read_oob | some b ↦ ok b ]

-- The `n` bytes from index `i` on, as `memcpy` reads them.
pub load_bytes : List ℕ → ℕ → ℕ → Exec (List ℕ)
load_bytes xs i n = if leb (i + n) (length xs) then ok (take n (drop i xs)) else fault read_oob

abbrev pub splice : List ℕ → ℕ → List ℕ → List ℕ
splice xs i bs = take i xs ++ (bs ++ drop (i + length bs) xs)

-- `bs` written at index `i`, by `memcpy` or byte after byte.
unfoldable pub store_bytes : List ℕ → ℕ → List ℕ → Exec (List ℕ)
store_bytes xs i bs =
    if leb (i + length bs) (length xs) then ok (splice xs i bs) else fault write_oob

pub load_bytes-ok :
    (xs : List ℕ) (i n : ℕ) → i + n ≤ length xs → load_bytes xs i n ≡ ok (take n (drop i xs))
unfolding load_bytes
load_bytes-ok xs i n h = ground arith

pub store_bytes-ok :
    (xs : List ℕ) (i : ℕ) (bs : List ℕ)
    → i + length bs ≤ length xs
    → store_bytes xs i bs ≡ ok (splice xs i bs)
unfolding store_bytes
store_bytes-ok xs i bs h = ground arith

pub length-splice :
    (xs : List ℕ) (i : ℕ) (bs : List ℕ)
    → i + length bs ≤ length xs
    → length (splice xs i bs) ≡ length xs
length-splice xs i bs h = omega (
  arith,
  length-append (take i xs) (bs ++ drop (i + length bs) xs),
  length-append bs (drop (i + length bs) xs),
  length-take i xs,
  length-drop (i + length bs) xs,
)

-- What precedes the end of a write: the bytes before it, and those written.
pub take-splice :
    (xs : List ℕ) (i j : ℕ) (bs : List ℕ)
    → i + length bs ≡ j
    → j ≤ length xs
    → take j (splice xs i bs) ≡ take i xs ++ bs
take-splice xs i j bs e h =
    ap (take j) (sym (append_assoc (take i xs) bs (drop (i + length bs) xs)))
    ∙ take-append (take i xs ++ bs) _ j
        (omega (arith, length-append (take i xs) bs, length-take i xs))

front :
    (bs ys zs xs : List ℕ) (j : ℕ)
    → length ys ≡ length bs
    → take j xs ≡ ys ++ zs
    → take j (bs ++ drop (length bs) xs) ≡ bs ++ zs
front [] [] zs xs j e h = h
front [] (y ∷ ys) zs xs j e h = absurd (omega arith)
front (b ∷ bs) [] zs xs j e h = absurd (omega arith)
front (b ∷ bs) (y ∷ ys) zs xs zero e h = cc
front (b ∷ bs) (y ∷ ys) zs [] (suc j) e h = cc
front (b ∷ bs) (y ∷ ys) zs (x ∷ xs) (suc j) e h =
    ap (λ l. b ∷ l) (front bs ys zs xs j (omega arith) (cc))

-- A write over the first bytes keeps what lies behind them.
pub take-splice_front :
    (xs bs ys zs : List ℕ) (j : ℕ)
    → length ys ≡ length bs
    → take j xs ≡ ys ++ zs
    → take j (splice xs 0 bs) ≡ bs ++ zs
take-splice_front xs bs ys zs j e h = rw (zero-add) (front bs ys zs xs j e h)

pub load_byte-ok : (xs : List ℕ) (i b : ℕ) → get_elem? xs i ≡ some b → load_byte xs i ≡ ok b
unfolding load_byte
load_byte-ok xs i b h = rw (h, load_byte)

pub load_byte-fault :
    (xs : List ℕ) (i : ℕ) → get_elem? xs i ≡ none → load_byte xs i ≡ fault read_oob
unfolding load_byte
load_byte-fault xs i h = rw (h, load_byte)

pub store_bytes-fault :
    (xs : List ℕ) (i : ℕ) (bs : List ℕ)
    → length xs < i + length bs
    → store_bytes xs i bs ≡ fault write_oob
unfolding store_bytes
store_bytes-fault xs i bs h = ground arith
