-- ===== src/Drivers/Sja1105/Format.antt =====
-- What the switch reads as a static configuration: blocks with headers and checksums.
use cannelloni_tms.Prelude.{
  ℕ, zero, suc, ◌*◌, ◌/◌, ◌%◌, ◌^◌, bit_xor, List, [], ◌∷◌, ◌++◌, length, if◌then◌else◌, ◌==◌,
}
use cannelloni_tms.Cannelloni.Wire.{be32}

-- A table of the switch: its identifier, and its entries as 32-bit words.
pub record Block : Type 0 where
  pub id : ℕ
  pub words : List ℕ

-- CRC-32 as in Ethernet, lowest bit first.
crc_shift : ℕ → ℕ → ℕ
crc_shift zero c = c
crc_shift (suc n) c = crc_shift n (if c % 2 == 0 then c / 2 else bit_xor (c / 2) 0xEDB8_8320)

crc_bytes : ℕ → List ℕ → ℕ
crc_bytes c [] = c
crc_bytes c (b ∷ bs) = crc_bytes (crc_shift 8 (bit_xor c b)) bs

-- The bytes of a word, lowest first: the order in which the checksum takes them.
abbrev le32 : ℕ → List ℕ
le32 w = w % 256 ∷ w / 2 ^ 8 % 256 ∷ w / 2 ^ 16 % 256 ∷ w / 2 ^ 24 % 256 ∷ []

le_bytes : List ℕ → List ℕ
le_bytes [] = []
le_bytes (w ∷ ws) = le32 w ++ le_bytes ws

pub crc32 : List ℕ → ℕ
unfolding crc_shift crc_bytes le_bytes
crc32 ws = bit_xor (crc_bytes 0xFFFF_FFFF (le_bytes ws)) 0xFFFF_FFFF

-- Words as they are sent, highest byte first.
pub be_bytes : List ℕ → List ℕ
be_bytes [] = []
be_bytes (w ∷ ws) = be32 w ++ be_bytes ws

-- The header with its checksum, the entries, and theirs.
pub block_words : Block → List ℕ
unfolding crc32
block_words b =
    let header = b.id * 2 ^ 24 ∷ length b.words ∷ [] in
    header ++ (crc32 header ∷ (b.words ++ (crc32 b.words ∷ [])))

pub all_words : List Block → List ℕ
unfolding block_words
all_words [] = []
all_words (b ∷ bs) = block_words b ++ all_words bs

-- The device, the blocks, a header of a block with no entries, and the checksum of all words.
unfoldable pub static_config : ℕ → List Block → List ℕ
unfolding all_words crc32 be_bytes
static_config device blocks =
    let words = device ∷ (all_words blocks ++ (0 ∷ 0 ∷ [])) in
    be_bytes (words ++ (crc32 words ∷ []))
