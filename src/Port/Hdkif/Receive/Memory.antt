-- ===== src/Port/Hdkif/Receive/Memory.antt =====
-- The memory that the driver owns while it handles a packet: descriptors that the EMAC has finished
-- with, and their buffers.
use cannelloni_tms.Prelude.{ℕ, zero, suc, ◌+◌, ◌^◌, ◌<◌, ◌≡◌, ◌≢◌, ◌⊎◌, bit_and, true, false, refl}
use cannelloni_tms.Mmio.{Device}
use cannelloni_tms.Port.Hdkif.{
  Reg, bd_next, bd_bufoff_len, bd_flags_pktlen, bd_pbuf, pbuf_next, pbuf_tot_len, pbuf_len,
  hdkif_swizzle_data,
}
use cannelloni_tms.Port.Hdkif.Interrupts.{flagged}

-- The contents of the registers and the memory, as far as they are known.
abbrev pub View : Type 0
View = Reg → ℕ

-- The lengths of buffers have 16 bits; the other members are words.
abbrev pub width : Reg → ℕ
width (pbuf_len p) = 2 ^ 16
width (pbuf_tot_len p) = 2 ^ 16
width r = 2 ^ 32

-- `view` has the contents of the memory that the driver owns, a word in each member; only a write to
-- a member changes it.
pub record RxMemory {R W : Type 0} (dev : Device R W) (at : Reg → R) : Type 1 where
  pub Own : Reg → Type 0
  pub view : W → View
  pub word : (w : W) (r : Reg) → view w r < 2 ^ 32
  pub read : (w : W) (r : Reg) → Own r → (dev.read (at r) w).0 ≡ view w r
  pub kept : (w : W) (r r' : Reg) → view (dev.read (at r) w).1 r' ≡ view w r'
  pub miss :
      (w : W) (r : Reg) (v : ℕ) (r' : Reg)
      → Own r
      → r' ≢ r
      → view (dev.write (at r) v w) r' ≡ view w r'
  pub set : (w : W) (r : Reg) (v : ℕ) → Own r → v < width r → view (dev.write (at r) v w) r ≡ v

-- The buffer of a descriptor, the descriptor that it links to, and the number of bytes in it.
abbrev pub buffer : View → ℕ → ℕ
buffer v d = v (bd_pbuf d)

abbrev pub next_bd : View → ℕ → ℕ
next_bd v d = hdkif_swizzle_data (v (bd_next d))

abbrev pub bytes : View → ℕ → ℕ
bytes v d = bit_and (hdkif_swizzle_data (v (bd_bufoff_len d))) 0xFFFF

-- For a packet that ends `c` descriptors behind `d`: its bytes from `d` on, and its last descriptor.
abbrev pub total : ℕ → View → ℕ → ℕ
total zero v d = bytes v d
total (suc c) v d = bytes v d + total c v (next_bd v d)

abbrev pub final_bd : ℕ → View → ℕ → ℕ
final_bd zero v d = d
final_bd (suc c) v d = final_bd c v (next_bd v d)

-- The buffer `p` is one of the packet's.
abbrev pub InPacket : ℕ → View → ℕ → ℕ → Type 0
InPacket zero v d p = p ≡ buffer v d
InPacket (suc c) v d p = (p ≡ buffer v d) ⊎ InPacket c v (next_bd v d) p

module _ (Own : Reg → Type 0) where
  -- The members of a descriptor and of its buffer that the driver reads and writes.
  pub record Owned (v : View) (d : ℕ) : Type 0 where
    pub flags : Own (bd_flags_pktlen d)
    pub length : Own (bd_bufoff_len d)
    pub link : Own (bd_next d)
    pub pbuf : Own (bd_pbuf d)
    pub next : Own (pbuf_next (buffer v d))
    pub len : Own (pbuf_len (buffer v d))
    pub tot_len : Own (pbuf_tot_len (buffer v d))

  -- A finished packet that ends `c` descriptors behind `d`: each buffer is another one, and has no
  -- successor or the buffer of the next descriptor.
  abbrev pub IsPacket : ℕ → View → ℕ → Type 0
  IsPacket zero v d = Owned v d × (flagged 0x4000_0000 (v (bd_flags_pktlen d)) ≡ true)
  IsPacket (suc c) v d =
      Owned v d
      × (flagged 0x4000_0000 (v (bd_flags_pktlen d)) ≡ false)
      × ((v (pbuf_next (buffer v d)) ≡ 0) ⊎ (v (pbuf_next (buffer v d)) ≡ buffer v (next_bd v d)))
      × ((p : ℕ) → InPacket c v (next_bd v d) p → buffer v d ≢ p)
      × IsPacket c v (next_bd v d)

-- A packet as one chain of buffers, `v` being the memory before and `u` after: each buffer has the
-- length that its descriptor tells, as its total the sum of its length and those behind it, and
-- links to the next one; the last one links to NULL.
abbrev pub IsChain : ℕ → View → View → ℕ → Type 0
IsChain zero v u d =
    (u (pbuf_next (buffer v d)) ≡ 0)
    × (u (pbuf_len (buffer v d)) ≡ bytes v d)
    × (u (pbuf_tot_len (buffer v d)) ≡ bytes v d)
IsChain (suc c) v u d =
    (u (pbuf_next (buffer v d)) ≡ buffer v (next_bd v d))
    × (u (pbuf_len (buffer v d)) ≡ bytes v d)
    × (u (pbuf_tot_len (buffer v d)) ≡ total (suc c) v d)
    × IsChain c v u (next_bd v d)

-- `r` is none of the members of the buffer `p` that are written.
pub record Outside (r : Reg) (p : ℕ) : Type 0 where
  pub next : r ≢ pbuf_next p
  pub len : r ≢ pbuf_len p
  pub tot_len : r ≢ pbuf_tot_len p

-- Only the buffers in `P` have been written to.
abbrev pub Only : (ℕ → Type 0) → View → View → Type 0
Only P v u = (r : Reg) → ((p : ℕ) → P p → Outside r p) → u r ≡ v r

abbrev pub Only-refl : {P : ℕ → Type 0} (v : View) → Only P v v
Only-refl v r o = refl

module _ (d p : ℕ) where
  pub bd_next-Outside : Outside (bd_next d) p
  bd_next-Outside = record { next = λ e. cc; len = λ e. cc; tot_len = λ e. cc }

  pub bd_pbuf-Outside : Outside (bd_pbuf d) p
  bd_pbuf-Outside = record { next = λ e. cc; len = λ e. cc; tot_len = λ e. cc }

  pub bd_flags-Outside : Outside (bd_flags_pktlen d) p
  bd_flags-Outside = record { next = λ e. cc; len = λ e. cc; tot_len = λ e. cc }

  pub bd_length-Outside : Outside (bd_bufoff_len d) p
  bd_length-Outside = record { next = λ e. cc; len = λ e. cc; tot_len = λ e. cc }

-- The members of another buffer.
module _ (q p : ℕ) (ne : q ≢ p) where
  pub pbuf_next-Outside : Outside (pbuf_next q) p
  pbuf_next-Outside = record { next = λ e. ne cc; len = λ e. cc; tot_len = λ e. cc }

  pub pbuf_len-Outside : Outside (pbuf_len q) p
  pbuf_len-Outside = record { next = λ e. cc; len = λ e. ne cc; tot_len = λ e. cc }

  pub pbuf_tot_len-Outside : Outside (pbuf_tot_len q) p
  pbuf_tot_len-Outside = record { next = λ e. cc; len = λ e. cc; tot_len = λ e. ne cc }
