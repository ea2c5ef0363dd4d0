-- ===== src/Port/Hdkif/Receive/Slots.antt =====
-- The descriptors that are given new buffers: what of them the driver writes, and what stays.
use cannelloni_tms.Prelude.{ℕ, zero, suc, ◌+◌, ◌≡◌, ◌≢◌, ◌⊎◌, inl, inr, bit_and, ◌∙◌}
use cannelloni_tms.Port.Hdkif.{
  Reg, bd_next, bd_bufptr, bd_bufoff_len, bd_flags_pktlen, bd_pbuf, pbuf_next, pbuf_payload,
  pbuf_len, hdkif_swizzle_data,
}
use cannelloni_tms.Port.Hdkif.Receive.Memory.{View, next_bd}

-- `r` is none of the members of the descriptor `d` that are written.
pub record OutsideBd (r : Reg) (d : ℕ) : Type 0 where
  pub bufptr : r ≢ bd_bufptr d
  pub length : r ≢ bd_bufoff_len d
  pub flags : r ≢ bd_flags_pktlen d
  pub pbuf : r ≢ bd_pbuf d

-- Only the descriptors in `P` have been written to.
abbrev pub OnlyBds : (ℕ → Type 0) → View → View → Type 0
OnlyBds P v u = (r : Reg) → ((d : ℕ) → P d → OutsideBd r d) → u r ≡ v r

-- The descriptor `x` is one of the `k + 1` from `d` on.
abbrev pub InRing : ℕ → View → ℕ → ℕ → Type 0
InRing zero v d x = x ≡ d
InRing (suc k) v d x = (x ≡ d) ⊎ InRing k v (next_bd v d) x

-- The descriptor `d` is ready to receive, with the segment `q`; `v` is the memory before.
pub record IsReady (v u : View) (q d : ℕ) : Type 0 where
  pub bufptr : u (bd_bufptr d) ≡ hdkif_swizzle_data (v (pbuf_payload q))
  pub length : u (bd_bufoff_len d) ≡ hdkif_swizzle_data (bit_and (v (pbuf_len q)) 0xFFFF)
  pub flags : u (bd_flags_pktlen d) ≡ hdkif_swizzle_data 0x2000_0000
  pub pbuf : u (bd_pbuf d) ≡ q

-- Each of the `k + 1` descriptors from `d` on has one segment of the chain from `q` on, in order.
abbrev pub AreReady : ℕ → View → View → ℕ → ℕ → Type 0
AreReady zero v u q d = IsReady v u q d
AreReady (suc k) v u q d = IsReady v u q d × AreReady k v u (v (pbuf_next q)) (next_bd v d)

-- The segment and the descriptor behind `k + 1` of them, the last of the descriptors, and the sum of
-- the lengths.
abbrev pub segment_behind : ℕ → View → ℕ → ℕ
segment_behind zero v q = v (pbuf_next q)
segment_behind (suc k) v q = segment_behind k v (v (pbuf_next q))

abbrev pub bd_behind : ℕ → View → ℕ → ℕ
bd_behind zero v d = next_bd v d
bd_behind (suc k) v d = bd_behind k v (next_bd v d)

abbrev pub last_ready : ℕ → View → ℕ → ℕ
last_ready zero v d = d
last_ready (suc k) v d = last_ready k v (next_bd v d)

abbrev pub taken : ℕ → View → ℕ → ℕ
taken zero v q = v (pbuf_len q)
taken (suc k) v q = v (pbuf_len q) + taken k v (v (pbuf_next q))

module _ (Own : Reg → Type 0) where
  -- The members of the segment and of the descriptor that the driver reads and writes.
  pub record OwnedPair (q d : ℕ) : Type 0 where
    pub payload : Own (pbuf_payload q)
    pub len : Own (pbuf_len q)
    pub next : Own (pbuf_next q)
    pub bufptr : Own (bd_bufptr d)
    pub length : Own (bd_bufoff_len d)
    pub flags : Own (bd_flags_pktlen d)
    pub pbuf : Own (bd_pbuf d)
    pub link : Own (bd_next d)

  -- There are exactly `k + 1` pairs of a segment, from `q` on, and a free descriptor, from `d` on
  -- and before `active`.
  abbrev pub IsRoom : ℕ → View → ℕ → ℕ → ℕ → Type 0
  IsRoom zero v active q d =
      OwnedPair q d × (q ≢ 0) × (d ≢ active) × ((v (pbuf_next q) ≡ 0) ⊎ (next_bd v d ≡ active))
  IsRoom (suc k) v active q d =
      OwnedPair q d
      × (q ≢ 0)
      × (d ≢ active)
      × ((x : ℕ) → InRing k v (next_bd v d) x → d ≢ x)
      × IsRoom k v active (v (pbuf_next q)) (next_bd v d)

-- Writes to other descriptors leave a descriptor ready.
pub still-IsReady :
    {Q : ℕ → Type 0} {v u u' : View} (q d : ℕ)
    → ((x : ℕ) → Q x → d ≢ x)
    → OnlyBds Q u u'
    → IsReady v u q d
    → IsReady v u' q d
still-IsReady q d apart o h = record {
  bufptr =
      o (bd_bufptr d) (λ x hx. record {
        bufptr = λ e. apart x hx cc;
        length = λ e. cc;
        flags = λ e. cc;
        pbuf = λ e. cc;
      })
      ∙ h.bufptr;
  length =
      o (bd_bufoff_len d) (λ x hx. record {
        bufptr = λ e. cc;
        length = λ e. apart x hx cc;
        flags = λ e. cc;
        pbuf = λ e. cc;
      })
      ∙ h.length;
  flags =
      o (bd_flags_pktlen d) (λ x hx. record {
        bufptr = λ e. cc;
        length = λ e. cc;
        flags = λ e. apart x hx cc;
        pbuf = λ e. cc;
      })
      ∙ h.flags;
  pbuf =
      o (bd_pbuf d) (λ x hx. record {
        bufptr = λ e. cc;
        length = λ e. cc;
        flags = λ e. cc;
        pbuf = λ e. apart x hx cc;
      })
      ∙ h.pbuf;
}

-- What the driver only reads is as it was.
pub unread :
    {P : ℕ → Type 0} {v u : View} (q d : ℕ)
    → OnlyBds P v u
    → (u (pbuf_payload q) ≡ v (pbuf_payload q))
      × (u (pbuf_len q) ≡ v (pbuf_len q))
      × (u (pbuf_next q) ≡ v (pbuf_next q))
      × (u (bd_next d) ≡ v (bd_next d))
unread q d o =
    let out : (r : Reg) → Type 0 = λ r. (x : ℕ) → OutsideBd r x in
    let a : out (pbuf_payload q) =
      λ x. record { bufptr = λ e. cc; length = λ e. cc; flags = λ e. cc; pbuf = λ e. cc } in
    let b : out (pbuf_len q) =
      λ x. record { bufptr = λ e. cc; length = λ e. cc; flags = λ e. cc; pbuf = λ e. cc } in
    let c : out (pbuf_next q) =
      λ x. record { bufptr = λ e. cc; length = λ e. cc; flags = λ e. cc; pbuf = λ e. cc } in
    let l : out (bd_next d) =
      λ x. record { bufptr = λ e. cc; length = λ e. cc; flags = λ e. cc; pbuf = λ e. cc } in
    (
      o (pbuf_payload q) (λ x h. a x),
      o (pbuf_len q) (λ x h. b x),
      o (pbuf_next q) (λ x h. c x),
      o (bd_next d) (λ x h. l x),
    )

pub OnlyBds-trans :
    {P Q : ℕ → Type 0} {v u u' : View}
    → OnlyBds P v u
    → OnlyBds Q u u'
    → OnlyBds (λ x. P x ⊎ Q x) v u'
OnlyBds-trans s t r o = t r (λ x h. o x (inr h)) ∙ s r (λ x h. o x (inl h))
