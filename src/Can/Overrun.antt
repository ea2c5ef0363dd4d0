-- ===== src/Can/Overrun.antt =====
-- Messages that announce more than eight bytes.
use cannelloni_tms.Prelude.{ℕ, suc, ◌-◌, ◌%◌, ◌<◌, ◌≡◌, refl, arith, List, [], ◌∷◌, length, bit_and}
use cannelloni_tms.Prelude.Bits.{bit_and_mask}
use cannelloni_tms.Prelude.{ok, fault, read_oob}
use cannelloni_tms.Cannelloni.Bytes.{load_byte, store_bytes}
use cannelloni_tms.Can.{Dcan, Hardware, can_if_wait_ready, send_data, can_send}
use cannelloni_tms.Can.Frames.{eight}

unsendable :
    (n a b c d e f g h a' b' c' d' e' f' g' h' : ℕ)
    → send_data
        (suc (suc (suc (suc (suc (suc (suc (suc (suc n)))))))))
        0
        (a ∷ b ∷ c ∷ d ∷ e ∷ f ∷ g ∷ h ∷ [])
        (a' ∷ b' ∷ c' ∷ d' ∷ e' ∷ f' ∷ g' ∷ h' ∷ [])
      ≡ fault read_oob
unfolding send_data load_byte store_bytes
unsendable n a b c d e f g h a' b' c' d' e' f' g' h' = refl

module _ {M : Type 0} (hw : Hardware M) (fuel : ℕ) where
  -- When no transmission is pending and the interface gets ready, `can_send` of a length above eight
  -- reads past the end of its table.
  pub can_send-overrun :
      (s s1 : Dcan M) (id dlc : ℕ) (bytes : List ℕ)
      → s.txrq % 2 ≡ 0
      → can_if_wait_ready hw fuel s ≡ ok s1
      → 8 < dlc
      → length bytes ≡ 8
      → length s1.if1dat ≡ 8
      → can_send hw fuel s id dlc bytes ≡ fault read_oob
  unfolding can_send
  can_send-overrun s s1 id dlc bytes idle ready long k l =
      let (a, b, c, d, e, f, g, h, bytes_eq) = eight bytes k in
      let (a', b', c', d', e', f', g', h', dat_eq) = eight s1.if1dat l in
      let pending : bit_and s.txrq 1 ≡ 0 = omega (arith, bit_and_mask 1 s.txrq 1 refl) in
      let n : dlc ≡ suc (suc (suc (suc (suc (suc (suc (suc (suc (dlc - 9))))))))) = omega arith in
      rw (
        can_send,
        pending,
        ready,
        n,
        bytes_eq,
        dat_eq,
        unsendable (dlc - 9) a b c d e f g h a' b' c' d' e' f' g' h',
      )
