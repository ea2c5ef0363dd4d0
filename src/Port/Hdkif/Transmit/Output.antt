-- ===== src/Port/Hdkif/Transmit/Output.antt =====
-- `hdkif_output`: what comes before the transmission.
use cannelloni_tms.Prelude.{
  ℕ, ◌<◌, ◌≤◌, ◌≡◌, refl, arith, List, ◌∷◌, ◌++◌, append-nil, true, false, ltb,
}
use cannelloni_tms.Prelude.{ok}
use cannelloni_tms.Mmio.{Device, Write}
use cannelloni_tms.Port.SysArch.{Intrinsics, sys_arch_protect, sys_arch_unprotect}
use cannelloni_tms.Port.Hdkif.{Reg, pbuf_tot_len, pbuf_len}
use cannelloni_tms.Port.Hdkif.Start.{Txch, Pbufs}
use cannelloni_tms.Port.Hdkif.Transmit.{hdkif_transmit, hdkif_output}

module _ {R W : Type 0} (dev : Device R W) (at : Reg → R) (fuel : ℕ) (cpu : Intrinsics W)
    (lwip : Pbufs R W) (txch : Txch) (p : ℕ) (w : W) where
  abbrev entered : W
  entered = (dev.read (at (pbuf_tot_len p)) (sys_arch_protect cpu w).1).1

  abbrev length_read : ℕ
  length_read = (dev.read (at (pbuf_tot_len p)) (sys_arch_protect cpu w).1).0

  abbrev padded : W
  padded = dev.write (at (pbuf_len p)) 60 (dev.write (at (pbuf_tot_len p)) 60 entered)

  -- A packet of fewer than 60 bytes is said to have 60, in all and in its first segment, before it
  -- is transmitted; what follows in memory is sent along. Longer ones are transmitted as they are.
  -- Both are done between `sys_arch_protect` and the matching `sys_arch_unprotect`.
  pub hdkif_output-padded :
      (w1 w2 : W) (txch' : Txch) (l l' : List (Write R))
      → length_read < 60
      → lwip.pbuf_ref p padded ≡ ok (tt, w1, l)
      → hdkif_transmit dev at fuel txch p w1 ≡ ok (txch', w2, l')
      → hdkif_output dev at fuel cpu lwip txch p w
        ≡ ok (
          txch',
          sys_arch_unprotect cpu w2 (sys_arch_protect cpu w).0,
          record { reg = at (pbuf_tot_len p); value = 60 }
              ∷ record { reg = at (pbuf_len p); value = 60 }
              ∷ (l ++ l'),
        )
  unfolding hdkif_output
  hdkif_output-padded w1 w2 txch' l l' short ref sent =
      let e : ltb length_read 60 ≡ true = ground arith in
      rw (hdkif_output, e, ref, sent, append-nil l') refl

  pub hdkif_output-long :
      (w1 w2 : W) (txch' : Txch) (l l' : List (Write R))
      → 60 ≤ length_read
      → lwip.pbuf_ref p entered ≡ ok (tt, w1, l)
      → hdkif_transmit dev at fuel txch p w1 ≡ ok (txch', w2, l')
      → hdkif_output dev at fuel cpu lwip txch p w
        ≡ ok (txch', sys_arch_unprotect cpu w2 (sys_arch_protect cpu w).0, l ++ l')
  unfolding hdkif_output
  hdkif_output-long w1 w2 txch' l l' long ref sent =
      let e : ltb length_read 60 ≡ false = ground arith in
      rw (hdkif_output, e, ref, sent, append-nil l') refl
