-- ===== src/Port/Hdkif/Transmit.antt =====
-- `hdkif_transmit` and `hdkif_output`: a packet into the ring of descriptors.
pub mod Packet
pub mod Output
use cannelloni_tms.Prelude.{
  ℕ, zero, suc, ◌+◌, ◌*◌, ◌^◌, bit_and, bit_or, Bool, true, false, not, ltb, ◌==◌, [],
}
use cannelloni_tms.Prelude.{ok, stuck}
use cannelloni_tms.Mmio.{Device, Cmd, ◌>>=◌, ◌>>◌, pure, get, put, modify, wait}
use cannelloni_tms.Port.SysArch.{Intrinsics, sys_arch_protect, sys_arch_unprotect}
use cannelloni_tms.Port.Hdkif.{
  Reg, txhdp, bd_next, bd_bufptr, bd_bufoff_len, bd_flags_pktlen, bd_pbuf, pbuf_next, pbuf_payload,
  pbuf_tot_len, pbuf_len, hdkif_swizzle_data, emac_tx_hdr_desc_ptr_write,
}
use cannelloni_tms.Port.Hdkif.Start.{Txch, Pbufs, emac_buf_desc_owner}

abbrev pub min_pkt_len : ℕ
min_pkt_len = 60

abbrev pub emac_buf_desc_sop : ℕ
emac_buf_desc_sop = 0x8000_0000

abbrev pub emac_buf_desc_eop : ℕ
emac_buf_desc_eop = 0x4000_0000

abbrev pub emac_buf_desc_eoq : ℕ
emac_buf_desc_eoq = 0x1000_0000

-- The flag of a descriptor at which the queue has ended.
abbrev pub at_eoq : ℕ → Bool
at_eoq v = bit_and (hdkif_swizzle_data v) emac_buf_desc_eoq == emac_buf_desc_eoq

module _ {R W : Type 0} (dev : Device R W) (at : Reg → R) (fuel : ℕ) where
  -- One round of the loop over the segments: the descriptor `curr_bd` gets the segment `q` of the
  -- packet `pbuf`. The next segment, and the next descriptor.
  pub fill_tx_bd : ℕ → ℕ → ℕ → Cmd R W (ℕ × ℕ)
  fill_tx_bd pbuf q curr_bd = do
    payload ← get dev (at (pbuf_payload q))
    put dev (at (bd_bufptr curr_bd)) (hdkif_swizzle_data payload)
    len ← get dev (at (pbuf_len q))
    put dev (at (bd_bufoff_len curr_bd)) (hdkif_swizzle_data (bit_and len 0xFFFF))
    put dev (at (bd_pbuf curr_bd)) pbuf
    next ← get dev (at (bd_next curr_bd))
    q' ← get dev (at (pbuf_next q))
    pure (q', hdkif_swizzle_data next)

  -- The loop, of which there are fewer rounds than the fuel: the last descriptor, and the one behind
  -- it. NULL is 0.
  pub fill_tx_bds : ℕ → ℕ → ℕ → ℕ → ℕ → Cmd R W (ℕ × ℕ)
  fill_tx_bds zero pbuf q curr_bd bd_end = λ w. stuck
  fill_tx_bds (suc n) pbuf q curr_bd bd_end = elim (q == 0) [
    | true ↦ pure (bd_end, curr_bd)
    | false ↦ do r ← fill_tx_bd pbuf q curr_bd; fill_tx_bds n pbuf r.0 r.1 curr_bd
  ]

  -- The packet whose descriptors begin at `active_head` is handed to the EMAC, behind the last
  -- packet if there is one.
  pub start_dma : ℕ → ℕ → Cmd R W (Unit {0})
  start_dma active_tail active_head = elim (active_tail == 0) [
    | true ↦ emac_tx_hdr_desc_ptr_write dev at active_head 0
    | false ↦ do
      wait dev fuel (at (bd_flags_pktlen active_tail)) (λ v. not (at_eoq v))
      wait dev fuel (at (txhdp 0)) (λ v. not (v == 0))
      put dev (at (bd_next active_tail)) (hdkif_swizzle_data active_head)
      flags ← get dev (at (bd_flags_pktlen active_tail))
      elim (at_eoq flags) [
        | true ↦ emac_tx_hdr_desc_ptr_write dev at active_head 0
        | false ↦ pure tt
      ]
  ]

  pub hdkif_transmit : Txch → ℕ → Cmd R W Txch
  hdkif_transmit txch pbuf = do
    tot_len ← get dev (at (pbuf_tot_len pbuf))
    put dev (at (bd_flags_pktlen txch.free_head))
        (hdkif_swizzle_data (bit_or tot_len (bit_or emac_buf_desc_sop emac_buf_desc_owner)))
    r ← fill_tx_bds fuel pbuf pbuf txch.free_head 0
    put dev (at (bd_next r.0)) 0
    modify dev (at (bd_flags_pktlen r.0)) (λ v. bit_or v (hdkif_swizzle_data emac_buf_desc_eop))
    start_dma txch.active_tail txch.free_head
    pure (record txch { free_head = r.1; active_tail = r.0 })

  -- The result ERR_OK is left out.
  pub hdkif_output : Intrinsics W → Pbufs R W → Txch → ℕ → Cmd R W Txch
  hdkif_output cpu lwip txch p = do
    lev ← λ w. ok ((sys_arch_protect cpu w).0, (sys_arch_protect cpu w).1, [])
    tot_len ← get dev (at (pbuf_tot_len p))
    elim (ltb tot_len min_pkt_len) [
      | true ↦ do put dev (at (pbuf_tot_len p)) min_pkt_len; put dev (at (pbuf_len p)) min_pkt_len
      | false ↦ pure tt
    ]
    lwip.pbuf_ref p
    txch' ← hdkif_transmit txch p
    λ w. ok (tt, sys_arch_unprotect cpu w lev, [])
    pure txch'
