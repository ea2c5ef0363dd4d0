-- ===== src/Port/Hdkif/Interrupts.antt =====
-- `hdkif_tx_inthandler`: packets that have been sent give their buffers back.
pub mod Sent
use cannelloni_tms.Prelude.{ℕ, zero, suc, ◌+◌, ◌-◌, ◌^◌, bit_and, Bool, true, false, ◌==◌}
use cannelloni_tms.Prelude.{stuck}
use cannelloni_tms.Mmio.{Device, Cmd, ◌>>=◌, ◌>>◌, pure, get, put, modify, wait}
use cannelloni_tms.Port.Hdkif.{
  Reg, txcp, maceoivector, bd_next, bd_flags_pktlen, bd_pbuf, hdkif_swizzle_data, emac_core_int_ack,
  emac_tx_cp_write,
}
use cannelloni_tms.Port.Hdkif.Start.{Txch, Pbufs, emac_buf_desc_owner}
use cannelloni_tms.Port.Hdkif.Transmit.{emac_buf_desc_sop, emac_buf_desc_eop}

-- A flag in the word of a descriptor, of which `flag` is the mask, a power of 2.
abbrev pub flagged : ℕ → ℕ → Bool
flagged flag v = bit_and (hdkif_swizzle_data v) flag == flag

-- The word without the flag.
abbrev pub unflagged : ℕ → ℕ → ℕ
unflagged flag v = bit_and v (hdkif_swizzle_data (2 ^ 32 - 1 - flag))

module _ {R W : Type 0} (dev : Device R W) (at : Reg → R) (lwip : Pbufs R W) (fuel : ℕ) where
  -- The loop to the end of the packet, with fuel for its descriptors.
  pub find_eop : ℕ → ℕ → Cmd R W ℕ
  find_eop zero curr_bd = λ w. stuck
  find_eop (suc n) curr_bd = do
    flags ← get dev (at (bd_flags_pktlen curr_bd))
    elim (flagged emac_buf_desc_eop flags) [
      | true ↦ pure curr_bd
      | false ↦ do next ← get dev (at (bd_next curr_bd)); find_eop n (hdkif_swizzle_data next)
    ]

  -- The descriptor of the next packet, for the last descriptor of one.
  pub next_packet : ℕ → ℕ → Cmd R W ℕ
  next_packet free_head curr_bd = do
    next ← get dev (at (bd_next curr_bd))
    elim (next == 0) [
      | true ↦ pure free_head
      | false ↦ do again ← get dev (at (bd_next curr_bd)); pure (hdkif_swizzle_data again)
    ]

  -- One round of the outer loop, for the packet whose descriptors begin at `next_bd`: where the next
  -- packet begins.
  pub packet_sent : ℕ → ℕ → Cmd R W ℕ
  packet_sent free_head next_bd = do
    wait dev fuel (at (bd_flags_pktlen next_bd)) (flagged emac_buf_desc_owner)
    curr_bd ← find_eop fuel next_bd
    modify dev (at (bd_flags_pktlen next_bd)) (unflagged emac_buf_desc_sop)
    modify dev (at (bd_flags_pktlen curr_bd)) (unflagged emac_buf_desc_eop)
    next ← next_packet free_head curr_bd
    emac_tx_cp_write dev at 0 curr_bd
    pbuf ← get dev (at (bd_pbuf curr_bd))
    lwip.pbuf_free pbuf
    pure next

  -- The outer loop, with fuel for its rounds: where the first packet begins that is not sent yet.
  pub packets_sent : ℕ → ℕ → ℕ → Cmd R W ℕ
  packets_sent zero free_head next_bd = λ w. stuck
  packets_sent (suc n) free_head next_bd = do
    flags ← get dev (at (bd_flags_pktlen next_bd))
    elim (flagged emac_buf_desc_sop flags) [
      | true ↦ do next ← packet_sent free_head next_bd; packets_sent n free_head next
      | false ↦ pure next_bd
    ]

  pub hdkif_tx_inthandler : Txch → Cmd R W Txch
  hdkif_tx_inthandler txch = do
    next ← packets_sent fuel txch.free_head txch.next_bd_to_process
    emac_core_int_ack dev at 1
    emac_core_int_ack dev at 2
    pure (record txch { next_bd_to_process = next })
