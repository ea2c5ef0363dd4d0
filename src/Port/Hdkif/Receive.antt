-- ===== src/Port/Hdkif/Receive.antt =====
-- `hdkif_rx_inthandler`: received packets go to lwIP, and their descriptors get new buffers. The
-- link statistics are left out.
pub mod Memory
pub mod Link
pub mod Step
pub mod Gather
pub mod Slots
pub mod Fill
pub mod Refill
pub mod Packet
use cannelloni_tms.Prelude.{
  ℕ, zero, suc, ◌+◌, ◌-◌, ◌%◌, ◌^◌, bit_and, Bool, true, false, not, ◌||◌, ◌==◌,
}
use cannelloni_tms.Prelude.{stuck}
use cannelloni_tms.Mmio.{Device, Cmd, ◌>>=◌, ◌>>◌, pure, get, put}
use cannelloni_tms.Port.Hdkif.{
  Reg, bd_next, bd_bufptr, bd_bufoff_len, bd_flags_pktlen, bd_pbuf, pbuf_next, pbuf_payload,
  pbuf_tot_len, pbuf_len, hdkif_swizzle_data, emac_core_int_ack, emac_rx_cp_write,
  emac_rx_hdr_desc_ptr_write,
}
use cannelloni_tms.Port.Hdkif.Start.{Rxch, Pbufs, emac_buf_desc_owner}
use cannelloni_tms.Port.Hdkif.Transmit.{emac_buf_desc_sop, emac_buf_desc_eop, emac_buf_desc_eoq}
use cannelloni_tms.Port.Hdkif.Interrupts.{flagged}

-- A condition `word & flag`.
abbrev pub any_of : ℕ → ℕ → Bool
any_of flag v = not (bit_and (hdkif_swizzle_data v) flag == 0)

-- The local variables of the loop over a packet's descriptors.
pub record Gathered : Type 0 where
  pub pbuf : ℕ
  pub processed_bd : ℕ
  pub curr_bd : ℕ
  pub ex_len : ℕ
  pub len_to_alloc : ℕ

-- The local variables of the loop that gives descriptors new buffers.
pub record Refilled : Type 0 where
  pub q : ℕ
  pub curr_bd : ℕ
  pub last_bd : ℕ
  pub freed_pbuf_len : ℕ

-- The member `free_head` of the channel, set at the first descriptor that is to be freed.
abbrev pub null_or : ℕ → ℕ → ℕ
null_or free_head curr_bd = elim (free_head == 0) [ true ↦ curr_bd | false ↦ free_head ]

module _ {R W : Type 0} (dev : Device R W) (at : Reg → R) where
  -- A buffer without a successor is linked to the one of the next descriptor.
  pub link_segment : ℕ → ℕ → Cmd R W (Unit {0})
  link_segment pbuf curr_bd = do
    next ← get dev (at (pbuf_next pbuf))
    elim (next == 0) [
      | true ↦ do
        bd ← get dev (at (bd_next curr_bd))
        p ← get dev (at (bd_pbuf (hdkif_swizzle_data bd)))
        put dev (at (pbuf_next pbuf)) p
      | false ↦ pure tt
    ]

  -- One round of the loop over the descriptors of a packet of `tot_len` bytes.
  pub gather_bd : ℕ → Gathered → Cmd R W Gathered
  gather_bd tot_len g = do
    pbuf ← get dev (at (bd_pbuf g.curr_bd))
    link_segment pbuf g.curr_bd
    freed ← get dev (at (pbuf_len pbuf))
    filled ← get dev (at (bd_bufoff_len g.curr_bd))
    put dev (at (pbuf_len pbuf)) (bit_and (hdkif_swizzle_data filled) 0xFFFF)
    put dev (at (pbuf_tot_len pbuf)) ((tot_len + 2 ^ 32 - g.ex_len) % 2 ^ 16)
    len ← get dev (at (pbuf_len pbuf))
    next ← get dev (at (bd_next g.curr_bd))
    pure (record {
      pbuf = pbuf;
      processed_bd = g.curr_bd;
      curr_bd = hdkif_swizzle_data next;
      ex_len = (g.ex_len + len) % 2 ^ 32;
      len_to_alloc = (g.len_to_alloc + freed) % 2 ^ 32;
    })

  -- The loop, with fuel for its rounds.
  pub gather_bds : ℕ → ℕ → Gathered → Cmd R W Gathered
  gather_bds zero tot_len g = λ w. stuck
  gather_bds (suc n) tot_len g = do
    g' ← gather_bd tot_len g
    flags ← get dev (at (bd_flags_pktlen g'.processed_bd))
    elim (flagged emac_buf_desc_eop flags) [ true ↦ pure g' | false ↦ gather_bds n tot_len g' ]

  -- The packet that begins at `curr_bd` becomes one chain of buffers: its first buffer, and the
  -- variables after the loop.
  pub gather_packet : ℕ → ℕ → Cmd R W (ℕ × Gathered)
  gather_packet fuel curr_bd = do
    flags ← get dev (at (bd_flags_pktlen curr_bd))
    q ← get dev (at (bd_pbuf curr_bd))
    g ←
        gather_bds fuel (bit_and (hdkif_swizzle_data flags) 0xFFFF)
          (record { pbuf = 0; processed_bd = 0; curr_bd = curr_bd; ex_len = 0; len_to_alloc = 0 })
    put dev (at (pbuf_next g.pbuf)) 0
    pure (q, g)

  -- One round of the loop over the new buffers: the descriptor `curr_bd` gets the segment `q`.
  pub refill_bd : Refilled → Cmd R W Refilled
  refill_bd f = do
    payload ← get dev (at (pbuf_payload f.q))
    put dev (at (bd_bufptr f.curr_bd)) (hdkif_swizzle_data payload)
    len ← get dev (at (pbuf_len f.q))
    put dev (at (bd_bufoff_len f.curr_bd)) (hdkif_swizzle_data (bit_and len 0xFFFF))
    put dev (at (bd_flags_pktlen f.curr_bd)) (hdkif_swizzle_data emac_buf_desc_owner)
    taken ← get dev (at (pbuf_len f.q))
    put dev (at (bd_pbuf f.curr_bd)) f.q
    next ← get dev (at (bd_next f.curr_bd))
    q' ← get dev (at (pbuf_next f.q))
    pure (record {
      q = q';
      curr_bd = hdkif_swizzle_data next;
      last_bd = f.curr_bd;
      freed_pbuf_len = (f.freed_pbuf_len + 2 ^ 32 - taken) % 2 ^ 32;
    })

  -- The loop, with fuel for its rounds: until the buffers or the free descriptors have run out.
  pub refill_bds : ℕ → ℕ → Refilled → Cmd R W Refilled
  refill_bds zero active_head f = λ w. stuck
  refill_bds (suc n) active_head f = elim (f.q == 0 || f.curr_bd == active_head) [
    | true ↦ pure f
    | false ↦ do f' ← refill_bd f; refill_bds n active_head f'
  ]

  -- The refilled descriptors, of which `last_bd` is the last, go behind the tail of the channel.
  pub append_bds : Rxch → Refilled → Cmd R W Rxch
  append_bds rxch f = do
    put dev (at (bd_next f.last_bd)) 0
    put dev (at (bd_next rxch.active_tail)) (hdkif_swizzle_data rxch.free_head)
    flags ← get dev (at (bd_flags_pktlen rxch.active_tail))
    elim (any_of emac_buf_desc_eoq flags) [
      | true ↦ emac_rx_hdr_desc_ptr_write dev at rxch.free_head 0
      | false ↦ pure tt
    ]
    pure (record rxch {
      free_head = f.curr_bd;
      active_tail = f.last_bd;
      freed_pbuf_len = f.freed_pbuf_len;
    })

  module _ (lwip : Pbufs R W) (ethernet_input : ℕ → Cmd R W ℕ) (fuel : ℕ) where
    -- Buffers that no descriptor is left for are freed.
    pub free_rest : ℕ → Cmd R W (Unit {0})
    free_rest q = elim (q == 0) [ true ↦ pure tt | false ↦ lwip.pbuf_free q ]

    -- New buffers for the free descriptors: the channel, and the variable `last_bd`.
    pub refill : Rxch → ℕ → Cmd R W (Rxch × ℕ)
    refill rxch last_bd = do
      new_pbuf ← lwip.pbuf_alloc (rxch.freed_pbuf_len % 2 ^ 16)
      elim (new_pbuf == 0) [
        | true ↦ pure (rxch, last_bd)
        | false ↦ do
          f ← refill_bds fuel rxch.active_head (record {
            q = new_pbuf;
            curr_bd = rxch.free_head;
            last_bd = last_bd;
            freed_pbuf_len = rxch.freed_pbuf_len;
          })
          free_rest f.q
          rxch' ← append_bds rxch f
          pure (rxch', f.last_bd)
      ]

    -- A packet that the EMAC has finished with.
    pub packet_received : Rxch → ℕ → Cmd R W (Rxch × ℕ)
    packet_received rxch last_bd = do
      packet ← gather_packet fuel rxch.active_head
      err ← ethernet_input packet.0
      emac_rx_cp_write dev at 0 packet.1.processed_bd
      refill
          (record {
            free_head = null_or rxch.free_head rxch.active_head;
            active_head = packet.1.curr_bd;
            active_tail = rxch.active_tail;
            freed_pbuf_len = (rxch.freed_pbuf_len + packet.1.len_to_alloc) % 2 ^ 32;
          })
          last_bd

    -- The loop over the packets, with fuel for its rounds; a round in which the EMAC still owns the
    -- first descriptor changes nothing.
    pub packets_received : ℕ → Rxch → ℕ → Cmd R W Rxch
    packets_received zero rxch last_bd = λ w. stuck
    packets_received (suc n) rxch last_bd = do
      start ← get dev (at (bd_flags_pktlen rxch.active_head))
      elim (any_of emac_buf_desc_sop start) [
        | false ↦ pure rxch
        | true ↦ do
          flags ← get dev (at (bd_flags_pktlen rxch.active_head))
          elim (flagged emac_buf_desc_owner flags) [
            | true ↦ packets_received n rxch last_bd
            | false ↦ do r ← packet_received rxch last_bd; packets_received n r.0 r.1
          ]
      ]

    pub hdkif_rx_inthandler : Rxch → Cmd R W Rxch
    hdkif_rx_inthandler rxch = do
      rxch' ← packets_received fuel rxch rxch.active_tail
      emac_core_int_ack dev at 1
      emac_core_int_ack dev at 2
      pure rxch'
