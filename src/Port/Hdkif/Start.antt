-- ===== src/Port/Hdkif/Start.antt =====
-- `hdkif_init` and `hdkif_hw_init`: the rings of descriptors, and the start of the EMAC.
pub mod Ring
pub mod Reception
pub mod Whole
use cannelloni_tms.Prelude.{
  ℕ, zero, suc, ◌+◌, ◌-◌, ◌*◌, ◌/◌, ◌%◌, ◌^◌, bit_or, true, false, leb, ◌==◌, List, [], ◌∷◌,
}
use cannelloni_tms.Prelude.{stuck}
use cannelloni_tms.Mmio.{Device, Cmd, ◌>>=◌, ◌>>◌, pure, get, put, modify}
use cannelloni_tms.Drivers.Vim as Vim
use cannelloni_tms.Drivers.Vim.{vim_register_irq}
use cannelloni_tms.Port.Hdkif.{
  Reg, rxmbpenable, dieidl, bd_next, bd_bufptr, bd_bufoff_len, bd_flags_pktlen, bd_pbuf, pbuf_next,
  pbuf_payload, pbuf_len, hdkif_swizzle_data, emac_tx_int_pulse_enable, emac_rx_int_pulse_enable,
  emac_rmii_speed_set, emac_mii_enable, emac_duplex_set, emac_tx_enable, emac_rx_enable,
  emac_rx_hdr_desc_ptr_write, emac_init, emac_mac_src_addr_set, emac_core_int_ack,
  emac_num_free_buf_set,
}

abbrev pub max_transfer_unit : ℕ
max_transfer_unit = 1514

abbrev pub max_rx_pbuf_alloc : ℕ
max_rx_pbuf_alloc = 10

abbrev pub size_emac_ctrl_ram : ℕ
size_emac_ctrl_ram = 0x2000

abbrev pub emac_ctrl_ram_0_base : ℕ
emac_ctrl_ram_0_base = 0xFC52_0000

abbrev pub emac_buf_desc_owner : ℕ
emac_buf_desc_owner = 0x2000_0000

-- The size of `struct emac_tx_bdp`, and of `struct emac_rx_bdp`: five words.
abbrev pub bdp_size : ℕ
bdp_size = 20

pub record Rxch : Type 0 where
  pub free_head : ℕ
  pub active_head : ℕ
  pub active_tail : ℕ
  pub freed_pbuf_len : ℕ

pub record Txch : Type 0 where
  pub free_head : ℕ
  pub active_tail : ℕ
  pub next_bd_to_process : ℕ

-- The functions of lwIP on packet buffers that the driver calls.
pub record Pbufs (R W : Type 0) : Type 0 where
  pub pbuf_alloc : ℕ → Cmd R W ℕ
  pub pbuf_clen : ℕ → Cmd R W ℕ
  pub pbuf_free : ℕ → Cmd R W (Unit {0})
  pub pbuf_ref : ℕ → Cmd R W (Unit {0})

module _ {R W : Type 0} (dev : Device R W) (at : Reg → R) where
  -- The loop over the descriptors for transmission, with `n` rounds left: the pointer behind the
  -- last one, and the last one. NULL is 0.
  pub init_tx_bds : ℕ → ℕ → ℕ → Cmd R W (ℕ × ℕ)
  init_tx_bds zero curr_txbd last_txbd = pure (curr_txbd, last_txbd)
  init_tx_bds (suc n) curr_txbd last_txbd = do
    put dev (at (bd_next curr_txbd)) (hdkif_swizzle_data (curr_txbd + bdp_size))
    put dev (at (bd_flags_pktlen curr_txbd)) 0
    next ← get dev (at (bd_next curr_txbd))
    init_tx_bds n (hdkif_swizzle_data next) curr_txbd

  -- The ring for transmission over the first half of the memory; the pointer behind it.
  pub init_tx_ring : ℕ → Cmd R W ℕ
  init_tx_ring free_head = do
    bds ← init_tx_bds (size_emac_ctrl_ram / 2 / bdp_size) free_head 0
    put dev (at (bd_next bds.1)) (hdkif_swizzle_data free_head)
    pure bds.0

  -- The last four bytes of the hardware address; the first two are constants.
  pub mac_address : Cmd R W (ℕ × ℕ × ℕ × ℕ)
  mac_address = do
    die2 ← get dev (at dieidl)
    die3 ← get dev (at dieidl)
    die4 ← get dev (at dieidl)
    die5 ← get dev (at dieidl)
    pure (die2 / 2 ^ 24 % 256, die3 / 2 ^ 16 % 256, die4 / 2 ^ 8 % 256, die5 % 256)

  -- Transmission and reception are enabled and given their interrupts. The two channels.
  pub turn_on : (Vim.Reg → R) → ℕ → ℕ → Txch → Rxch → Cmd R W (Txch × Rxch)
  turn_on vim_at tx_isr rx_isr txch rxch = do
    emac_core_int_ack dev at 1
    emac_core_int_ack dev at 2
    emac_num_free_buf_set dev at 0 10
    emac_tx_enable dev at
    emac_rx_enable dev at
    emac_rx_hdr_desc_ptr_write dev at rxch.active_head 0
    emac_mii_enable dev at
    emac_tx_int_pulse_enable dev at 0 0
    emac_rx_int_pulse_enable dev at 0 0
    vim_register_irq dev vim_at 77 tx_isr
    vim_register_irq dev vim_at 79 rx_isr
    pure (txch, rxch)

  module _ (lwip : Pbufs R W) where
    -- One round of the loop over the segments: the descriptor `curr_bd` gets the segment `q`. The
    -- next segment, and the next descriptor.
    pub fill_rx_bd : ℕ → ℕ → Cmd R W (ℕ × ℕ)
    fill_rx_bd q curr_bd = do
      payload ← get dev (at (pbuf_payload q))
      put dev (at (bd_bufptr curr_bd)) (hdkif_swizzle_data payload)
      len ← get dev (at (pbuf_len q))
      put dev (at (bd_bufoff_len curr_bd)) (hdkif_swizzle_data len)
      put dev (at (bd_next curr_bd)) (hdkif_swizzle_data (curr_bd + bdp_size))
      put dev (at (bd_flags_pktlen curr_bd)) (hdkif_swizzle_data emac_buf_desc_owner)
      put dev (at (bd_pbuf curr_bd)) q
      next ← get dev (at (bd_next curr_bd))
      q' ← get dev (at (pbuf_next q))
      pure (q', hdkif_swizzle_data next)

    -- The loop over the segments of one packet buffer, of which there are fewer than the fuel: the
    -- new `num_bd`, `curr_bd` and `last_bd`.
    pub fill_rx_bds : ℕ → ℕ → ℕ → ℕ → ℕ → Cmd R W (ℕ × ℕ × ℕ)
    fill_rx_bds zero q num_bd curr_bd last_bd = λ w. stuck
    fill_rx_bds (suc fuel) q num_bd curr_bd last_bd = elim (q == 0) [
      | true ↦ pure (num_bd, curr_bd, last_bd)
      | false ↦ do
        r ← fill_rx_bd q curr_bd
        fill_rx_bds fuel r.0 ((num_bd + 2 ^ 32 - 1) % 2 ^ 32) r.1 curr_bd
    ]

    -- The loop that allocates the buffers for reception, with `n` rounds left: the last descriptor.
    pub alloc_rx : ℕ → ℕ → ℕ → ℕ → ℕ → Cmd R W ℕ
    alloc_rx fuel zero num_bd curr_bd last_bd = pure last_bd
    alloc_rx fuel (suc n) num_bd curr_bd last_bd = do
      p ← lwip.pbuf_alloc max_transfer_unit
      elim (p == 0) [
        | true ↦ pure last_bd
        | false ↦ do
          clen ← lwip.pbuf_clen p
          elim (leb clen num_bd) [
            | true ↦ do r ← fill_rx_bds fuel p num_bd curr_bd last_bd; alloc_rx fuel n r.0 r.1 r.2
            | false ↦ do lwip.pbuf_free p; pure last_bd
          ]
      ]

    -- The descriptors for reception from `active_head` on: the channel.
    pub init_rx_ring : ℕ → ℕ → Cmd R W Rxch
    init_rx_ring fuel active_head = do
      last_bd ←
          alloc_rx fuel max_rx_pbuf_alloc (size_emac_ctrl_ram / 2 / bdp_size - 1) active_head
            active_head
      put dev (at (bd_next last_bd)) 0
      pure (record {
        free_head = 0;
        active_head = active_head;
        active_tail = last_bd;
        freed_pbuf_len = 0;
      })

    -- The two channels. The members that the source gives `netif` are constants, but for the
    -- address, which is made here as it is there. `tx_isr` and `rx_isr` are the addresses of the
    -- handlers.
    pub hdkif_hw_init : (Vim.Reg → R) → ℕ → ℕ → ℕ → Cmd R W (Txch × Rxch)
    hdkif_hw_init vim_at tx_isr rx_isr fuel = do
      address ← mac_address
      emac_init dev at fuel
      emac_mac_src_addr_set dev at 0x02 0x00 address.0 address.1 address.2 address.3
      emac_duplex_set dev at 1
      emac_rmii_speed_set dev at 0x8000
      modify dev (at rxmbpenable) (λ v. bit_or v 0x20_0000)
      curr_txbd ← init_tx_ring emac_ctrl_ram_0_base
      rxch ← init_rx_ring fuel (curr_txbd + bdp_size)
      turn_on vim_at tx_isr rx_isr
          (record {
            free_head = emac_ctrl_ram_0_base;
            active_tail = 0;
            next_bd_to_process = emac_ctrl_ram_0_base;
          })
          rxch
