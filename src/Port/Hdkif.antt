-- ===== src/Port/Hdkif.antt =====
-- lwip/ports/hdk/netif/hdkif.c: the Ethernet driver. Its children have the parts of the source;
-- this file has the registers, the byte order of the descriptors and the functions on the EMAC's
-- registers.
pub mod Swizzle
pub mod Emac
pub mod Start
pub mod Transmit
pub mod Interrupts
pub mod Receive
use cannelloni_tms.Prelude.{
  ℕ, zero, suc, ◌+◌, ◌-◌, ◌*◌, ◌/◌, ◌%◌, ◌^◌, bit_and, bit_or, Bool, List, [], ◌∷◌, ◌==◌,
}
use cannelloni_tms.Mmio.{Device, Cmd, ◌>>=◌, ◌>>◌, pure, put, modify, wait}

-- The registers of the EMAC and of its control module, and the memory that the driver shares with
-- them and with lwIP: the members of the buffer descriptor, and of the packet buffer, at an address.
pub data Reg : Type 0 where
  txintmaskset : Reg
  rxintmaskset : Reg
  ctrl_cntxen : ℕ → Reg
  ctrl_cnrxen : ℕ → Reg
  ctrl_softreset : Reg
  softreset : Reg
  maccontrol : Reg
  txcontrol : Reg
  rxcontrol : Reg
  txhdp : ℕ → Reg
  rxhdp : ℕ → Reg
  txcp : ℕ → Reg
  rxcp : ℕ → Reg
  rxfreebuffer : ℕ → Reg
  txintmaskclear : Reg
  rxintmaskclear : Reg
  machash1 : Reg
  machash2 : Reg
  rxbufferoffset : Reg
  macsrcaddrhi : Reg
  macsrcaddrlo : Reg
  maceoivector : Reg
  rxmbpenable : Reg
  dieidl : Reg
  bd_next : ℕ → Reg
  bd_bufptr : ℕ → Reg
  bd_bufoff_len : ℕ → Reg
  bd_flags_pktlen : ℕ → Reg
  bd_pbuf : ℕ → Reg
  pbuf_next : ℕ → Reg
  pbuf_payload : ℕ → Reg
  pbuf_tot_len : ℕ → Reg
  pbuf_len : ℕ → Reg

abbrev pub maccontrol_rmiispeed : ℕ
maccontrol_rmiispeed = 0x8000

abbrev pub maccontrol_gmiien : ℕ
maccontrol_gmiien = 0x20

abbrev pub maccontrol_fullduplex : ℕ
maccontrol_fullduplex = 1

abbrev pub max_header_desc : ℕ
max_header_desc = 8

-- Bytes in the other order.
unfoldable pub hdkif_swizzle_data : ℕ → ℕ
hdkif_swizzle_data word =
    bit_or
      (bit_or
        (bit_or (bit_and (word * 2 ^ 24 % 2 ^ 32) 0xFF00_0000)
          (bit_and (word * 2 ^ 8 % 2 ^ 32) 0x00FF_0000))
        (bit_and (word / 2 ^ 8) 0x0000_FF00))
      (bit_and (word / 2 ^ 24) 0x0000_00FF)

-- The reset bit is still set.
abbrev pub in_reset : ℕ → Bool
in_reset v = bit_and v 1 == 1

-- `at` is where the registers and the memory are among those of the device.
module _ {R W : Type 0} (dev : Device R W) (at : Reg → R) where
  pub emac_tx_int_pulse_enable : ℕ → ℕ → Cmd R W (Unit {0})
  emac_tx_int_pulse_enable core channel = do
    modify dev (at txintmaskset) (λ v. bit_or v (2 ^ channel))
    modify dev (at (ctrl_cntxen core)) (λ v. bit_or v (2 ^ channel))

  pub emac_rx_int_pulse_enable : ℕ → ℕ → Cmd R W (Unit {0})
  emac_rx_int_pulse_enable core channel = do
    modify dev (at rxintmaskset) (λ v. bit_or v (2 ^ channel))
    modify dev (at (ctrl_cnrxen core)) (λ v. bit_or v (2 ^ channel))

  pub emac_rmii_speed_set : ℕ → Cmd R W (Unit {0})
  emac_rmii_speed_set speed = do
    modify dev (at maccontrol) (λ v. bit_and v (2 ^ 32 - 1 - maccontrol_rmiispeed))
    modify dev (at maccontrol) (λ v. bit_or v speed)

  pub emac_mii_enable : Cmd R W (Unit {0})
  emac_mii_enable = modify dev (at maccontrol) (λ v. bit_or v maccontrol_gmiien)

  pub emac_duplex_set : ℕ → Cmd R W (Unit {0})
  emac_duplex_set mode = do
    modify dev (at maccontrol) (λ v. bit_and v (2 ^ 32 - 1 - maccontrol_fullduplex))
    modify dev (at maccontrol) (λ v. bit_or v mode)

  abbrev pub emac_tx_enable : Cmd R W (Unit {0})
  emac_tx_enable = put dev (at txcontrol) 1

  abbrev pub emac_rx_enable : Cmd R W (Unit {0})
  emac_rx_enable = put dev (at rxcontrol) 1

  abbrev pub emac_tx_hdr_desc_ptr_write : ℕ → ℕ → Cmd R W (Unit {0})
  emac_tx_hdr_desc_ptr_write desc_hdr channel = put dev (at (txhdp channel)) desc_hdr

  abbrev pub emac_rx_hdr_desc_ptr_write : ℕ → ℕ → Cmd R W (Unit {0})
  emac_rx_hdr_desc_ptr_write desc_hdr channel = put dev (at (rxhdp channel)) desc_hdr

  -- The loop of `EMACInit` with `n` rounds left, from channel `cnt` on.
  pub clear_channels : ℕ → ℕ → Cmd R W (Unit {0})
  clear_channels zero cnt = pure tt
  clear_channels (suc n) cnt = do
    put dev (at (rxhdp cnt)) 0
    put dev (at (txhdp cnt)) 0
    put dev (at (rxcp cnt)) 0
    put dev (at (txcp cnt)) 0
    put dev (at (rxfreebuffer cnt)) 0xFF
    clear_channels n (cnt + 1)

  pub emac_init : ℕ → Cmd R W (Unit {0})
  emac_init fuel = do
    put dev (at ctrl_softreset) 1
    wait dev fuel (at ctrl_softreset) in_reset
    put dev (at softreset) 1
    wait dev fuel (at softreset) in_reset
    put dev (at maccontrol) 0
    put dev (at rxcontrol) 0
    put dev (at txcontrol) 0
    clear_channels max_header_desc 0
    put dev (at txintmaskclear) 0xFF
    put dev (at rxintmaskclear) 0xFF
    put dev (at machash1) 0
    put dev (at machash2) 0
    put dev (at rxbufferoffset) 0

  -- The six bytes of the address.
  pub emac_mac_src_addr_set : ℕ → ℕ → ℕ → ℕ → ℕ → ℕ → Cmd R W (Unit {0})
  emac_mac_src_addr_set a0 a1 a2 a3 a4 a5 = do
    put dev (at macsrcaddrhi) (bit_or (bit_or (bit_or a0 (a1 * 2 ^ 8)) (a2 * 2 ^ 16)) (a3 * 2 ^ 24))
    put dev (at macsrcaddrlo) (bit_or a4 (a5 * 2 ^ 8))

  abbrev pub emac_core_int_ack : ℕ → Cmd R W (Unit {0})
  emac_core_int_ack flag = put dev (at maceoivector) flag

  abbrev pub emac_tx_cp_write : ℕ → ℕ → Cmd R W (Unit {0})
  emac_tx_cp_write channel com_ptr = put dev (at (txcp channel)) com_ptr

  abbrev pub emac_rx_cp_write : ℕ → ℕ → Cmd R W (Unit {0})
  emac_rx_cp_write channel com_ptr = put dev (at (rxcp channel)) com_ptr

  abbrev pub emac_num_free_buf_set : ℕ → ℕ → Cmd R W (Unit {0})
  emac_num_free_buf_set channel n = put dev (at (rxfreebuffer channel)) n
