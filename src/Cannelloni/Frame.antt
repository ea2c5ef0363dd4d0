-- ===== src/Cannelloni/Frame.antt =====
-- The CAN frame and the constants of src/cannelloni.h, and the frame buffers that the queues
-- point into.
use cannelloni_tms.Prelude.{
  ℕ, ◌-◌, ◌%◌, ◌^◌, ◌<◌, ◌≡◌, bit_and, List, length, All, if◌then◌else◌, ◌==◌, ◌&&◌,
}
use cannelloni_tms.Prelude.Bits.{bit_and_not_top}

abbrev pub cannelloni_frame_base_size : ℕ
cannelloni_frame_base_size = 5

abbrev pub cannelloni_data_packet_base_size : ℕ
cannelloni_data_packet_base_size = 5

abbrev pub cannelloni_frame_version : ℕ
cannelloni_frame_version = 2

-- `CNL_DATA`, the first constant of `enum op_codes`
abbrev pub cnl_data : ℕ
cnl_data = 0

abbrev pub canfd_flag : ℕ
canfd_flag = 0x80

abbrev pub can_rtr_flag : ℕ
can_rtr_flag = 0x4000_0000

abbrev pub cnl_canfd_max_dlen : ℕ
cnl_canfd_max_dlen = 8

-- `struct canfd_frame`; `payload` is its array `data`.
pub record Frame : Type 0 where
  pub can_id : ℕ
  pub len : ℕ
  pub flags : ℕ
  pub payload : List ℕ

-- `~x` of a 32-bit word
abbrev pub not32 : ℕ → ℕ
not32 x = 2 ^ 32 - 1 - x

pub canfd_len : Frame → ℕ
canfd_len f = bit_and f.len (not32 canfd_flag)

pub canfd_len-mod : (f : Frame) → f.len < 256 → canfd_len f ≡ f.len % 128
unfolding canfd_len
canfd_len-mod f h = bit_and_not_top f.len h

abbrev pub IsByte : ℕ → Type 0
IsByte b = b < 256

-- Each member holds a value of its C type.
pub record IsFrame (f : Frame) : Type 0 where
  pub can_id_u32 : f.can_id < 2 ^ 32
  pub len_u8 : f.len < 256
  pub flags_u8 : f.flags < 256
  pub array : length f.payload ≡ cnl_canfd_max_dlen
  pub bytes : All IsByte f.payload

-- A pointer to a frame: the array that holds it, and its index there.
pub record FramePtr : Type 0 where
  pub base : ℕ
  pub index : ℕ

-- The frame arrays, by their addresses. Two queues with one address share their frames.
abbrev pub Store : Type 0
Store = ℕ → ℕ → Frame

abbrev pub read_frame : Store → FramePtr → Frame
read_frame st p = st p.base p.index

abbrev pub write_frame : Store → FramePtr → Frame → Store
write_frame st p f b i = if b == p.base && i == p.index then f else st b i
