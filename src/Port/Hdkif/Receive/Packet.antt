-- ===== src/Port/Hdkif/Receive/Packet.antt =====
-- A received packet on its way to lwIP, and a handler without a packet.
use cannelloni_tms.Prelude.{ℕ, ◌+◌, ◌%◌, ◌^◌, ◌≡◌, ◌≢◌}
use cannelloni_tms.Mmio.{Device, Cmd}
use cannelloni_tms.Port.Hdkif.{Reg}
use cannelloni_tms.Port.Hdkif.Start.{Rxch, Pbufs}
use cannelloni_tms.Port.Hdkif.Receive.Memory.{RxMemory, View, next_bd, final_bd}
use cannelloni_tms.Port.Hdkif.Receive.Gather.{room}

module _ {R W : Type 0} (dev : Device R W) (at : Reg → R) (mem : RxMemory dev at) (lwip : Pbufs R W)
    (ethernet_input : ℕ → Cmd R W ℕ) (fuel : ℕ) where
  open mem use {Own, view}

  -- The channel after a packet that ends `c` descriptors behind the first one, when there are no new
  -- buffers.
  pub record IsWaiting (c : ℕ) (v : View) (rxch rxch' : Rxch) : Type 0 where
    pub first_free : rxch.free_head ≡ 0 → rxch'.free_head ≡ rxch.active_head
    pub free_kept : rxch.free_head ≢ 0 → rxch'.free_head ≡ rxch.free_head
    pub active : rxch'.active_head ≡ next_bd v (final_bd c v rxch.active_head)
    pub tail : rxch'.active_tail ≡ rxch.active_tail
    pub freed : rxch'.freed_pbuf_len ≡ (rxch.freed_pbuf_len + room c v rxch.active_head) % 2 ^ 32
