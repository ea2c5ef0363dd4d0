-- ===== src/Tests/Receive.antt =====
-- The theorems on the reception of packets at a concrete memory.
use cannelloni_tms.Prelude.{
  ℕ, ◌%◌, ◌^◌, ◌<◌, ◌≤◌, inl, refl, ap, ◌∙◌, arith, [], ℕ_discrete, if◌then◌else◌, ◌==◌,
}
use cannelloni_tms.Prelude.{ok}
use mathlib.Core.Logic.{ite, if_pos, if_neg}
use native.Mathlib.Nat.{mod-lt, mod-eq_of_lt}
use cannelloni_tms.Mmio.{Device, Cmd}
use cannelloni_tms.Mmio.Runs.{Ends}
use cannelloni_tms.Port.Hdkif.{
  Reg, bd_next, bd_bufoff_len, bd_flags_pktlen, bd_pbuf, pbuf_next, pbuf_tot_len, pbuf_len,
  hdkif_swizzle_data,
}
use cannelloni_tms.Port.Hdkif.Start.{Rxch, Pbufs}
use cannelloni_tms.Port.Hdkif.Receive.{Refilled, gather_packet, refill_bds}
use cannelloni_tms.Port.Hdkif.Receive.Memory.{View, RxMemory, width, Owned, IsPacket}
use cannelloni_tms.Port.Hdkif.Receive.Gather.{IsGathered, gather_packet-IsGathered}
use cannelloni_tms.Port.Hdkif.Receive.Slots.{OwnedPair, IsRoom}
use cannelloni_tms.Port.Hdkif.Receive.Refill.{IsRefilled, refill_bds-IsRefilled}

Reg-discrete : Discrete Reg
Reg-discrete = hlevel ℕ_discrete

abbrev changed : Reg → ℕ → View → View
changed r v m r' = ite (Reg-discrete r' r) v (m r')

-- Memory in which every member is the driver's.
abbrev ram : Device Reg View
ram = record { read = λ r m. (m r % width r, m); write = changed }

width_pos : (r : Reg) → 0 < width r
width_pos (pbuf_len p) = omega arith
width_pos (pbuf_tot_len p) = omega arith
width_pos r = omega arith

width_le : (r : Reg) → width r ≤ 2 ^ 32
width_le (pbuf_len p) = omega arith
width_le (pbuf_tot_len p) = omega arith
width_le r = omega arith

abbrev ram_memory : RxMemory ram (λ r. r)
ram_memory = record {
  Own = λ r. Unit {0};
  view = λ m r. m r % width r;
  word = λ m r. omega (arith, mod-lt (m r) (width_pos r), width_le r);
  read = λ m r own. refl;
  kept = λ m r r'. refl;
  miss = λ m r v r' own ne. ap (λ x. x % width r') (if_neg (Reg-discrete r' r) ne v (m r'));
  set = λ m r v own h.
      ap (λ x. x % width r) (if_pos (Reg-discrete r r) refl v (m r)) ∙ mod-eq_of_lt h;
}

-- Two finished descriptors, at 100 and 120, with the buffers at 0x2000 and 0x3000, of 100 and 20
-- bytes; the descriptor at 140 and the chain of two segments at 0x4000 are free.
abbrev filled : View
filled (bd_next a) =
    if a == 100 then hdkif_swizzle_data 120 else if a == 120 then hdkif_swizzle_data 140 else 0
filled (bd_bufoff_len a) = if a == 100 then hdkif_swizzle_data 100 else hdkif_swizzle_data 20
filled (bd_flags_pktlen a) =
    if a == 100 then hdkif_swizzle_data 0x8000_0078 else hdkif_swizzle_data 0x4000_0000
filled (bd_pbuf a) = if a == 100 then 0x2000 else if a == 120 then 0x3000 else 0
filled (pbuf_len q) = 512
filled (pbuf_next q) = if q == 0x4000 then 0x5000 else 0
filled r = 0

owned : (d : ℕ) → Owned (λ r. Unit {0}) (ram_memory.view filled) d
owned d = record {
  flags = tt;
  length = tt;
  link = tt;
  pbuf = tt;
  next = tt;
  len = tt;
  tot_len = tt;
}

filled-IsPacket : IsPacket (λ r. Unit {0}) 1 (ram_memory.view filled) 100
unfolding hdkif_swizzle_data
filled-IsPacket = (owned 100, refl, inl refl, (λ p h e. omega (arith, h, e)), (owned 120, refl))

gather_packet-IsGathered_example :
    Ends
      (gather_packet ram (λ r. r) 3 100)
      filled
      (λ r m. IsGathered 1 (ram_memory.view filled) 100 r (ram_memory.view m))
unfolding hdkif_swizzle_data
gather_packet-IsGathered_example =
    gather_packet-IsGathered ram (λ r. r) ram_memory 3 1 100 filled (omega arith) filled-IsPacket
      refl

abbrev channel : Rxch
channel = record { free_head = 0; active_head = 100; active_tail = 400; freed_pbuf_len = 7 }

-- No buffer can be allocated.
abbrev exhausted : Pbufs Reg View
exhausted = record {
  pbuf_alloc = λ n m. ok (0, m, []);
  pbuf_clen = λ p m. ok (1, m, []);
  pbuf_free = λ p m. ok (tt, m, []);
  pbuf_ref = λ p m. ok (tt, m, []);
}

abbrev input : ℕ → Cmd Reg View ℕ
input q m = ok (0, m, [])

-- Two segments, and two free descriptors before the one at 140.
abbrev pair : (q d : ℕ) → OwnedPair (λ r. Unit {0}) q d
pair q d = record {
  payload = tt;
  len = tt;
  next = tt;
  bufptr = tt;
  length = tt;
  flags = tt;
  pbuf = tt;
  link = tt;
}

IsRoom-for_two : IsRoom (λ r. Unit {0}) 1 (ram_memory.view filled) 140 0x4000 100
unfolding hdkif_swizzle_data
IsRoom-for_two = (
  pair 0x4000 100,
  (λ e. omega (arith, e)),
  (λ e. omega (arith, e)),
  (λ x h e. omega (arith, h, e)),
  (pair 0x5000 120, (λ e. omega (arith, e)), (λ e. omega (arith, e)), inl refl),
)

abbrev empty : Refilled
empty = record { q = 0x4000; curr_bd = 100; last_bd = 400; freed_pbuf_len = 1024 }

refill_bds-IsRefilled_example : Ends (refill_bds ram (λ r. r) 3 140 empty) filled (λ f m.
    IsRefilled ram
      (λ r. r)
      ram_memory
      1
      (ram_memory.view filled)
      0x4000
      100
      empty
      f
      (ram_memory.view filled)
      (ram_memory.view m))
refill_bds-IsRefilled_example =
    refill_bds-IsRefilled ram (λ r. r) ram_memory 3 1 140 0x4000 100 400 1024 filled (omega arith)
      IsRoom-for_two (omega arith)
