-- ===== src/Tests/Controller.antt =====
-- The theorems on the CAN controller driver at concrete registers.
use cannelloni_tms.Prelude.{
  ℕ, zero, suc, ◌+◌, ◌-◌, ◌<◌, ◌≡◌, refl, arith, List, [], ◌∷◌, ◌++◌, inr, true, take, drop,
  if◌then◌else◌, ◌==◌,
}
use cannelloni_tms.Prelude.{ok, fault, read_oob}
use cannelloni_tms.Can.{Dcan, Hardware, can_if_wait_ready, can_send, can_fill_rx_mbox}
use cannelloni_tms.Can.Frames.{can_send-can_fill_rx_mbox, can_fill_rx_mbox-overrun}
use cannelloni_tms.Can.Wait.{polled, busy, can_if_wait_ready_lem}

-- A controller that is busy for as many reads of its status as its hidden state says.
abbrev slow : Hardware ℕ
slow = record {
  poll = λ s. (if s.ram == 0 then 0 else 0x81, record s { ram = s.ram - 1 });
  start = λ s. record s { txrq = 1; ram = 2 };
}

abbrev bytes : List ℕ
bytes = 1 ∷ 2 ∷ 3 ∷ 4 ∷ 5 ∷ 6 ∷ 7 ∷ 8 ∷ []

abbrev zeroes : List ℕ
zeroes = 0 ∷ 0 ∷ 0 ∷ 0 ∷ 0 ∷ 0 ∷ 0 ∷ 0 ∷ []

abbrev pub registers : Dcan ℕ
registers = record {
  ctl = 1;
  btr = 0;
  tioc = 0;
  rioc = 0;
  if1msk = 0;
  if1arb = 0;
  if1mctl = 0x100F;
  if1dat = zeroes;
  if1cmd = 0;
  if1no = 0;
  txrq = 2;
  ram = 1;
}

only_first : (k : ℕ) → k < 1 → busy slow (polled slow k registers) ≡ 0x80
only_first zero h = refl
only_first (suc k) h = absurd (omega arith)

settled : can_if_wait_ready slow 2 registers ≡ ok (polled slow 2 registers)
settled = can_if_wait_ready_lem slow 1 2 registers (omega arith) only_first refl

can_send-can_fill_rx_mbox_example :
    (s2 : Dcan ℕ) × (can_send slow 2 registers (0x8000_0000 + 0x42) 3 bytes
      ≡ ok (true, slow.start s2))
    × (s2.if1no ≡ 1)
    × (can_fill_rx_mbox s2 zeroes ≡ ok (0x8000_0000 + 0x42, 3, take 3 bytes ++ drop 3 zeroes))
can_send-can_fill_rx_mbox_example =
    can_send-can_fill_rx_mbox slow 2 registers (polled slow 2 registers) (0x8000_0000 + 0x42) 3
      bytes zeroes refl settled (inr (omega arith, omega arith)) (omega arith) refl refl refl

can_fill_rx_mbox-overrun_example : can_fill_rx_mbox registers zeroes ≡ fault read_oob
can_fill_rx_mbox-overrun_example = can_fill_rx_mbox-overrun registers zeroes (omega arith) refl refl
