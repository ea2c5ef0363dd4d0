-- ===== src/Drivers/Vim/Table.antt =====
-- What registering handlers does to the table and to the enabled channels.
use cannelloni_tms.Prelude.{
  ℕ, zero, suc, ◌+◌, ◌*◌, ◌/◌, ◌%◌, ◌^◌, ◌<◌, ◌≤◌, ◌≡◌, ◌≢◌, refl, ap, ◌∙◌, arith, bit_or, [], ◌∷◌,
  if◌then◌else◌, ◌==◌, ◌⊎◌, inl, inr, ℕ_discrete,
}
use cannelloni_tms.Prelude.Bits.{bit_or_bit, bit_or_has}
use cannelloni_tms.Mmio.{Device}
use cannelloni_tms.Mmio.Orders.{Orders, registers}
use cannelloni_tms.Mmio.Runs.{Ends, Ends-bind, Ends-pure, Ends-put, Ends-weaken}
use cannelloni_tms.Drivers.Vim.{
  Reg, EsmReg, sr1, sr4, sr7, esm_high_interrupt, vim_ram, reqmaskset, vim_register_irq, fill_table,
  vim_init,
}

-- The interrupt manager: a table that keeps what is written to it, and words of enabled channels,
-- in which a write sets bits and a read shows them.
pub record VimDevice {R W : Type 0} (dev : Device R W) (at : Reg → R) : Type 0 where
  pub table : W → ℕ → ℕ
  pub mask : W → ℕ → ℕ
  pub table_write :
      (w : W) (i h j : ℕ)
      → table (dev.write (at (vim_ram i)) h w) j ≡ (if j == i then h else table w j)
  pub mask_kept : (w : W) (i h k : ℕ) → mask (dev.write (at (vim_ram i)) h w) k ≡ mask w k
  pub mask_write :
      (w : W) (k v j : ℕ)
      → mask (dev.write (at (reqmaskset k)) v w) j
        ≡ (if j == k then bit_or (mask w k) v else mask w j)
  pub table_kept : (w : W) (k v j : ℕ) → table (dev.write (at (reqmaskset k)) v w) j ≡ table w j
  pub mask_read : (w : W) (k : ℕ) → (dev.read (at (reqmaskset k)) w).0 ≡ mask w k
  pub read_table : (w : W) (k j : ℕ) → table (dev.read (at (reqmaskset k)) w).1 j ≡ table w j
  pub read_mask : (w : W) (k j : ℕ) → mask (dev.read (at (reqmaskset k)) w).1 j ≡ mask w j

module _ {R W : Type 0} (dev : Device R W) (at : Reg → R) (vim : VimDevice dev at) where
  open vim use {table, mask}

  -- The entry behind the channel's number has the handler, the others are as they were, and the
  -- channel is enabled.
  pub record Registered (w : W) (channel handler : ℕ) (w' : W) : Type 0 where
    pub entry : table w' (channel + 1) ≡ handler
    pub others : (j : ℕ) → j ≢ channel + 1 → table w' j ≡ table w j
    pub enabled : mask w' (channel / 32) / 2 ^ (channel % 32) % 2 ≡ 1
    pub words : (k : ℕ) → k ≢ channel / 32 → mask w' k ≡ mask w k

  -- On an interrupt manager that keeps its table and its words, registering a handler puts it into
  -- the entry of its channel and enables the channel; every other entry, and the enabled channels
  -- of every other word, are kept.
  pub vim_register_irq-Registered :
      (channel handler : ℕ) (w : W)
      → Ends (vim_register_irq dev at channel handler) w (λ _ w'. Registered w channel handler w')
  unfolding vim_register_irq
  vim_register_irq-Registered channel handler w =
      let w1 = dev.write (at (vim_ram (channel + 1))) handler w in
      let k = channel / 32 in
      let v = (dev.read (at (reqmaskset k)) w1).0 in
      let w2 = (dev.read (at (reqmaskset k)) w1).1 in
      let m = channel % 32 in
      let bit = 1 * 2 ^ m in
      let w3 = dev.write (at (reqmaskset k)) (bit_or v bit) w2 in
      let kept : (j : ℕ) → table w3 j ≡ table w1 j =
        λ j. vim.table_kept w2 k (bit_or v bit) j ∙ vim.read_table w1 k j in
      let one : bit ≡ 2 ^ m = omega arith in
      let word : mask w3 k ≡ bit_or (mask w2 k) (bit_or v bit) =
        vim.mask_write w2 k (bit_or v bit) k ∙ ground arith in
      record {
        result = tt;
        state = w3;
        trace = _;
        run = refl;
        post = record {
          entry =
              kept (channel + 1)
              ∙ vim.table_write w (channel + 1) handler (channel + 1)
              ∙ ground arith;
          others = λ j ne. kept j ∙ vim.table_write w (channel + 1) handler j ∙ ground arith;
          enabled =
              ap (λ t. t / 2 ^ m % 2) word
              ∙ bit_or_has m (mask w2 k) (bit_or v bit)
                  (ap (λ t. bit_or v t / 2 ^ m % 2) one ∙ bit_or_bit m v);
          words = λ j ne.
              vim.mask_write w2 k (bit_or v bit) j
              ∙ (ground arith ∙ vim.read_mask w1 k j ∙ vim.mask_kept w (channel + 1) handler j);
        };
      }

  -- `n` rounds of the loop from entry `i` on fill these entries and keep the others and the masks.
  fill_table-Ends :
      (n i phantom : ℕ) (w : W)
      → Ends (fill_table dev at n i phantom) w (λ _ w'.
        ((j : ℕ) → i ≤ j → j < i + n → table w' j ≡ phantom)
        × ((j : ℕ) → (j < i) ⊎ (i + n ≤ j) → table w' j ≡ table w j)
        × ((k : ℕ) → mask w' k ≡ mask w k))
  unfolding fill_table
  fill_table-Ends zero i phantom w =
      Ends-pure dev tt ((λ j h k. absurd (omega arith)), (λ j h. refl), (λ k. refl))
  fill_table-Ends (suc n) i phantom w =
      let w1 = dev.write (at (vim_ram i)) phantom w in
      Ends-put dev (at (vim_ram i)) phantom _ (
        Ends-weaken (fill_table-Ends n (i + 1) phantom w1) λ _ w' p. (
          (λ j h k. elim (ℕ_discrete j i) [
            | yes e ↦
                rw e (p.1 i (inl (omega arith)) ∙ vim.table_write w i phantom i ∙ ground arith)
            | no ne ↦ p.0 j (omega arith) (omega arith)
          ]),
          (λ j h.
              p.1 j (elim h [ inl l ↦ inl (omega arith) | inr g ↦ inr (omega arith) ])
              ∙ vim.table_write w i phantom j
              ∙ ground arith),
          (λ k. p.2 k ∙ vim.mask_kept w i phantom k),
        ))

  -- On such an interrupt manager `vim_init` returns. Each entry of the table then has the phantom
  -- handler, but for the entry of channel 0, which has the handler of the error signalling module;
  -- and channel 0 is enabled.
  pub vim_init-Registered :
      (phantom esm : ℕ) (w : W)
      → Ends (vim_init dev at phantom esm) w (λ _ w'.
        ((j : ℕ) → j < 128 → j ≢ 1 → table w' j ≡ phantom)
        × (table w' 1 ≡ esm)
        × (mask w' 0 / 2 ^ 0 % 2 ≡ 1)
        × ((k : ℕ) → k ≢ 0 → mask w' k ≡ mask w k))
  unfolding vim_init
  vim_init-Registered phantom esm w = Ends-bind _ (fill_table-Ends 128 0 phantom w) λ _ w1 p.
      Ends-weaken (vim_register_irq-Registered 0 esm w1) λ _ w2 r. (
        (λ j h ne. r.others j ne ∙ p.0 j (omega arith) (omega arith)),
        r.entry,
        r.enabled,
        (λ k ne. r.words k ne ∙ p.2 k),
      )

pub vim_register_irq-Orders :
    {R W : Type 0} (dev : Device R W) (at : Reg → R) (channel handler : ℕ)
    → Orders
        (vim_register_irq dev at channel handler)
        (at (vim_ram (channel + 1)) ∷ at (reqmaskset (channel / 32)) ∷ [])
unfolding vim_register_irq registers
vim_register_irq-Orders dev at channel handler = record { run = λ w. (_, _, _, refl, refl) }

-- The handler of the error signalling module acknowledges every error, that of group 1 last.
pub esm_high_interrupt-Orders :
    {R W : Type 0} (dev : Device R W) (at : EsmReg → R)
    → Orders (esm_high_interrupt dev at) (at (sr7 0) ∷ at (sr4 0) ∷ at (sr1 1) ∷ at (sr1 0) ∷ [])
unfolding esm_high_interrupt registers
esm_high_interrupt-Orders dev at = record { run = λ w. (_, _, _, refl, refl) }
