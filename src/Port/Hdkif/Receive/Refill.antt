-- ===== src/Port/Hdkif/Receive/Refill.antt =====
-- The loop that gives free descriptors new buffers.
use cannelloni_tms.Prelude.{
  ℕ, zero, suc, ◌+◌, ◌-◌, ◌%◌, ◌^◌, ◌<◌, ◌≡◌, ◌≢◌, ◌⊎◌, inl, inr, true, false, refl, sym, ◌∙◌,
  arith, [], ◌==◌, Bool-cases,
}
use cannelloni_tms.Prelude.{ok}
use cannelloni_tms.Mmio.{Device, Cmd, ◌>>=◌}
use cannelloni_tms.Mmio.Runs.{Ends, Ends-bind, Ends-weaken}
use cannelloni_tms.Port.Hdkif.{Reg, pbuf_next, pbuf_len}
use cannelloni_tms.Port.Hdkif.Receive.{Refilled, refill_bd, refill_bds}
use cannelloni_tms.Port.Hdkif.Receive.Memory.{View, RxMemory, next_bd}
use cannelloni_tms.Port.Hdkif.Receive.Slots.{
  OnlyBds, InRing, AreReady, IsRoom, segment_behind, bd_behind, last_ready, taken, still-IsReady,
  unread, OnlyBds-trans,
}
use cannelloni_tms.Port.Hdkif.Receive.Fill.{refill_bd-Ends}

module _ {R W : Type 0} (dev : Device R W) (at : Reg → R) (mem : RxMemory dev at) where
  open mem use {Own, view}

  -- After the loop, `f` being the variables before it: `k + 1` descriptors are ready, and the length
  -- that is still to be allocated is less by the segments' lengths.
  pub record IsRefilled (k : ℕ) (v : View) (q d : ℕ) (f f' : Refilled) (u u' : View) : Type 0 where
    pub ready : AreReady k v u' q d
    pub segment : f'.q ≡ segment_behind k v q
    pub curr : f'.curr_bd ≡ bd_behind k v d
    pub last : f'.last_bd ≡ last_ready k v d
    pub freed : (f'.freed_pbuf_len + taken k v q) % 2 ^ 32 ≡ f.freed_pbuf_len % 2 ^ 32
    pub only : OnlyBds (InRing k v d) u u'

  next_freed :
      (a b c len t : ℕ)
      → (c + t) % 2 ^ 32 ≡ b % 2 ^ 32
      → b ≡ (a + 2 ^ 32 - len) % 2 ^ 32
      → len < 2 ^ 32
      → (c + (len + t)) % 2 ^ 32 ≡ a % 2 ^ 32
  next_freed a b c len t e f h = omega arith

  -- The loop stops: no segment is left, or no free descriptor.
  stops :
      (n active : ℕ) (f : Refilled) (w : W)
      → (f.q ≡ 0) ⊎ (f.curr_bd ≡ active)
      → refill_bds dev at (suc n) active f w ≡ ok (f, w, [])
  unfolding refill_bds
  stops n active f w (inl e) = let t : (f.q == 0) ≡ true = ground arith in rw (refill_bds, t) refl
  stops n active f w (inr e) =
      let t : (f.curr_bd == active) ≡ true = ground arith in
      elim (Bool-cases (f.q == 0)) [
        | inl y ↦ rw (refill_bds, y) refl
        | inr y ↦ rw (refill_bds, y, t) refl
      ]

  goes_on :
      (n active : ℕ) (f : Refilled) (w : W)
      → f.q ≢ 0
      → f.curr_bd ≢ active
      → refill_bds dev at (suc n) active f w ≡ (refill_bd dev at f >>= refill_bds dev at n active) w
  unfolding refill_bds
  goes_on n active f w nq nd =
      let s : (f.q == 0) ≡ false = ground arith in
      let t : (f.curr_bd == active) ≡ false = ground arith in rw (refill_bds, s, t) refl

  Ends-same :
      {A : Type 0} {m m' : Cmd R W A} {w : W} {Q : A → W → Type 0}
      → m w ≡ m' w
      → Ends m' w Q
      → Ends m w Q
  Ends-same e h = record {
    result = h.result;
    state = h.state;
    trace = h.trace;
    run = e ∙ h.run;
    post = h.post;
  }

  refill_bds-Ends :
      (v : View) (n k active q d : ℕ) (P : ℕ → Type 0) (f : Refilled) (w : W)
      → suc k < n
      → IsRoom Own k v active q d
      → f.q ≡ q
      → f.curr_bd ≡ d
      → q < 2 ^ 32
      → ((x : ℕ) → v (pbuf_next x) < 2 ^ 32)
      → ((x : ℕ) → v (pbuf_len x) < 2 ^ 32)
      → OnlyBds P v (view w)
      → Ends (refill_bds dev at n active f) w (λ f' w'. IsRefilled k v q d f f' (view w) (view w'))
  refill_bds-Ends v zero k active q d P f w few h here there u32 words lens s = absurd (omega arith)
  refill_bds-Ends v (suc zero) k active q d P f w few h here there u32 words lens s =
      absurd (omega arith)
  refill_bds-Ends v (suc (suc n)) zero active q d P f w few (own, nq, nd, out) here there u32 words
        lens s =
      Ends-same (goes_on (suc n) active f w (λ e. nq (sym here ∙ e)) (λ e. nd (sym there ∙ e))) (
        Ends-bind _ (refill_bd-Ends dev at mem v q d f w own here there u32 (unread q d s))
          (λ f1 w1 a.
            let no_more : (f1.q ≡ 0) ⊎ (f1.curr_bd ≡ active) = elim out [
              | inl z ↦ inl (a.segment ∙ z)
              | inr z ↦ inr (a.curr ∙ z)
            ] in
            record {
              result = f1;
              state = w1;
              trace = [];
              run = stops n active f1 w1 no_more;
              post = record {
                ready = a.ready;
                segment = a.segment;
                curr = a.curr;
                last = a.last;
                freed = omega (arith, a.freed, lens q);
                only = a.only;
              };
            }))
  refill_bds-Ends v (suc (suc n)) (suc k) active q d P f w few (own, nq, nd, other, h) here there
        u32 words lens s =
      let q' = v (pbuf_next q) in
      let d' = next_bd v d in
      Ends-same (goes_on (suc n) active f w (λ e. nq (sym here ∙ e)) (λ e. nd (sym there ∙ e))) (
        Ends-bind _ (refill_bd-Ends dev at mem v q d f w own here there u32 (unread q d s))
          (λ f1 w1 a.
            Ends-weaken
              (refill_bds-Ends v (suc n) k active q' d' (λ x. P x ⊎ (x ≡ d)) f1 w1 (omega arith) h
                a.segment a.curr (words q) words lens (OnlyBds-trans s a.only))
              (λ f2 w2 b. record {
                ready = (still-IsReady q d other b.only a.ready, b.ready);
                segment = b.segment;
                curr = b.curr;
                last = b.last;
                freed =
                    next_freed f.freed_pbuf_len f1.freed_pbuf_len f2.freed_pbuf_len (v (pbuf_len q))
                      (taken k v q') b.freed a.freed (lens q);
                only = OnlyBds-trans a.only b.only;
              })))

  -- In the memory that the driver owns, for a chain of segments from `q` on and free descriptors
  -- from `d` on, of which there are `k + 1` pairs, fewer than the fuel, before the segments end or
  -- the descriptor `active` comes: the loop returns; each of these descriptors belongs to the EMAC
  -- and has the segment in its place of the chain, with its address and length; nothing else has
  -- been written; the length still to be allocated is less by the segments' lengths, modulo 2^32.
  pub refill_bds-IsRefilled :
      (fuel k active q d last freed : ℕ) (w : W)
      → suc k < fuel
      → IsRoom Own k (view w) active q d
      → q < 2 ^ 32
      → let f : Refilled = record { q = q; curr_bd = d; last_bd = last; freed_pbuf_len = freed } in
        Ends
          (refill_bds dev at fuel active f)
          w
          (λ f' w'. IsRefilled k (view w) q d f f' (view w) (view w'))
  refill_bds-IsRefilled fuel k active q d last freed w few h u32 =
      refill_bds-Ends (view w) fuel k active q d (λ x. ⊥)
        (record { q = q; curr_bd = d; last_bd = last; freed_pbuf_len = freed }) w few h refl refl
        u32 (λ x. mem.word w (pbuf_next x)) (λ x. mem.word w (pbuf_len x)) (λ r o. refl)
