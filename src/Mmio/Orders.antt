-- ===== src/Mmio/Orders.antt =====
-- Commands that write the same registers in the same order from every state.
use cannelloni_tms.Prelude.{ℕ, Bool, ◌≡◌, refl, ap, ◌∙◌, List, [], ◌∷◌, ◌++◌, map}
use cannelloni_tms.Prelude.{ok}
use cannelloni_tms.Mmio.Runs.{Settles, Ends}
use cannelloni_tms.Mmio.{Device, put, wait, waited, Write, Cmd, ◌>>=◌, behind, and_then}

unfoldable pub registers : {R : Type 0} → List (Write R) → List R
registers l = map (λ x. x.reg) l

-- The command returns, and the registers that it writes are these, whatever the values.
pub record Orders {R W A : Type 0} (m : Cmd R W A) (rs : List R) : Type 0 where
  pub run :
      (w : W)
      → (a : A) × (w' : W) × (l : List (Write R)) × (m w ≡ ok (a, w', l)) × (registers l ≡ rs)

registers-append :
    {R : Type 0} (l l' : List (Write R)) → registers (l ++ l') ≡ registers l ++ registers l'
unfolding registers
registers-append [] l' = refl
registers-append (x ∷ l) l' = ap (λ t. x.reg ∷ t) (registers-append l l')

pub Orders-bind :
    {R W A B : Type 0} {m : Cmd R W A} {k : A → Cmd R W B} {rs rs' : List R}
    → Orders m rs
    → ((a : A) → Orders (k a) rs')
    → Orders (m >>= k) (rs ++ rs')
Orders-bind {k} {rs} o p = record {
  run = λ w.
      let (a, w1, l, e, r) = o.run w in
      let (b, w2, l', e', r') = (p a).run w1 in
      (
        b,
        w2,
        l ++ l',
        ap (λ x. and_then x k) e ∙ ap (behind l) e',
        registers-append l l' ∙ ap (λ t. t ++ registers l') r ∙ ap (λ t. rs ++ t) r',
      );
}

pub Orders-put : {R W : Type 0} (dev : Device R W) (r : R) (v : ℕ) → Orders (put dev r v) (r ∷ [])
unfolding registers
Orders-put dev r v = record { run = λ w. (tt, dev.write r v w, _, refl, refl) }

-- A wait that ends writes nothing.
pub Orders-wait :
    {R W : Type 0} (dev : Device R W) (fuel : ℕ) (r : R) (busy : ℕ → Bool)
    → Settles dev fuel r busy
    → Orders (wait dev fuel r busy) []
unfolding registers
Orders-wait dev fuel r busy settles = record {
  run = λ w. let (w', e) = settles w in (tt, w', [], ap waited e, refl);
}

pub Orders-Ends :
    {R W A : Type 0} {m : Cmd R W A} {rs : List R} (w : W)
    → Orders m rs
    → Ends m w (λ _ _. Unit {0})
Orders-Ends w o =
    let (a, w', l, e, r) = o.run w in
    record { result = a; state = w'; trace = l; run = e; post = tt }
