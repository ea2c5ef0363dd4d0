-- ===== src/Mmio/Runs.antt =====
-- Commands that return.
use cannelloni_tms.Prelude.{ℕ, suc, false, ◌≡◌, refl, ap, ◌∙◌, List, [], ◌∷◌, ◌++◌, Bool}
use cannelloni_tms.Prelude.{ok}
use cannelloni_tms.Mmio.{
  Device, Write, Cmd, ◌>>=◌, ◌>>◌, behind, and_then, pure, get, put, poll, wait, waited,
}

-- The command returns `a` and makes the writes `l`, whatever the device does.
pub record Runs {R W A : Type 0} (m : Cmd R W A) (a : A) (l : List (Write R)) : Type 0 where
  pub run : (w : W) → (w' : W) × (m w ≡ ok (a, w', l))

-- Every wait for the register to pass the test ends within the fuel.
abbrev pub Settles : {R W : Type 0} → Device R W → ℕ → R → (ℕ → Bool) → Type 0
Settles {W} dev fuel r busy = (w : W) → (w' : W) × (poll dev fuel r busy w ≡ ok w')

module _ {R W : Type 0} where
  pub Runs-bind :
      {A B : Type 0} {m : Cmd R W A} (k : A → Cmd R W B) {a : A} {b : B} {l l' : List (Write R)}
      → Runs m a l
      → Runs (k a) b l'
      → Runs (m >>= k) b (l ++ l')
  Runs-bind k r s = record {
    run = λ w.
        let (w1, e) = r.run w in
        let (w2, f) = s.run w1 in (w2, ap (λ o. and_then o k) e ∙ ap (behind _) f);
  }

  -- A wait that ends leaves no trace.
  pub after_wait :
      (dev : Device R W) (fuel : ℕ) (r : R) (busy : ℕ → Bool) {B : Type 0}
      (k : Unit {0} → Cmd R W B) {b : B} {l : List (Write R)}
      → Settles dev fuel r busy
      → Runs (k tt) b l
      → Runs (wait dev fuel r busy >>= k) b l
  after_wait dev fuel r busy k s t =
      Runs-bind k (record { run = λ w. let (w', e) = s w in (w', ap waited e) }) t

  pub after_put :
      (dev : Device R W) (r : R) (v v' : ℕ) {B : Type 0} (k : Cmd R W B) {b : B}
      {l : List (Write R)}
      → v ≡ v'
      → Runs k b l
      → Runs (put dev r v >> k) b (record { reg = r; value = v' } ∷ l)
  after_put dev r v v' k e t =
      Runs-bind (λ _. k)
        (record {
          run = λ w. (
            dev.write r v w,
            ap (λ x. ok (tt, dev.write r v w, record { reg = r; value = x } ∷ [])) e,
          );
        })
        t

-- The command returns from the state `w`, with a result and a state of which `Q` holds.
pub record Ends {R W A : Type 0} (m : Cmd R W A) (w : W) (Q : A → W → Type 0) : Type 0 where
  pub result : A
  pub state : W
  pub trace : List (Write R)
  pub run : m w ≡ ok (result, state, trace)
  pub post : Q result state

module _ {R W A B : Type 0} where
  pub Ends-bind :
      {m : Cmd R W A} (k : A → Cmd R W B) {w : W} {Q : A → W → Type 0} {P : B → W → Type 0}
      → Ends m w Q
      → ((a : A) (w' : W) → Q a w' → Ends (k a) w' P)
      → Ends (m >>= k) w P
  Ends-bind k e f =
      let g = f e.result e.state e.post in
      record {
        result = g.result;
        state = g.state;
        trace = e.trace ++ g.trace;
        run = ap (λ o. and_then o k) e.run ∙ ap (behind _) g.run;
        post = g.post;
      }

module _ {R W A : Type 0} where
  pub Ends-weaken :
      {m : Cmd R W A} {w : W} {Q P : A → W → Type 0}
      → Ends m w Q
      → ((a : A) (w' : W) → Q a w' → P a w')
      → Ends m w P
  Ends-weaken e f = record {
    result = e.result;
    state = e.state;
    trace = e.trace;
    run = e.run;
    post = f e.result e.state e.post;
  }

module _ {R W : Type 0} (dev : Device R W) where
  pub Ends-pure :
      {A : Type 0} (a : A) {w : W} {P : A → W → Type 0} → P a w → Ends (pure {R = R} a) w P
  Ends-pure a {w} p = record { result = a; state = w; trace = []; run = refl; post = p }

  pub Ends-put :
      (r : R) (v : ℕ) {B : Type 0} (k : Cmd R W B) {w : W} {P : B → W → Type 0}
      → Ends k (dev.write r v w) P
      → Ends (put dev r v >> k) w P
  Ends-put r v k {w} e = record {
    result = e.result;
    state = e.state;
    trace = record { reg = r; value = v } ∷ e.trace;
    run = ap (behind (record { reg = r; value = v } ∷ [])) e.run;
    post = e.post;
  }

  pub Ends-get :
      (r : R) {B : Type 0} (k : ℕ → Cmd R W B) {w : W} {P : B → W → Type 0}
      → Ends (k (dev.read r w).0) (dev.read r w).1 P
      → Ends (get dev r >>= k) w P
  Ends-get r k {w} e = record {
    result = e.result;
    state = e.state;
    trace = e.trace;
    run = ap (behind []) e.run;
    post = e.post;
  }

  pub Ends-wait :
      (fuel : ℕ) (r : R) (busy : ℕ → Bool) {B : Type 0} (k : Unit {0} → Cmd R W B) {w w' : W}
      {P : B → W → Type 0}
      → poll dev fuel r busy w ≡ ok w'
      → Ends (k tt) w' P
      → Ends (wait dev fuel r busy >>= k) w P
  Ends-wait fuel r busy k h e = record {
    result = e.result;
    state = e.state;
    trace = e.trace;
    run = ap (λ o. and_then (waited o) k) h ∙ ap (behind []) e.run;
    post = e.post;
  }

  pub Ends-last_wait :
      (fuel : ℕ) (r : R) (busy : ℕ → Bool) {w w' : W} {P : Unit {0} → W → Type 0}
      → poll dev fuel r busy w ≡ ok w'
      → P tt w'
      → Ends (wait dev fuel r busy) w P
  Ends-last_wait fuel r busy {w' = w'} h p = record {
    result = tt;
    state = w';
    trace = [];
    run = ap waited h;
    post = p;
  }

  -- A read that fails the test ends the wait.
  pub poll-ready :
      (fuel : ℕ) (r : R) (busy : ℕ → Bool) (w : W)
      → busy (dev.read r w).0 ≡ false
      → poll dev (suc fuel) r busy w ≡ ok (dev.read r w).1
  unfolding poll
  poll-ready fuel r busy w h = rw (poll, h) refl
