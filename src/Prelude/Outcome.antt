-- ===== src/Prelude/Outcome.antt =====
-- The outcome of a piece of C code.

-- An access outside the object that a pointer points into.
pub data Fault : Type 0 where
  read_oob : Fault
  write_oob : Fault

-- `fault` is undefined behaviour at an access out of bounds; `stuck` is no outcome of the code,
-- but says that a model ran out of fuel.
pub data Exec {ℓ} (A : Type ℓ) : Type ℓ where
  ok : A → Exec A
  fault : Fault → Exec A
  stuck : Exec A

infixl 5 ◌>>=◌
abbrev pub ◌>>=◌ {ℓ κ} : {A : Type ℓ} {B : Type κ} → Exec A → (A → Exec B) → Exec B
ok a >>= f = f a
fault e >>= f = fault e
stuck >>= f = stuck

-- `P` holds of the result, if there is one.
abbrev pub Holds {ℓ κ} : {A : Type ℓ} → (A → Type κ) → Exec A → Type κ
Holds P (ok a) = P a
Holds P (fault e) = Unit
Holds P stuck = Unit

pub Holds-bind {ℓ κ ι τ} :
    {A : Type ℓ} {B : Type κ} (Q : A → Type ι) (P : B → Type τ) (e : Exec A) (k : A → Exec B)
    → Holds Q e
    → ((a : A) → Q a → Holds P (k a))
    → Holds P (e >>= k)
Holds-bind Q P (ok a) k q h = h a q
Holds-bind Q P (fault e) k q h = tt
Holds-bind Q P stuck k q h = tt
