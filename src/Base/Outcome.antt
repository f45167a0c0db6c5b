-- ===== src/Base/Outcome.antt =====
-- A run of C code: a result, or undefined behaviour (a write past a buffer, a NULL or dangling
-- pointer, an overflow of a signed integer).
use mathlib.Core.Path.{◌≡◌, refl}
use mathlib.Core.Bool.{Bool, true, false}

pub data Run {ℓ} (A : Type ℓ) : Type ℓ where
  ok : A → Run A
  fault : Run A

-- Undefined behaviour ends the run.
module _ {ℓ κ} {A : Type ℓ} {B : Type κ} where
  infixl 5 ◌>>=◌
  abbrev pub ◌>>=◌ : Run A → (A → Run B) → Run B
  fault >>= next = fault
  ok result >>= next = next result

  -- A sequence that ends has a first part that ends.
  pub >>=-eq-ok :
      (start : Run A) (next : A → Run B) {b : B}
      → (start >>= next) ≡ ok b
      → (mid : A) × (start ≡ ok mid) × (next mid ≡ ok b)
  >>=-eq-ok fault next e = cc
  >>=-eq-ok (ok result) next e = (result, refl, e)

infixl 5 ◌>>◌
abbrev pub ◌>>◌ {ℓ} : {B : Type ℓ} → Run (Unit {0}) → Run B → Run B
test >> rest = test >>= λ _. rest

-- The code goes on only where the test holds.
abbrev pub require : Bool → Run (Unit {0})
require true = ok tt
require false = fault

-- What holds of the result, if the run is free of undefined behaviour.
abbrev pub Post {ℓ κ} : {A : Type ℓ} → (A → Type κ) → Run A → Type κ
Post P (ok a) = P a
Post P fault = Unit

pub each {ℓ κ μ} :
    {A : Type ℓ} {B : Type κ} (P : B → Type μ) (m : Run A) (f : A → Run B)
    → ((a : A) → Post P (f a))
    → Post P (m >>= f)
each P (ok a) f h = h a
each P fault f h = tt

pub each_eq {ℓ κ μ} :
    {A : Type ℓ} {B : Type κ} (P : B → Type μ) (m : Run A) (f : A → Run B)
    → ((a : A) → m ≡ ok a → Post P (f a))
    → Post P (m >>= f)
each_eq P (ok a) f h = h a refl
each_eq P fault f h = tt

pub Post-mono {ℓ κ μ} :
    {A : Type ℓ} (P : A → Type κ) (Q : A → Type μ) (m : Run A)
    → Post P m
    → ((a : A) → P a → Q a)
    → Post Q m
Post-mono P Q (ok a) p h = h a p
Post-mono P Q fault p h = tt

pub Post-all {ℓ κ μ} :
    {A : Type ℓ} {X : Type κ} (P : X → A → Type μ) (m : Run A)
    → ((x : X) → Post (P x) m)
    → Post (λ a. (x : X) → P x a) m
Post-all P (ok a) h = h
Post-all P fault h = tt

-- The postcondition at the result that a run is known to have.
pub at_ok {ℓ κ} : {A : Type ℓ} (P : A → Type κ) (m : Run A) (a : A) → Post P m → m ≡ ok a → P a
at_ok P m a p e = rw e at p
