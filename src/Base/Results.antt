-- ===== src/Base/Results.antt =====
-- Rust's `Result`, with `?` as the bind of a `do` block.
use mathlib.Core.Path.{◌≡◌, refl}
use mathlib.Core.Logic.{◌⊎◌, inl, inr}
use mathlib.Core.Bool.{Bool, true, false}
use mathlib.Core.Option.{Option, none, some}
use native.Mathlib.Omega.{arith}

pub data Result (E A : Type 0) : Type 0 where
  ok : A → Result E A
  err : E → Result E A

module _ {E : Type 0} where
  infixl 5 ◌>>=◌ ◌>>◌
  abbrev pub ◌>>=◌ : {A B : Type 0} → Result E A → (A → Result E B) → Result E B
  ok a >>= f = f a
  err e >>= f = err e

  abbrev pub ◌>>◌ : {B : Type 0} → Result E (Unit {0}) → Result E B → Result E B
  m >> k = m >>= λ _. k

  -- An early `return Err(e)` unless the test passes.
  abbrev pub require : Bool → E → Result E (Unit {0})
  require true e = ok tt
  require false e = err e

  abbrev pub ok_or : {A : Type 0} → Option A → E → Result E A
  ok_or none e = err e
  ok_or (some a) e = ok a

  abbrev pub IsOk : {A : Type 0} → Result E A → Type 0
  IsOk (ok a) = Unit
  IsOk (err e) = ⊥

  pub require-eq_ok :
      {A : Type 0} (b : Bool) (e : E) (k : Result E A) {a : A}
      → (require b e >> k) ≡ ok a
      → (b ≡ true) × (k ≡ ok a)
  require-eq_ok true e k h = (refl, h)
  require-eq_ok false e k h = ground arith

  pub seq-eq_ok :
      {A : Type 0} (m : Result E (Unit {0})) (k : Result E A) {a : A}
      → (m >> k) ≡ ok a
      → (m ≡ ok tt) × (k ≡ ok a)
  seq-eq_ok (ok tt) k h = (refl, h)
  seq-eq_ok (err e) k h = ground arith

pub ok-injective : {E A : Type 0} (a b : A) → ◌≡◌ {A = Result E A} (ok a) (ok b) → a ≡ b
ok-injective a b h = cc

pub Result-cases :
    {E A : Type 0} (r : Result E A) → ((a : A) × (r ≡ ok a)) ⊎ ((x : E) × (r ≡ err x))
Result-cases (ok a) = inl (a, refl)
Result-cases (err x) = inr (x, refl)

-- A bind that succeeds, taken apart.
pub bind-eq_ok :
    {E A B : Type 0} (m : Result E A) (f : A → Result E B) (b : B)
    → (m >>= f) ≡ ok b
    → (a : A) × (m ≡ ok a) × (f a ≡ ok b)
bind-eq_ok (ok a) f b h = (a, refl, h)
bind-eq_ok (err e) f b h = ground arith
