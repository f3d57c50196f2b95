-- ===== src/Base/Order.antt =====
-- Rust's `Ord`: a comparison with its laws, the equality test that it gives, and the instance for
-- the numbers.
use Prim.Native.Nat.{ℕ, compare, Ordering}
use Prim.Native.Nat.Ordering.{lt, eq, gt}
use mathlib.Core.Path.{◌≡◌, refl}
use mathlib.Core.Logic.{◌↔◌, ◌⊎◌, inl, inr}
use mathlib.Core.Bool.{Bool, true, false}
use native.Mathlib.Omega.{arith}

pub record Ord (K : Type 0) : Type 0 where
  pub cmp : K → K → Ordering
  pub cmp_chain : (x y z : K) → cmp x y ≡ lt → cmp y z ≡ lt → cmp x z ≡ lt
  pub cmp_flip : (x y : K) → cmp x y ≡ gt → cmp y x ≡ lt
  pub same_of_cmp : (x y : K) → cmp x y ≡ eq → x ≡ y
  pub cmp_same : (x : K) → cmp x x ≡ eq

pub compare_trans : (x y z : ℕ) → compare x y ≡ lt → compare y z ≡ lt → compare x z ≡ lt
compare_trans x y z h k = ground arith

pub lt_of_compare : (x y : ℕ) → compare x y ≡ gt → compare y x ≡ lt
lt_of_compare x y h = ground arith

pub eq_of_compare : (x y : ℕ) → compare x y ≡ eq → x ≡ y
eq_of_compare x y h = ground arith

pub compare_refl : (x : ℕ) → compare x x ≡ eq
compare_refl x = ground arith

instance abbrev pub nat_ord : Ord ℕ
nat_ord = record {
  cmp = compare;
  cmp_same = compare_refl;
  same_of_cmp = eq_of_compare;
  cmp_flip = lt_of_compare;
  cmp_chain = compare_trans;
}

module _ {K : Type 0} ⦃o : Ord K⦄ where
  infix 50 ◌==◌
  abbrev pub ◌==◌ : K → K → Bool
  a == b = elim (o.cmp a b) [ eq ↦ true | _ ↦ false ]

  pub ==_iff : (a b : K) → ((a == b) ≡ true) ↔ (a ≡ b)
  ==_iff a b = (λ h. ground (arith, o.same_of_cmp a b), λ h. ground (arith, o.cmp_same a))

pub Ordering-cases : (c : Ordering) → (c ≡ lt) ⊎ ((c ≡ eq) ⊎ (c ≡ gt))
Ordering-cases lt = inl refl
Ordering-cases eq = inr (inl refl)
Ordering-cases gt = inr (inr refl)
