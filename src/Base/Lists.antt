-- ===== src/Base/Lists.antt =====
-- Lists measured by native numbers, Boolean tests over lists, and membership by recursion.
use Prim.Native.Nat.{ℕ, suc, ◌+◌}
use mathlib.Core.Path.{◌≡◌, refl, ◌∙◌}
use mathlib.Core.Logic.{◌⊎◌}
use mathlib.Core.Bool.{Bool, true, false, ◌&&◌, ◌||◌}
use mathlib.Core.List.{List, [], ◌∷◌, ◌++◌}
use native.Mathlib.Omega.{arith}
use yeu_xharness.Base.Tests.{if◌then◌else◌}

module _ {ℓ} {A : Type ℓ} where
  abbrev pub length : List A → ℕ
  length [] = 0
  length (x ∷ xs) = suc (length xs)

  pub length-append : (xs ys : List A) → length (xs ++ ys) ≡ length xs + length ys
  length-append [] ys = omega arith
  length-append (x ∷ xs) ys = omega (arith, length-append xs ys)

  -- `is_empty`
  abbrev pub is_empty : List A → Bool
  is_empty [] = true
  is_empty (x ∷ xs) = false

  -- `iter().any` and `iter().all`
  abbrev pub any : (A → Bool) → List A → Bool
  any p [] = false
  any p (x ∷ xs) = p x || any p xs

  abbrev pub all : (A → Bool) → List A → Bool
  all p [] = true
  all p (x ∷ xs) = p x && all p xs

  pub any-append : (p : A → Bool) (xs ys : List A) → any p (xs ++ ys) ≡ (any p xs || any p ys)
  any-append p [] ys = refl
  any-append p (x ∷ xs) ys = ground (arith, any-append p xs ys)

  pub all-append : (p : A → Bool) (xs ys : List A) → all p (xs ++ ys) ≡ (all p xs && all p ys)
  all-append p [] ys = refl
  all-append p (x ∷ xs) ys = ground (arith, all-append p xs ys)

  pub all-and : (p q : A → Bool) (xs : List A) → all (λ x. p x && q x) xs ≡ (all p xs && all q xs)
  all-and p q [] = refl
  all-and p q (x ∷ xs) = ground (arith, all-and p q xs)

  pub all-ext : (p q : A → Bool) (xs : List A) → ((x : A) → p x ≡ q x) → all p xs ≡ all q xs
  all-ext p q [] h = refl
  all-ext p q (x ∷ xs) h = ground (arith, h x, all-ext p q xs h)

  pub all-zip :
      (p q r : A → Bool) (xs : List A)
      → ((x : A) → p x ≡ (q x && r x))
      → all p xs ≡ (all q xs && all r xs)
  all-zip p q r xs h = all-ext p (λ x. q x && r x) xs h ∙ all-and q r xs

  pub any-or : (p q : A → Bool) (xs : List A) → any (λ x. p x || q x) xs ≡ (any p xs || any q xs)
  any-or p q [] = refl
  any-or p q (x ∷ xs) = ground (arith, any-or p q xs)

  pub any-ext : (p q : A → Bool) (xs : List A) → ((x : A) → p x ≡ q x) → any p xs ≡ any q xs
  any-ext p q [] h = refl
  any-ext p q (x ∷ xs) h = ground (arith, h x, any-ext p q xs h)

  -- `iter().filter`
  abbrev pub filter : (A → Bool) → List A → List A
  filter p [] = []
  filter p (x ∷ xs) = if p x then x ∷ filter p xs else filter p xs

  pub is_empty-append : (xs ys : List A) → is_empty (xs ++ ys) ≡ (is_empty xs && is_empty ys)
  is_empty-append [] ys = refl
  is_empty-append (x ∷ xs) ys = refl

module _ {ℓ κ} {A : Type ℓ} {B : Type κ} where
  -- A loop that pushes the items of `f x` for every `x`.
  abbrev pub flat_map : (A → List B) → List A → List B
  flat_map f [] = []
  flat_map f (x ∷ xs) = f x ++ flat_map f xs

  pub is_empty-flat_map :
      (f : A → List B) (xs : List A) → is_empty (flat_map f xs) ≡ all (λ x. is_empty (f x)) xs
  is_empty-flat_map f [] = refl
  is_empty-flat_map f (x ∷ xs) =
      ground (arith, is_empty-append (f x) (flat_map f xs), is_empty-flat_map f xs)

-- Membership by recursion, which the tactics read as a disjunction.
abbrev pub In : {A : Type 0} → A → List A → Type 0
In a [] = ⊥
In a (x ∷ xs) = (a ≡ x) ⊎ In a xs
