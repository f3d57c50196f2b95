-- ===== src/Base/Set.antt =====
-- `BTreeSet`: lists in strict order, with the insertion that keeps it.
use Prim.Native.Nat.Ordering.{lt, eq, gt}
use mathlib.Core.Path.{◌≡◌, refl}
use mathlib.Core.Logic.{inl, inr}
use mathlib.Core.Bool.{Bool, true, ◌||◌}
use mathlib.Core.List.{List, [], ◌∷◌}
use native.Mathlib.Omega.{arith}
use yeu_xharness.Base.Lists.{any, all}
use yeu_xharness.Base.Order.{Ord, ◌==◌, Ordering-cases}

module _ {K : Type 0} ⦃o : Ord K⦄ where
  unfoldable pub insert : K → List K → List K
  insert k [] = k ∷ []
  insert k (j ∷ s) = elim (o.cmp k j) [ lt ↦ k ∷ j ∷ s | eq ↦ k ∷ s | gt ↦ j ∷ insert k s ]

  abbrev pub contains : K → List K → Bool
  contains k = any (λ j. j == k)

  -- `iter().collect::<BTreeSet<_>>()`
  unfoldable pub collect : List K → List K
  unfolding insert
  collect [] = []
  collect (x ∷ xs) = insert x (collect xs)

  -- What some member satisfies, one of the inserted members satisfies.
  pub any-insert : (p : K → Bool) (k : K) (s : List K) → any p (insert k s) ≡ (p k || any p s)
  unfolding insert
  any-insert p k [] = refl
  any-insert p k (j ∷ s) = ground (arith, any-insert p k s, o.same_of_cmp k j)

  pub all-insert :
      (p : K → Bool) (k : K) (s : List K) → p k ≡ true → all p s ≡ true → all p (insert k s) ≡ true
  unfolding insert
  all-insert p k [] hk h = ground arith
  all-insert p k (j ∷ s) hk h = ground (arith, all-insert p k s hk)

  pub any-collect : (p : K → Bool) (xs : List K) → any p (collect xs) ≡ any p xs
  unfolding collect
  any-collect p [] = refl
  any-collect p (x ∷ xs) = ground (arith, any-insert p x (collect xs), any-collect p xs)

  -- Strict order: the first member is below the second, and so on.
  abbrev pub Above : K → List K → Type 0
  Above k [] = Unit
  Above k (j ∷ s) = o.cmp k j ≡ lt

  abbrev pub IsSorted : List K → Type 0
  IsSorted [] = Unit
  IsSorted (k ∷ s) = Above k s × IsSorted s

  Above-insert : (j k : K) (s : List K) → o.cmp j k ≡ lt → Above j s → Above j (insert k s)
  unfolding insert
  Above-insert j k [] h a = h
  Above-insert j k (i ∷ s) h a = ground arith

  pub insert-IsSorted : (k : K) (s : List K) → IsSorted s → IsSorted (insert k s)
  unfolding insert
  insert-IsSorted k [] h = (tt, tt)
  insert-IsSorted k (j ∷ s) h = elim (Ordering-cases (o.cmp k j)) [
    | inl below ↦ rw (below, insert) (below, h)
    | inr (inl equal) ↦ rw (equal, insert) (rw (o.same_of_cmp k j equal) h)
    | inr (inr above) ↦
        rw (above, insert) (Above-insert j k s (o.cmp_flip k j above) h.0, insert-IsSorted k s h.1)
  ]

  pub collect-IsSorted : (xs : List K) → IsSorted (collect xs)
  unfolding collect
  collect-IsSorted [] = tt
  collect-IsSorted (x ∷ xs) = insert-IsSorted x (collect xs) (collect-IsSorted xs)

  pub contains-insert :
      (x k : K) (s : List K) → contains x (insert k s) ≡ ((k == x) || contains x s)
  contains-insert x k s = any-insert (λ j. j == x) k s
