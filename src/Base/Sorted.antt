-- ===== src/Base/Sorted.antt =====
-- Maps in the strict order of their keys: insertion keeps the order, and such a map is known by its
-- lookups.
use Prim.Native.Nat.Ordering.{lt, gt}
use mathlib.Core.Path.{◌≡◌, refl, sym, ◌∙◌}
use mathlib.Core.Logic.{inl, inr}
use mathlib.Core.Option.{none, some}
use mathlib.Core.List.{[], ◌∷◌}
use native.Mathlib.Omega.{arith}
use yeu_xharness.Base.Order.{Ord, Ordering-cases}
use yeu_xharness.Base.Map.{Map, get, insert, get-nil}

module _ {K V : Type 0} ⦃o : Ord K⦄ where
  -- Every key of the map is above the given one.
  abbrev pub AllAbove : K → Map K V → Type 0
  AllAbove k [] = Unit
  AllAbove k ((j, v) ∷ m) = (o.cmp k j ≡ lt) × AllAbove k m

  abbrev pub IsSorted : Map K V → Type 0
  IsSorted [] = Unit
  IsSorted ((k, v) ∷ m) = AllAbove k m × IsSorted m

  pub AllAbove-trans : (j k : K) (m : Map K V) → o.cmp j k ≡ lt → AllAbove k m → AllAbove j m
  AllAbove-trans j k [] h a = tt
  AllAbove-trans j k ((i, v) ∷ m) h a = (o.cmp_chain j k i h a.0, AllAbove-trans j k m h a.1)

  AllAbove-insert :
      (j k : K) (v : V) (m : Map K V) → o.cmp j k ≡ lt → AllAbove j m → AllAbove j (insert k v m)
  unfolding insert
  AllAbove-insert j k v [] h a = (h, tt)
  AllAbove-insert j k v ((i, w) ∷ m) h a = elim (Ordering-cases (o.cmp k i)) [
    | inl below ↦ rw (below, insert) (h, a)
    | inr (inl equal) ↦ rw (equal, insert) (h, a.1)
    | inr (inr above) ↦ rw (above, insert) (a.0, AllAbove-insert j k v m h a.1)
  ]

  pub insert-IsSorted : (k : K) (v : V) (m : Map K V) → IsSorted m → IsSorted (insert k v m)
  unfolding insert
  insert-IsSorted k v [] s = (tt, tt)
  insert-IsSorted k v ((i, w) ∷ m) s = elim (Ordering-cases (o.cmp k i)) [
    | inl below ↦ rw (below, insert) ((below, AllAbove-trans k i m below s.0), s)
    | inr (inl equal) ↦ rw (equal, insert) (rw (o.same_of_cmp k i equal) s)
    | inr (inr above) ↦
        rw (above, insert)
          (AllAbove-insert i k v m (o.cmp_flip k i above) s.0, insert-IsSorted k v m s.1)
  ]

  pub get-AllAbove : (k : K) (m : Map K V) → AllAbove k m → get k m ≡ none
  unfolding get
  get-AllAbove k [] a = refl
  get-AllAbove k ((j, v) ∷ m) a = ground (arith, get-AllAbove k m a.1, a.0)

  get-head : (k : K) (v : V) (m : Map K V) → get k ((k, v) ∷ m) ≡ some v
  unfolding get
  get-head k v m = ground (arith, o.cmp_same k)

  get-tail : (j k : K) (v : V) (m : Map K V) → o.cmp j k ≡ lt → get j ((k, v) ∷ m) ≡ get j m
  unfolding get
  get-tail j k v m h = ground arith

  get-tail_gt : (j k : K) (v : V) (m : Map K V) → o.cmp j k ≡ gt → get j ((k, v) ∷ m) ≡ get j m
  unfolding get
  get-tail_gt j k v m h = ground arith

  get-below :
      (j k : K) (v : V) (m : Map K V) → o.cmp j k ≡ lt → AllAbove k m → get j ((k, v) ∷ m) ≡ none
  get-below j k v m h a = get-tail j k v m h ∙ get-AllAbove j m (AllAbove-trans j k m h a)

  -- Below the first key nothing is found, and so in the tail.
  get-below_tail : (i j : K) (m : Map K V) → o.cmp i j ≡ lt → AllAbove j m → get i m ≡ none
  get-below_tail i j m h a = get-AllAbove i m (AllAbove-trans i j m h a)

  tail_lookups :
      (j k : K) (v w : V) (m n : Map K V)
      → j ≡ k
      → AllAbove j m
      → AllAbove k n
      → ((i : K) → get i ((j, v) ∷ m) ≡ get i ((k, w) ∷ n))
      → (i : K) → get i m ≡ get i n
  tail_lookups j k v w m n e a b h i = elim (Ordering-cases (o.cmp i j)) [
    | inl below ↦ get-below_tail i j m below a ∙ sym (get-below_tail i k n (rw e at below) b)
    | inr (inl equal) ↦
        rw (o.same_of_cmp i j equal) (get-AllAbove j m a ∙ sym (rw e (get-AllAbove k n b)))
    | inr (inr above) ↦ sym (get-tail_gt i j v m above) ∙ h i ∙ get-tail_gt i k w n (rw e at above)
  ]

  -- Two maps in order that answer every lookup alike are equal.
  pub Map_ext : (m n : Map K V) → IsSorted m → IsSorted n → ((k : K) → get k m ≡ get k n) → m ≡ n
  Map_ext [] [] s t h = refl
  Map_ext [] ((k, w) ∷ n) s t h = absurd (cc (get-nil k, h k, get-head k w n))
  Map_ext ((j, v) ∷ m) [] s t h = absurd (cc (get-nil j, h j, get-head j v m))
  Map_ext ((j, v) ∷ m) ((k, w) ∷ n) s t h = elim (Ordering-cases (o.cmp j k)) [
    | inl below ↦ absurd (cc (h j, get-head j v m, get-below j k w n below t.0))
    | inr (inl equal) ↦
        let e = o.same_of_cmp j k equal in
        let same_tail = Map_ext m n s.1 t.1 (tail_lookups j k v w m n e s.0 t.0 h) in
        cc (h j, get-head j v m, get-head k w n, e, same_tail)
    | inr (inr above) ↦
        absurd (cc (h k, get-head k w n, get-below k j v m (o.cmp_flip j k above) s.0))
  ]
