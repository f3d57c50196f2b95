-- ===== src/Base/Map.antt =====
-- `BTreeMap` and `BTreeSet`: association lists in the order of their keys.
use Prim.Native.Nat.Ordering.{lt, eq, gt}
use mathlib.Core.Path.{◌≡◌, refl}
use mathlib.Core.Bool.{Bool, true, false}
use mathlib.Core.Option.{Option, none, some}
use mathlib.Core.List.{List, [], ◌∷◌}
use native.Mathlib.Omega.{arith}
use yeu_xharness.Base.Tests.{if◌then◌else◌}
use yeu_xharness.Base.Order.{Ord, ◌==◌}

abbrev pub Map : Type 0 → Type 0 → Type 0
Map K V = List (K × V)

abbrev pub is_some : {A : Type 0} → Option A → Bool
is_some none = false
is_some (some a) = true

module _ {K V : Type 0} ⦃o : Ord K⦄ where
  unfoldable pub get : K → Map K V → Option V
  get k [] = none
  get k ((j, v) ∷ m) = if k == j then some v else get k m

  -- `insert`: the entry of the key is replaced, or a new one put at its place in the order.
  unfoldable pub insert : K → V → Map K V → Map K V
  insert k v [] = (k, v) ∷ []
  insert k v ((j, w) ∷ m) = elim (o.cmp k j) [
    | lt ↦ (k, v) ∷ (j, w) ∷ m
    | eq ↦ (k, v) ∷ m
    | gt ↦ (j, w) ∷ insert k v m
  ]

  abbrev pub contains_key : K → Map K V → Bool
  contains_key k m = is_some (get k m)

  pub get-nil : (k : K) → get k [] ≡ none
  unfolding get
  get-nil k = refl

  pub get-insert :
      (j k : K) (v : V) (m : Map K V) → get j (insert k v m) ≡ (if j == k then some v else get j m)
  unfolding get insert
  get-insert j k v [] = refl
  get-insert j k v ((i, w) ∷ m) = ground (
    arith,
    get-insert j k v m,
    o.same_of_cmp k i,
    o.same_of_cmp j k,
    o.same_of_cmp j i,
    o.cmp_same j,
  )
