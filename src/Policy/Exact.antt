-- ===== src/Policy/Exact.antt =====
-- What an intersection of exact scopes allows.
use yeu_xharness.Base.{
  ◌&&◌, ◌||◌, ◌≡◌, refl, ◌∙◌, inl, inr, List, [], ◌∷◌, Str, str_ord, ◌==◌, ==_iff, arith, any-or,
  filter, Bool-cases, if◌then◌else◌,
}
use yeu_xharness.Base.Set.{contains, collect, any-collect}
use yeu_xharness.Policy.Scopes.{star, intersect_exact_scopes, exact_scope_allows}

contains-filter :
    (x : Str) (xs ys : List Str)
    → contains x (filter (λ y. contains y ys) xs) ≡ (contains x xs && contains x ys)
contains-filter x [] ys = refl
contains-filter x (y ∷ xs) ys = elim (Bool-cases (y == x)) [
  | inl hit ↦ ground (arith, contains-filter x xs ys, (==_iff y x).0 hit, hit)
  | inr miss ↦ ground (arith, contains-filter x xs ys, miss)
]

-- A list allows a request when it holds `*` or the request itself.
pub exact_scope_allows_lem :
    (xs : List Str) (x : Str) → exact_scope_allows xs x ≡ (contains star xs || contains x xs)
unfolding exact_scope_allows
exact_scope_allows_lem xs x = any-or (λ g. g == star) (λ g. g == x) xs

allows-choose :
    (l r : List Str) (x : Str)
    → exact_scope_allows
        (if contains star l then r else if contains star r then l else filter (λ y. contains y r) l)
        x
      ≡ (exact_scope_allows l x && exact_scope_allows r x)
allows-choose l r x = ground (
  arith,
  exact_scope_allows_lem l x,
  exact_scope_allows_lem r x,
  exact_scope_allows_lem (filter (λ y. contains y r) l) x,
  contains-filter star l r,
  contains-filter x l r,
)

exact_scope_allows-collect :
    (xs : List Str) (x : Str) → exact_scope_allows (collect xs) x ≡ exact_scope_allows xs x
unfolding exact_scope_allows
exact_scope_allows-collect xs x = any-collect (λ g. g == star || g == x) xs

-- The intersection of two lists of exact scopes allows a request exactly when both lists allow it,
-- wildcards included.
pub exact_scope_allows-intersect :
    (left right : List Str) (x : Str)
    → exact_scope_allows (intersect_exact_scopes left right) x
      ≡ (exact_scope_allows left x && exact_scope_allows right x)
unfolding intersect_exact_scopes
exact_scope_allows-intersect left right x =
    allows-choose (collect left) (collect right) x
    ∙ cc (exact_scope_allows-collect left x, exact_scope_allows-collect right x)
