-- ===== src/Policy/Paths.antt =====
-- What an intersection of path scopes allows.
use yeu_xharness.Base.{
  Bool, true, false, ◌&&◌, ◌||◌, not, ◌≡◌, refl, ◌∙◌, ◌⊎◌, inl, inr, List, [], ◌∷◌, Str, str_ord,
  ◌==◌, ==_iff, arith, all, Bool-cases, and_parts,
}
use yeu_xharness.Base.Set.{any-insert, all-insert}
use yeu_xharness.Policy.Scopes.{
  star, Component, components, component_prefix, path_contains, add_pair, add_scope, add_scopes,
  intersect_path_scopes, path_scope_allows,
}

prefix_trans :
    (xs ys zs : List Component)
    → component_prefix xs ys ≡ true
    → component_prefix ys zs ≡ true
    → component_prefix xs zs ≡ true
unfolding component_prefix
prefix_trans [] ys zs h k = refl
prefix_trans (x ∷ xs) [] zs h k = ground arith
prefix_trans (x ∷ xs) (y ∷ ys) [] h k = ground arith
prefix_trans (x ∷ xs) (y ∷ ys) (z ∷ zs) h k = ground (arith, prefix_trans xs ys zs)

-- Two prefixes of one list are comparable.
prefix_linear :
    (xs ys zs : List Component)
    → component_prefix xs zs ≡ true
    → component_prefix ys zs ≡ true
    → (component_prefix xs ys ≡ true) ⊎ (component_prefix ys xs ≡ true)
unfolding component_prefix
prefix_linear [] ys zs h k = inl refl
prefix_linear (x ∷ xs) [] zs h k = inr refl
prefix_linear (x ∷ xs) (y ∷ ys) [] h k = ground arith
prefix_linear (x ∷ xs) (y ∷ ys) (z ∷ zs) h k = ground (arith, prefix_linear xs ys zs)

-- No alias of the wildcard: a scope that is not `*`, but reads as the one component `*` (as `*/`
-- does), is none. The intersection does not tell such a scope from the wildcard.
abbrev pub is_plain : Str → Bool
is_plain s =
    s == star
    || not (component_prefix (components s) (components star))
    || component_prefix (components s) []

-- A scope inside another allows no more.
contains_trans :
    (l r p : Str)
    → (r == star) ≡ false
    → path_contains l r ≡ true
    → path_contains r p ≡ true
    → path_contains l p ≡ true
unfolding path_contains
contains_trans l r p proper h k =
    ground (arith, prefix_trans (components l) (components r) (components p))

contains_star :
    (l p : Str) → is_plain l ≡ true → path_contains l star ≡ true → path_contains l p ≡ true
unfolding path_contains component_prefix
contains_star l p plain h = ground (arith, prefix_trans (components l) [] (components p))

contains_mono :
    (l r p : Str)
    → is_plain l ≡ true
    → path_contains l r ≡ true
    → path_contains r p ≡ true
    → path_contains l p ≡ true
contains_mono l r p plain h k = elim (Bool-cases (r == star)) [
  | inl any_path ↦ contains_star l p plain (rw ((==_iff r star).0 any_path) at h)
  | inr proper ↦ contains_trans l r p proper h k
]

meets :
    (l r p : Str)
    → path_contains l p ≡ true
    → path_contains r p ≡ true
    → (path_contains l r ≡ true) ⊎ (path_contains r l ≡ true)
unfolding path_contains
meets l r p h k = ground (arith, prefix_linear (components l) (components r) (components p))

star_contains : (r : Str) → path_contains star r ≡ true
unfolding path_contains
star_contains r = refl

not_star : (l r : Str) → path_contains l r ≡ false → (l == star) ≡ false
not_star l r h = elim (Bool-cases (l == star)) [
  | inl any_path ↦ cc (h, star_contains r, (==_iff l star).0 any_path)
  | inr proper ↦ proper
]

-- The narrower of two scopes, and neither where they are apart.
path_scope_allows-add_pair :
    (l r : Str) (acc : List Str) (p : Str)
    → is_plain l ≡ true
    → path_scope_allows (add_pair l r acc) p
      ≡ ((path_contains l p && path_contains r p) || path_scope_allows acc p)
unfolding add_pair path_scope_allows
path_scope_allows-add_pair l r acc p plain = ground (
  arith,
  any-insert (λ g. path_contains g p) r acc,
  any-insert (λ g. path_contains g p) l acc,
  contains_mono l r p plain,
  contains_trans r l p,
  not_star l r,
  meets l r p,
)

path_scope_allows-add_scope :
    (l : Str) (right acc : List Str) (p : Str)
    → is_plain l ≡ true
    → path_scope_allows (add_scope l right acc) p
      ≡ ((path_contains l p && path_scope_allows right p) || path_scope_allows acc p)
unfolding add_scope
path_scope_allows-add_scope l [] acc p plain = unfold path_scope_allows in ground arith
path_scope_allows-add_scope l (r ∷ right) acc p plain =
    path_scope_allows-add_scope l right (add_pair l r acc) p plain
    ∙ rw (path_scope_allows-add_pair l r acc p plain) (unfold path_scope_allows in ground arith)

path_scope_allows-cons :
    (l : Str) (left : List Str) (p : Str)
    → path_scope_allows (l ∷ left) p ≡ (path_contains l p || path_scope_allows left p)
unfolding path_scope_allows
path_scope_allows-cons l left p = refl

regroup : (a b r c : Bool) → ((b && r) || ((a && r) || c)) ≡ (((a || b) && r) || c)
regroup a b r c = ground arith

path_scope_allows-add_scopes :
    (left right acc : List Str) (p : Str)
    → all is_plain left ≡ true
    → path_scope_allows (add_scopes left right acc) p
      ≡ ((path_scope_allows left p && path_scope_allows right p) || path_scope_allows acc p)
unfolding add_scopes
path_scope_allows-add_scopes [] right acc p plain = unfold path_scope_allows in refl
path_scope_allows-add_scopes (l ∷ left) right acc p plain =
    let (first, others) = and_parts _ _ plain in
    path_scope_allows-add_scopes left right (add_scope l right acc) p others
    ∙ rw (path_scope_allows-add_scope l right acc p first, path_scope_allows-cons l left p)
        (regroup (path_contains l p) (path_scope_allows left p) (path_scope_allows right p)
          (path_scope_allows acc p))

-- The intersection of two lists of path scopes allows a path exactly when both lists allow it, if
-- no scope on the left is an alias of the wildcard.
pub path_scope_allows-intersect :
    (left right : List Str) (p : Str)
    → all is_plain left ≡ true
    → path_scope_allows (intersect_path_scopes left right) p
      ≡ (path_scope_allows left p && path_scope_allows right p)
unfolding intersect_path_scopes
path_scope_allows-intersect left right p plain =
    path_scope_allows-add_scopes left right [] p plain ∙ unfold path_scope_allows in ground arith

alias_contains_star : (l : Str) → is_plain l ≡ false → path_contains l star ≡ true
unfolding path_contains
alias_contains_star l alias = ground arith

-- The intersection of an alias of the wildcard, as `*/` is one, with the wildcard allows every path.
pub alias_widens :
    (l p : Str)
    → is_plain l ≡ false
    → path_scope_allows (intersect_path_scopes (l ∷ []) (star ∷ [])) p ≡ true
unfolding intersect_path_scopes path_scope_allows
alias_widens l p alias =
    rw (alias_contains_star l alias, add_pair)
      (any-insert (λ g. path_contains g p) star [] ∙ rw (star_contains p))

-- Of two lists of plain scopes the intersection is plain.
is_plain-add_pair :
    (l r : Str) (acc : List Str)
    → is_plain l ≡ true
    → is_plain r ≡ true
    → all is_plain acc ≡ true
    → all is_plain (add_pair l r acc) ≡ true
unfolding add_pair
is_plain-add_pair l r acc hl hr h =
    ground (arith, all-insert is_plain r acc, all-insert is_plain l acc)

is_plain-add_scope :
    (l : Str) (right acc : List Str)
    → is_plain l ≡ true
    → all is_plain right ≡ true
    → all is_plain acc ≡ true
    → all is_plain (add_scope l right acc) ≡ true
unfolding add_scope
is_plain-add_scope l [] acc hl hr h = h
is_plain-add_scope l (r ∷ right) acc hl hr h =
    let (first, others) = and_parts _ _ hr in
    is_plain-add_scope l right (add_pair l r acc) hl others (is_plain-add_pair l r acc hl first h)

is_plain-add_scopes :
    (left right acc : List Str)
    → all is_plain left ≡ true
    → all is_plain right ≡ true
    → all is_plain acc ≡ true
    → all is_plain (add_scopes left right acc) ≡ true
unfolding add_scopes
is_plain-add_scopes [] right acc hl hr h = h
is_plain-add_scopes (l ∷ left) right acc hl hr h =
    let (first, others) = and_parts _ _ hl in
    is_plain-add_scopes left right (add_scope l right acc) others hr
      (is_plain-add_scope l right acc first hr h)

pub is_plain-intersect :
    (left right : List Str)
    → all is_plain left ≡ true
    → all is_plain right ≡ true
    → all is_plain (intersect_path_scopes left right) ≡ true
unfolding intersect_path_scopes
is_plain-intersect left right hl hr = is_plain-add_scopes left right [] hl hr refl
