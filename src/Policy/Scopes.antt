-- ===== src/Policy/Scopes.antt =====
-- The scope lists of a grant: exact scopes, path scopes, and their intersections. A path is read as
-- `std::path::Path::components` documents it on Unix: repeated separators and inner `.` vanish, a
-- leading `.` and every `..` stay.
use yeu_xharness.Base.{
  Bool, true, false, ◌&&◌, ◌||◌, List, [], ◌∷◌, ◌++◌, Str, bytes, str_ord, nat_ord, ◌==◌, ℕ,
  ℕ_discrete, any, filter, flat_map, same, if◌then◌else◌,
}
use yeu_xharness.Base.Set.{insert, contains, collect}

abbrev pub star : Str
star = bytes "*"

unfoldable pub intersect_exact_scopes : List Str → List Str → List Str
unfolding str_ord
intersect_exact_scopes left right =
    let l = collect left in
    let r = collect right in
    if contains star l then r else if contains star r then l else filter (λ x. contains x r) l

pub data Component : Type 0 where
  root_dir cur_dir parent_dir : Component
  normal : Str → Component

unfoldable pub Component-discrete : Discrete Component
unfolding ℕ_discrete
Component-discrete = hlevel ℕ_discrete

abbrev pub prepend : ℕ → List Str → List Str
prepend c [] = (c ∷ []) ∷ []
prepend c (s ∷ ss) = (c ∷ s) ∷ ss

-- The text between the separators.
unfoldable pub segments : Str → List Str
segments [] = [] ∷ []
segments (c ∷ s) = let rest = segments s in if c == b'/' then [] ∷ rest else prepend c rest

unfoldable pub segment : Str → List Component
unfolding str_ord
segment s =
    if s == bytes "" || s == bytes "."
    then []
    else if s == bytes ".."
    then parent_dir ∷ []
    else normal s ∷ []

-- The first segment: nothing stands in front of a leading separator.
unfoldable pub first_segment : Str → List Component
unfolding str_ord segment
first_segment s = if s == bytes "." then cur_dir ∷ [] else segment s

unfoldable pub components : Str → List Component
unfolding segments first_segment segment
components [] = []
components (c ∷ s) =
    if c == b'/'
    then root_dir ∷ flat_map segment (segments s)
    else elim (segments (c ∷ s)) [ [] ↦ [] | s ∷ ss ↦ first_segment s ++ flat_map segment ss ]

-- `Path::starts_with` on the components.
unfoldable pub component_prefix : List Component → List Component → Bool
unfolding Component-discrete
component_prefix [] ys = true
component_prefix (x ∷ xs) [] = false
component_prefix (x ∷ xs) (y ∷ ys) = same Component-discrete x y && component_prefix xs ys

unfoldable pub path_contains : Str → Str → Bool
unfolding str_ord components component_prefix
path_contains parent child =
    parent == star || component_prefix (components parent) (components child)

unfoldable pub add_pair : Str → Str → List Str → List Str
unfolding path_contains str_ord
add_pair left_scope right_scope intersection =
    if path_contains left_scope right_scope
    then insert right_scope intersection
    else if path_contains right_scope left_scope
    then insert left_scope intersection
    else intersection

-- The inner and the outer loop.
unfoldable pub add_scope : Str → List Str → List Str → List Str
unfolding add_pair
add_scope left_scope [] intersection = intersection
add_scope left_scope (r ∷ right) intersection =
    add_scope left_scope right (add_pair left_scope r intersection)

unfoldable pub add_scopes : List Str → List Str → List Str → List Str
unfolding add_scope
add_scopes [] right intersection = intersection
add_scopes (l ∷ left) right intersection = add_scopes left right (add_scope l right intersection)

unfoldable pub intersect_path_scopes : List Str → List Str → List Str
unfolding add_scopes
intersect_path_scopes left right = add_scopes left right []

unfoldable pub exact_scope_allows : List Str → Str → Bool
unfolding str_ord
exact_scope_allows grants requested = any (λ grant. grant == star || grant == requested) grants

unfoldable pub path_scope_allows : List Str → Str → Bool
unfolding path_contains
path_scope_allows grants requested = any (λ grant. path_contains grant requested) grants
