-- ===== src/Base/Text.antt =====
-- Rust's `str` as its UTF-8 bytes, with the byte order of its `Ord`.
use Prim.Native.Nat.{ℕ, compare, Ordering}
use Prim.Native.Nat.Ordering.{lt, eq, gt}
use Prim.Native.Char.{code}
use Prim.Native.String.{String}
use mathlib.Core.Path.{◌≡◌, refl}
use mathlib.Core.List.{List, [], ◌∷◌}
use native.Mathlib.Omega.{arith}
use yeu_xharness.Base.Order.{Ord}

abbrev pub Str : Type 0
Str = List ℕ

-- The bytes of an ASCII literal.
abbrev pub bytes : String → Str
bytes String.[] = []
bytes (String.◌∷◌ c s) = code c ∷ bytes s

pub compare_str : Str → Str → Ordering
compare_str [] [] = eq
compare_str [] (y ∷ ys) = lt
compare_str (x ∷ xs) [] = gt
compare_str (x ∷ xs) (y ∷ ys) = elim (compare x y) [ lt ↦ lt | eq ↦ compare_str xs ys | gt ↦ gt ]

compare_str_refl : (a : Str) → compare_str a a ≡ eq
unfolding compare_str
compare_str_refl [] = refl
compare_str_refl (x ∷ a) = ground (arith, compare_str_refl a)

eq_of_compare_str : (a b : Str) → compare_str a b ≡ eq → a ≡ b
unfolding compare_str
eq_of_compare_str [] [] h = refl
eq_of_compare_str [] (y ∷ b) h = ground arith
eq_of_compare_str (x ∷ a) [] h = ground arith
eq_of_compare_str (x ∷ a) (y ∷ b) h = ground (arith, eq_of_compare_str a b)

lt_of_compare_str : (a b : Str) → compare_str a b ≡ gt → compare_str b a ≡ lt
unfolding compare_str
lt_of_compare_str [] [] h = ground arith
lt_of_compare_str [] (y ∷ b) h = ground arith
lt_of_compare_str (x ∷ a) [] h = refl
lt_of_compare_str (x ∷ a) (y ∷ b) h = ground (arith, lt_of_compare_str a b)

compare_str_trans :
    (a b c : Str) → compare_str a b ≡ lt → compare_str b c ≡ lt → compare_str a c ≡ lt
unfolding compare_str
compare_str_trans [] [] c h k = ground arith
compare_str_trans [] (y ∷ b) [] h k = ground arith
compare_str_trans [] (y ∷ b) (z ∷ c) h k = refl
compare_str_trans (x ∷ a) [] c h k = ground arith
compare_str_trans (x ∷ a) (y ∷ b) [] h k = ground arith
compare_str_trans (x ∷ a) (y ∷ b) (z ∷ c) h k = ground (arith, compare_str_trans a b c)

instance unfoldable pub str_ord : Ord Str
unfolding compare_str compare_str_refl eq_of_compare_str lt_of_compare_str compare_str_trans
str_ord = record {
  cmp = compare_str;
  cmp_same = compare_str_refl;
  same_of_cmp = eq_of_compare_str;
  cmp_flip = lt_of_compare_str;
  cmp_chain = compare_str_trans;
}
