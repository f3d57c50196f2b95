-- ===== src/Base/Blank.antt =====
-- `trim().is_empty()`: a text of white space alone, in the sense of Unicode's White_Space, on UTF-8.
use Prim.Native.Nat.{ℕ}
use mathlib.Core.Bool.{Bool, true, false}
use mathlib.Core.List.{List, [], ◌∷◌, ◌++◌, map}
use yeu_xharness.Base.Lists.{any, is_empty}
use yeu_xharness.Base.Order.{◌==◌}
use yeu_xharness.Base.Text.{Str, str_ord}

abbrev pair : ℕ → ℕ → Str
pair a b = a ∷ b ∷ []

abbrev triple : ℕ → ℕ → ℕ → Str
triple a b c = a ∷ b ∷ c ∷ []

-- U+0009 to U+000D, U+0020, U+0085, U+00A0, U+1680, U+2000 to U+200A, U+2028, U+2029, U+202F,
-- U+205F and U+3000.
abbrev spaces : List Str
spaces =
    map (λ c. c ∷ []) (9 ∷ 10 ∷ 11 ∷ 12 ∷ 13 ∷ 32 ∷ [])
    ++ (pair 0xC2 0x85
        ∷ pair 0xC2 0xA0
        ∷ triple 0xE1 0x9A 0x80
        ∷ triple 0xE2 0x81 0x9F
        ∷ triple 0xE3 0x80 0x80
        ∷ map (λ c. triple 0xE2 0x80 c)
            (0x80 ∷ 0x81 ∷ 0x82 ∷ 0x83 ∷ 0x84 ∷ 0x85 ∷ 0x86 ∷ 0x87 ∷ 0x88 ∷ 0x89 ∷ 0x8A ∷ 0xA8
              ∷ 0xA9 ∷ 0xAF ∷ []))

-- The first bytes of the longer ones.
abbrev proper_starts : List Str
proper_starts =
    (0xC2 ∷ [])
    ∷ (0xE1 ∷ [])
    ∷ (0xE2 ∷ [])
    ∷ (0xE3 ∷ [])
    ∷ pair 0xE1 0x9A
    ∷ pair 0xE2 0x80
    ∷ pair 0xE2 0x81
    ∷ pair 0xE3 0x80
    ∷ []

-- `seen` holds the bytes of a space that is not complete.
unfoldable pub blank_after : Str → Str → Bool
unfolding str_ord
blank_after seen [] = is_empty seen
blank_after seen (c ∷ s) = elim (any (λ w. w == seen ++ (c ∷ [])) spaces) [
  | true ↦ blank_after [] s
  | false ↦ elim (any (λ w. w == seen ++ (c ∷ [])) proper_starts) [
    | true ↦ blank_after (seen ++ (c ∷ [])) s
    | false ↦ false
  ]
]

unfoldable pub is_blank : Str → Bool
unfolding blank_after
is_blank s = blank_after [] s
