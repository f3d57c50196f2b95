-- ===== src/Ledger/Numbered.antt =====
-- Lists whose keys count up by one, under the `ORDER BY` of the queries.
use yeu_xharness.Base.{
  ℕ, zero, suc, ◌+◌, ◌≤◌, ◌≡◌, refl, subst, ap, List, [], ◌∷◌, ◌++◌, arith, length, nat_ord,
}
use yeu_xharness.Ledger.Read.{place, take}

-- The items past the first ones.
abbrev pub drop : {A : Type 0} → ℕ → List A → List A
drop zero xs = xs
drop (suc n) [] = []
drop (suc n) (x ∷ xs) = drop n xs

module _ {A : Type 0} (key : A → ℕ) where
  -- The keys are `first`, `first + 1` and so on.
  abbrev pub IsNumbered : (first : ℕ) → List A → Type 0
  IsNumbered first [] = Unit
  IsNumbered first (x ∷ xs) = (key x ≡ first) × IsNumbered (first + 1) xs

  pub IsNumbered-snoc :
      (first : ℕ) (xs : List A) (x : A)
      → IsNumbered first xs
      → key x ≡ first + length xs
      → IsNumbered first (xs ++ (x ∷ []))
  IsNumbered-snoc first [] x n e = (omega arith, tt)
  IsNumbered-snoc first (y ∷ ys) x (here, n) e =
      (here, IsNumbered-snoc (first + 1) ys x n (omega arith))

  pub IsNumbered-drop :
      (count first : ℕ) (xs : List A)
      → IsNumbered first xs
      → IsNumbered (first + count) (drop count xs)
  IsNumbered-drop zero first xs n =
      let same : first ≡ first + 0 = omega arith in subst (λ k. IsNumbered k xs) same n
  IsNumbered-drop (suc count) first [] n = tt
  IsNumbered-drop (suc count) first (x ∷ xs) (here, n) =
      let same : first + 1 + count ≡ first + suc count = omega arith in
      subst (λ k. IsNumbered k (drop count xs)) same (IsNumbered-drop count (first + 1) xs n)

  pub IsNumbered-take :
      (count first : ℕ) (xs : List A) → IsNumbered first xs → IsNumbered first (take count xs)
  unfolding take
  IsNumbered-take count first [] n = tt
  IsNumbered-take zero first (x ∷ xs) n = tt
  IsNumbered-take (suc count) first (x ∷ xs) (here, n) =
      (here, IsNumbered-take count (first + 1) xs n)

  -- An item with a larger key goes to the end.
  pub place-last :
      (first : ℕ) (xs : List A) (x : A)
      → IsNumbered first xs
      → first + length xs ≤ key x
      → place key x xs ≡ xs ++ (x ∷ [])
  unfolding place
  place-last first [] x n below = refl
  place-last first (y ∷ ys) x (here, n) below =
      let rest = place-last (first + 1) ys x n (omega arith) in ground arith

pub length-drop-le :
    {A : Type 0} (count : ℕ) (xs : List A)
    → count ≤ length xs
    → count + length (drop count xs) ≡ length xs
length-drop-le zero xs h = omega arith
length-drop-le (suc count) [] h = omega arith
length-drop-le (suc count) (x ∷ xs) h =
    let rest = length-drop-le count xs (omega arith) in omega arith

pub drop-all : {A : Type 0} (count : ℕ) (xs : List A) → length xs ≤ count → drop count xs ≡ []
drop-all zero [] h = refl
drop-all zero (x ∷ xs) h = absurd (omega arith)
drop-all (suc count) [] h = refl
drop-all (suc count) (x ∷ xs) h = drop-all count xs (omega arith)

pub drop-snoc :
    {A : Type 0} (count : ℕ) (xs : List A) (x : A)
    → count ≤ length xs
    → drop count (xs ++ (x ∷ [])) ≡ drop count xs ++ (x ∷ [])
drop-snoc zero xs x h = refl
drop-snoc (suc count) [] x h = absurd (omega arith)
drop-snoc (suc count) (y ∷ ys) x h = drop-snoc count ys x (omega arith)

pub length-snoc : {A : Type 0} (xs : List A) (x : A) → length (xs ++ (x ∷ [])) ≡ length xs + 1
length-snoc [] x = refl
length-snoc (y ∷ ys) x = omega (arith, length-snoc ys x)

pub drop-short : {A : Type 0} (count : ℕ) (xs : List A) → length (drop count xs) ≤ length xs
drop-short zero xs = omega arith
drop-short (suc count) [] = omega arith
drop-short (suc count) (x ∷ xs) = let rest = drop-short count xs in omega arith

pub take-short : {A : Type 0} (count : ℕ) (xs : List A) → length (take count xs) ≤ length xs
unfolding take
take-short count [] = omega arith
take-short zero (x ∷ xs) = omega arith
take-short (suc count) (x ∷ xs) = let rest = take-short count xs in omega arith

pub take-drop : {A : Type 0} (count : ℕ) (xs : List A) → take count xs ++ drop count xs ≡ xs
unfolding take
take-drop zero [] = refl
take-drop zero (x ∷ xs) = refl
take-drop (suc count) [] = refl
take-drop (suc count) (x ∷ xs) = ap (λ ys. x ∷ ys) (take-drop count xs)

pub take-nothing : {A : Type 0} (xs : List A) → take 0 xs ≡ []
unfolding take
take-nothing [] = refl
take-nothing (x ∷ xs) = refl
