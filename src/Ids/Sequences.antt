-- ===== src/Ids/Sequences.antt =====
-- What a factory over a sequence gives.
use yeu_xharness.Base.{
  Bool, ◌≡◌, refl, inl, inr, Option-cases, subst, List, [], ◌∷◌, none, arith, length, Bool-cases,
}
use yeu_xharness.Base.Results.{ok, ok-injective}
use yeu_xharness.Protocol.Ids.{Uuid}
use yeu_xharness.Ids.Factory.{SequenceIdGenerator, find_other, new_generator, next_all}

module _ (is_version_seven : Uuid → Bool) where
  next_all-values :
      (values : List Uuid)
      → find_other is_version_seven values ≡ none
      → next_all is_version_seven (record { values = values }) (length values) ≡ ok values
  unfolding find_other next_all
  next_all-values [] h = refl
  next_all-values (v ∷ values) h = elim (Bool-cases (is_version_seven v)) [
    | inl seven ↦ rw (seven, next_all-values values (rw seven at h)) refl
    | inr other ↦ absurd (ground arith)
  ]

  -- If a generator is made of a sequence of UUIDs, the factory gives just these, in their order.
  pub new_generator-next_all :
      (values : List Uuid) (g : SequenceIdGenerator)
      → new_generator is_version_seven values ≡ ok g
      → next_all is_version_seven g (length values) ≡ ok values
  unfolding new_generator
  new_generator-next_all values g h = elim (Option-cases (find_other is_version_seven values)) [
    | inl none_other ↦
        let made : record { values = values } ≡ g = ok-injective _ _ (rw none_other at h) in
        subst (λ k. next_all is_version_seven k (length values) ≡ ok values) made
          (next_all-values values none_other)
    | inr (v, found) ↦ absurd (ground arith)
  ]
