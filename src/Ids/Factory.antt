-- ===== src/Ids/Factory.antt =====
-- `SequenceIdGenerator` and `IdFactory`. The factory's methods, one for each type of id, all give what
-- `next` gives. Whether a UUID has version 7 is uuid's `get_version`, a parameter.
use yeu_xharness.Base.{ℕ, zero, suc, Bool, List, [], ◌∷◌, Option, none, some, if◌then◌else◌}
use yeu_xharness.Base.Results.{Result, ok, err, ◌>>=◌, ◌>>◌, require}
use yeu_xharness.Protocol.Ids.{Uuid}

pub data IdError : Type 0 where
  exhausted : IdError
  not_version_seven : Uuid → IdError

pub record SequenceIdGenerator : Type 0 where
  pub values : List Uuid

-- `SequenceIdGenerator::next_uuid`, a `pop_front`.
unfoldable pub next_uuid : SequenceIdGenerator → SequenceIdGenerator × Result IdError Uuid
next_uuid g = elim g.values [
  | [] ↦ (g, err exhausted)
  | v ∷ values ↦ (record { values = values }, ok v)
]

module _ (is_version_seven : Uuid → Bool) where
  -- The first value of another version.
  unfoldable pub find_other : List Uuid → Option Uuid
  find_other [] = none
  find_other (v ∷ values) = if is_version_seven v then find_other values else some v

  abbrev generator_of : List Uuid → Option Uuid → Result IdError SequenceIdGenerator
  generator_of values none = ok (record { values = values })
  generator_of values (some v) = err (not_version_seven v)

  -- `SequenceIdGenerator::new`
  unfoldable pub new_generator : List Uuid → Result IdError SequenceIdGenerator
  unfolding find_other
  new_generator values = generator_of values (find_other values)

  -- The test of `IdFactory::next` on what its generator gave.
  abbrev pub check_version : Result IdError Uuid → Result IdError Uuid
  check_version given = do v ← given; require (is_version_seven v) (not_version_seven v); ok v

  -- `IdFactory::next` over a sequence.
  unfoldable pub next : SequenceIdGenerator → SequenceIdGenerator × Result IdError Uuid
  unfolding next_uuid
  next g = let (later, given) = next_uuid g in (later, check_version given)

  -- So many ids, one after the other, up to the first error.
  unfoldable pub next_all : SequenceIdGenerator → ℕ → Result IdError (List Uuid)
  unfolding next
  next_all g zero = ok []
  next_all g (suc n) = do
    let (later, given) = next g
    let rest = next_all later n
    v ← given
    values ← rest
    ok (v ∷ values)
