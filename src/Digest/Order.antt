-- ===== src/Digest/Order.antt =====
-- The order of an object's entries does not matter.
use yeu_xharness.Base.{
  ◌≡◌, refl, sym, ◌∙◌, ap, [], ◌∷◌, ◌++◌, Str, str_ord, some, ◌==◌, if◌then◌else◌,
}
use yeu_xharness.Base.Map.{Map, get, get-insert}
use yeu_xharness.Base.Sorted.{IsSorted, insert-IsSorted, Map_ext}
use yeu_xharness.Protocol.Json.{Fields, object}
use yeu_xharness.Digest.Canonical.{
  Codec, commas, by_key, entries, canonical_json, field_texts, digest_value,
}

by_key-IsSorted : (m : Map Str Str) → IsSorted (by_key m)
unfolding by_key
by_key-IsSorted [] = tt
by_key-IsSorted ((k, t) ∷ m) = insert-IsSorted k t (by_key m) (by_key-IsSorted m)

get-by_key : (k : Str) (m : Map Str Str) → get k (by_key m) ≡ get k m
unfolding by_key get
get-by_key k [] = refl
get-by_key k ((j, t) ∷ m) =
    get-insert k j t (by_key m) ∙ ap (λ r. if k == j then some t else r) (get-by_key k m)

by_key-same : (m n : Map Str Str) → ((k : Str) → get k m ≡ get k n) → by_key m ≡ by_key n
by_key-same m n h =
    Map_ext (by_key m) (by_key n) (by_key-IsSorted m) (by_key-IsSorted n)
      λ k. get-by_key k m ∙ h k ∙ sym (get-by_key k n)

-- Two objects whose entries have the same canonical text under every key have the same canonical
-- text and the same digest, in whatever order the entries stand.
pub canonical_json-object :
    (codec : Codec) (fs gs : Fields)
    → ((k : Str) → get k (field_texts codec fs) ≡ get k (field_texts codec gs))
    → (canonical_json codec (object fs) ≡ canonical_json codec (object gs))
      × (digest_value codec (object fs) ≡ digest_value codec (object gs))
unfolding canonical_json digest_value
canonical_json-object codec fs gs h =
    let sorted = by_key-same (field_texts codec fs) (field_texts codec gs) h in
    let text = ap (λ m. b'{' ∷ (commas (entries codec m) ++ (b'}' ∷ []))) sorted in
    (text, ap codec.sha256_hex text)
