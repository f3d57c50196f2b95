-- ===== src/Digest/Canonical.antt =====
-- `canonical_json`, `digest_value` and `digest_serializable`.
use yeu_xharness.Base.{true, false, List, [], ◌∷◌, ◌++◌, Str, bytes, str_ord}
use yeu_xharness.Base.Map.{Map, insert}
use yeu_xharness.Base.Results.{Result, ok, err}
use yeu_xharness.Protocol.Json.{
  Number, Value, Values, Fields, null, bool, number, string, array, object, nil, cons, end, field,
}

-- What serde_json, sha2 and hex provide.
pub record Codec : Type 0 where
  pub number_text : Number → Str
  pub string_text : Str → Str
  pub sha256_hex : Str → Str

-- The members with a comma between them.
unfoldable pub commas : List Str → Str
commas [] = []
commas (s ∷ []) = s
commas (s ∷ t ∷ rest) = s ++ (b',' ∷ commas (t ∷ rest))

-- The keys in order, each with its member's text.
unfoldable pub by_key : Map Str Str → Map Str Str
unfolding insert str_ord
by_key [] = []
by_key ((k, text) ∷ rest) = insert k text (by_key rest)

module _ (codec : Codec) where
  unfoldable pub entries : Map Str Str → List Str
  entries [] = []
  entries ((k, text) ∷ rest) = (codec.string_text k ++ (b':' ∷ text)) ∷ entries rest

  unfoldable mutual
    unfolding commas by_key entries

    pub canonical_json : Value → Str
    canonical_json null = bytes "null"
    canonical_json (bool true) = bytes "true"
    canonical_json (bool false) = bytes "false"
    canonical_json (number n) = codec.number_text n
    canonical_json (string s) = codec.string_text s
    canonical_json (array values) = b'[' ∷ (commas (member_texts values) ++ (b']' ∷ []))
    canonical_json (object fields) =
        b'{' ∷ (commas (entries (by_key (field_texts fields))) ++ (b'}' ∷ []))

    pub member_texts : Values → List Str
    member_texts nil = []
    member_texts (cons v values) = canonical_json v ∷ member_texts values

    pub field_texts : Fields → Map Str Str
    field_texts end = []
    field_texts (field k v fields) = (k, canonical_json v) ∷ field_texts fields

  unfoldable pub digest_value : Value → Str
  unfolding canonical_json
  digest_value v = codec.sha256_hex (canonical_json v)

  -- `to_value` is the derived serialization, and its error a text.
  unfoldable pub digest_serializable : {A : Type 0} → (A → Result Str Value) → A → Result Str Str
  unfolding digest_value
  digest_serializable to_value a = elim (to_value a) [ ok v ↦ ok (digest_value v) | err e ↦ err e ]
