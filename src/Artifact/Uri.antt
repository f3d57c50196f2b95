-- ===== src/Artifact/Uri.antt =====
-- Digests, their URIs and their paths. What the url crate parses is a parameter.
use yeu_xharness.Base.{
  ℕ, Bool, false, ◌&&◌, ◌||◌, not, [], ◌∷◌, ◌++◌, Option, none, some, Str, str_ord, bytes, nat_ord,
  ◌==◌, all, length, leb, is_empty, if◌then◌else◌,
}
use yeu_xharness.Base.Map.{is_some}
use yeu_xharness.Base.Results.{Result, ok, ◌>>=◌, ◌>>◌, require, ok_or}

-- The messages of `ArtifactError::InvalidUri`.
pub data UriFault : Type 0 where
  too_long wrong_prefix not_url not_canonical not_one_segment not_hexadecimal : UriFault

pub data ArtifactError : Type 0 where
  invalid_digest : Str → ArtifactError
  invalid_uri : UriFault → ArtifactError

-- What is asked of a parsed URL.
pub record Url : Type 0 where
  pub scheme : Str
  pub host : Option Str
  pub username : Str
  pub password : Option Str
  pub port : Option ℕ
  pub query : Option Str
  pub fragment : Option Str
  pub path : Str

abbrev pub artifact_uri_prefix : Str
artifact_uri_prefix = bytes "artifact://blake3/"

abbrev pub max_artifact_uri_bytes : ℕ
max_artifact_uri_bytes = 82

-- `is_ascii_digit` or one of `a` to `f`
abbrev pub is_hexadecimal : ℕ → Bool
is_hexadecimal b = (leb 48 b && leb b 57) || (leb 97 b && leb b 102)

abbrev pub is_digest : Str → Bool
is_digest digest = length digest == 64 && all is_hexadecimal digest

unfoldable pub validate_digest : Str → Result ArtifactError (Unit {0})
validate_digest digest = require (is_digest digest) (invalid_digest digest)

unfoldable pub uri_for_digest : Str → Result ArtifactError Str
unfolding validate_digest
uri_for_digest digest = do validate_digest digest; ok (artifact_uri_prefix ++ digest)

-- The text behind the prefix, if it starts with it.
unfoldable pub after_prefix : Str → Str → Option Str
after_prefix [] text = some text
after_prefix (c ∷ prefix) [] = none
after_prefix (c ∷ prefix) (d ∷ text) = if c == d then after_prefix prefix text else none

abbrev is_text : Str → Option Str → Bool
is_text text none = false
is_text text (some s) = s == text

-- The second check of the authority.
unfoldable pub is_canonical : Url → Bool
is_canonical u =
    u.scheme == bytes "artifact"
    && (is_text (bytes "blake3") u.host
        && (is_empty u.username
            && (not (is_some u.password)
                && (not (is_some u.port) && (not (is_some u.query) && not (is_some u.fragment))))))

module _ (parse_url : Str → Option Url) where
  unfoldable pub digest_from_uri : Str → Result ArtifactError Str
  unfolding is_canonical after_prefix
  digest_from_uri uri = do
    require (leb (length uri) max_artifact_uri_bytes) (invalid_uri too_long)
    digest ← ok_or (after_prefix artifact_uri_prefix uri) (invalid_uri wrong_prefix)
    parsed ← ok_or (parse_url uri) (invalid_uri not_url)
    require (is_canonical parsed) (invalid_uri not_canonical)
    require (parsed.path == bytes "/" ++ digest) (invalid_uri not_one_segment)
    require (is_digest digest) (invalid_uri not_hexadecimal)
    ok digest
