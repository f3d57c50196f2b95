-- ===== src/Tests/Artifacts.antt =====
-- A concrete artifact URI.
use yeu_xharness.Base.{◌≡◌, refl, [], ◌++◌, none, some, Option, Str, bytes, str_ord}
use yeu_xharness.Base.Results.{ok}
use yeu_xharness.Artifact.Uri.{
  Url, artifact_uri_prefix, after_prefix, is_canonical, uri_for_digest, digest_from_uri,
}
use yeu_xharness.Artifact.Canonical.{uri_for_digest-digest_from_uri}

abbrev digest : Str
digest = bytes "0123456789abcdef0123456789abcdef0123456789abcdef0123456789abcdef"

abbrev uri : Str
uri = bytes "artifact://blake3/0123456789abcdef0123456789abcdef0123456789abcdef0123456789abcdef"

-- A parser that splits the text behind the prefix off.
abbrev url_of : Option Str → Option Url
url_of none = none
url_of (some segment) = some (record {
  scheme = bytes "artifact";
  host = some (bytes "blake3");
  username = [];
  password = none;
  port = none;
  query = none;
  fragment = none;
  path = bytes "/" ++ segment;
})

abbrev parse : Str → Option Url
parse text = url_of (after_prefix artifact_uri_prefix text)

uri_read : digest_from_uri parse uri ≡ ok digest
unfolding digest_from_uri after_prefix is_canonical str_ord
uri_read = refl

uri_for_digest-digest_from_uri_example : uri_for_digest digest ≡ ok uri
uri_for_digest-digest_from_uri_example = uri_for_digest-digest_from_uri parse uri digest uri_read
