-- ===== src/Artifact/Canonical.antt =====
-- An artifact has one URI.
use yeu_xharness.Base.{
  true, ◌≡◌, refl, sym, ap, [], ◌∷◌, ◌++◌, Option, some, Str, str_ord, bytes, nat_ord, ◌==◌, ==_iff,
  arith, length, length-append, leb,
}
use yeu_xharness.Base.Results.{ok, ok_or, bind-eq_ok, ok-injective, require-eq_ok}
use yeu_xharness.Artifact.Uri.{
  Url, artifact_uri_prefix, max_artifact_uri_bytes, is_digest, uri_for_digest, validate_digest,
  after_prefix, is_canonical, digest_from_uri, invalid_uri, wrong_prefix, not_url,
}

after_prefix-eq_some :
    (prefix text rest : Str) → after_prefix prefix text ≡ some rest → text ≡ prefix ++ rest
unfolding after_prefix
after_prefix-eq_some [] text rest h = ground arith
after_prefix-eq_some (c ∷ prefix) [] rest h = ground arith
after_prefix-eq_some (c ∷ prefix) (d ∷ text) rest h =
    ground (arith, ==_iff c d, after_prefix-eq_some prefix text rest)

-- What the url crate documents of an artifact's URI: its scheme, host and path are its parts.
pub record IsUrlParser (parse_url : Str → Option Url) : Type 0 where
  pub reads_artifact :
      (digest : Str)
      → is_digest digest ≡ true
      → (u : Url) × (parse_url (artifact_uri_prefix ++ digest) ≡ some u)
        × (is_canonical u ≡ true)
        × (u.path ≡ bytes "/" ++ digest)

module _ (parse_url : Str → Option Url) where
  -- Whatever the url crate parses: a URI that is accepted is the one that is built for the digest that
  -- is read from it, and that digest is valid.
  pub uri_for_digest-digest_from_uri :
      (uri digest : Str)
      → digest_from_uri parse_url uri ≡ ok digest
      → uri_for_digest digest ≡ ok uri
  unfolding digest_from_uri uri_for_digest validate_digest
  uri_for_digest-digest_from_uri uri digest h =
      let (short, h1) = require-eq_ok (leb (length uri) max_artifact_uri_bytes) _ _ h in
      let (given, prefixed, h2) =
        bind-eq_ok (ok_or (after_prefix artifact_uri_prefix uri) (invalid_uri wrong_prefix)) _ _
          h1 in
      let (parsed, url, h3) = bind-eq_ok (ok_or (parse_url uri) (invalid_uri not_url)) _ _ h2 in
      let (canonical, h4) = require-eq_ok (is_canonical parsed) _ _ h3 in
      let (segment, h5) = require-eq_ok (parsed.path == bytes "/" ++ given) _ _ h4 in
      let (valid, h6) = require-eq_ok (is_digest given) _ _ h5 in
      let same : given ≡ digest = ok-injective _ _ h6 in
      let found : after_prefix artifact_uri_prefix uri ≡ some given = ground arith in
      rw (sym same, valid)
        (ap (λ u. ok u) (sym (after_prefix-eq_some artifact_uri_prefix uri given found)))

  -- If the url crate reads artifact URIs as documented, the digest of a URI that was built is read back.
  pub digest_from_uri-uri_for_digest :
      (parser : IsUrlParser parse_url) (digest uri : Str)
      → uri_for_digest digest ≡ ok uri
      → digest_from_uri parse_url uri ≡ ok digest
  unfolding digest_from_uri uri_for_digest validate_digest
  digest_from_uri-uri_for_digest parser digest uri h =
      let (valid, h1) = require-eq_ok (is_digest digest) _ _ h in
      let (u, parsed, canonical, segment) = parser.reads_artifact digest valid in
      let short : leb (length (artifact_uri_prefix ++ digest)) max_artifact_uri_bytes ≡ true =
        ground (arith, ==_iff (length digest) 64, length-append artifact_uri_prefix digest) in
      let named : (u.path == bytes "/" ++ digest) ≡ true =
        ground (arith, ==_iff u.path (bytes "/" ++ digest)) in
      rw (sym (ok-injective _ _ h1), short, parsed, canonical, named, valid) refl
