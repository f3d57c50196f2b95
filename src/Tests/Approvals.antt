-- ===== src/Tests/Approvals.antt =====
-- An approval and canonical texts at concrete values.
use yeu_xharness.Base.{
  true, ◌≡◌, ◌↔◌, refl, [], ◌∷◌, ◌++◌, some, Str, bytes, str_ord, nat_ord, ==_iff, arith,
}
use yeu_xharness.Base.Map.{get}
use yeu_xharness.Base.Results.{ok}
use yeu_xharness.Protocol.Json.{Fields, null, bool, string, object, end, field}
use yeu_xharness.Protocol.Tool.{
  ApprovalBinding, CapabilityMode, CapabilityMode-discrete, PreparedInvocation, default_effects,
}
use yeu_xharness.Digest.Canonical.{Codec, canonical_json, digest_value, field_texts}
use yeu_xharness.Digest.Order.{canonical_json-object}
use yeu_xharness.Approval.Validate.{Serialize, arguments_digest, effects_digest, validate_approval}
use yeu_xharness.Approval.Binding.{IsAuthorized, validate_approval-eq_ok, approval_exact}

-- A codec whose digest is the text itself.
abbrev plain_codec : Codec
plain_codec = record {
  number_text = λ n. bytes "0";
  string_text = λ s. b'"' ∷ (s ++ (b'"' ∷ []));
  sha256_hex = λ s. s;
}

abbrev plain_serialize : Serialize
plain_serialize = record {
  codec = plain_codec;
  json_to_value = λ v. ok v;
  effects_to_value = λ e. ok null;
}

abbrev name_first : Fields
name_first = field (bytes "name") (string (bytes "x")) (field (bytes "all") (bool true) end)

abbrev all_first : Fields
all_first = field (bytes "all") (bool true) (field (bytes "name") (string (bytes "x")) end)

same_members :
    (k : Str)
    → get k (field_texts plain_codec name_first) ≡ get k (field_texts plain_codec all_first)
unfolding get canonical_json
same_members k = ground (arith, ==_iff k (bytes "name"), ==_iff k (bytes "all"))

canonical_json-object_example :
    (canonical_json plain_codec (object name_first) ≡ canonical_json plain_codec (object all_first))
    × (digest_value plain_codec (object name_first) ≡ digest_value plain_codec (object all_first))
canonical_json-object_example = canonical_json-object plain_codec name_first all_first same_members

abbrev approval : ApprovalBinding
approval = record {
  approval_id = 3;
  invocation_id = 9;
  workspace_id = 1;
  workspace_identity_digest = bytes "w";
  thread_id = 2;
  turn_id = 5;
  agent_id = bytes "main";
  mode = CapabilityMode.build;
  tool_id = bytes "write";
  tool_version = bytes "1";
  normalized_arguments_digest = bytes "true";
  effect_digest = bytes "null";
  granted_effects = default_effects;
  expires_at = 90;
}

abbrev invocation : PreparedInvocation
invocation = record {
  invocation_id = 9;
  tool_id = bytes "write";
  tool_version = bytes "1";
  workspace_id = 1;
  workspace_identity_digest = bytes "w";
  thread_id = 2;
  turn_id = 5;
  agent_id = bytes "main";
  normalized_arguments = bool true;
  normalized_arguments_digest = bytes "true";
  effects = default_effects;
  effect_digest = bytes "null";
  prepared_token = bytes "p";
  prepared_at = 40;
  expires_at = 80;
  approval = some approval;
}

-- The same invocation, prepared again.
abbrev again : PreparedInvocation
again = record invocation { prepared_token = bytes "q"; prepared_at = 50; expires_at = 85 }

invocation_valid : validate_approval plain_serialize invocation CapabilityMode.build 60 ≡ ok tt
unfolding validate_approval CapabilityMode-discrete
invocation_valid = refl

again_valid : validate_approval plain_serialize again CapabilityMode.build 70 ≡ ok tt
unfolding validate_approval CapabilityMode-discrete
again_valid = refl

validate_approval-eq_ok_example :
    (validate_approval plain_serialize invocation CapabilityMode.build 60 ≡ ok tt)
    ↔ IsAuthorized plain_serialize invocation CapabilityMode.build 60
validate_approval-eq_ok_example =
    validate_approval-eq_ok plain_serialize invocation CapabilityMode.build 60

approval_exact_example :
    (invocation.invocation_id ≡ again.invocation_id)
    × (invocation.workspace_id ≡ again.workspace_id)
    × (invocation.workspace_identity_digest ≡ again.workspace_identity_digest)
    × (invocation.thread_id ≡ again.thread_id)
    × (invocation.turn_id ≡ again.turn_id)
    × (invocation.agent_id ≡ again.agent_id)
    × (invocation.tool_id ≡ again.tool_id)
    × (invocation.tool_version ≡ again.tool_version)
    × (arguments_digest plain_serialize invocation.normalized_arguments
        ≡ arguments_digest plain_serialize again.normalized_arguments)
    × (effects_digest plain_serialize invocation.effects
        ≡ effects_digest plain_serialize again.effects)
    × (CapabilityMode.build ≡ CapabilityMode.build)
approval_exact_example =
    approval_exact plain_serialize invocation again CapabilityMode.build CapabilityMode.build 60 70
      refl invocation_valid again_valid
