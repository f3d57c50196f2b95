-- ===== src/Approval/Validate.antt =====
-- `validate_approval`.
use yeu_xharness.Base.{
  Bool, true, false, not, List, [], ◌∷◌, Str, bytes, str_ord, nat_ord, ◌==◌, leb, same, is_empty,
}
use yeu_xharness.Base.Results.{Result, ok, err, ◌>>=◌, ◌>>◌, require, ok_or}
use yeu_xharness.Protocol.Ids.{DateTime}
use yeu_xharness.Protocol.Json.{Value}
use yeu_xharness.Protocol.Tool.{
  ApprovalBinding, CapabilityMode, CapabilityMode-discrete, EffectSet, PreparedInvocation,
}
use yeu_xharness.Digest.Canonical.{Codec, digest_serializable}

pub data ApprovalError : Type 0 where
  preparation_expired empty_prepared_token missing_approval approval_expired : ApprovalError
  binding_mismatch digest : Str → ApprovalError

-- The derived serialization of the two types that are digested.
pub record Serialize : Type 0 where
  pub codec : Codec
  pub json_to_value : Value → Result Str Value
  pub effects_to_value : EffectSet → Result Str Value

-- The `require_equal!` lines: what is compared, and its name.
abbrev pub bindings : ApprovalBinding → PreparedInvocation → CapabilityMode → List (Bool × Str)
bindings a i mode =
    (a.workspace_id == i.workspace_id, bytes "workspace_id")
    ∷ (
      a.workspace_identity_digest == i.workspace_identity_digest,
      bytes "workspace_identity_digest",
    )
    ∷ (a.thread_id == i.thread_id, bytes "thread_id")
    ∷ (a.invocation_id == i.invocation_id, bytes "invocation_id")
    ∷ (a.turn_id == i.turn_id, bytes "turn_id")
    ∷ (a.agent_id == i.agent_id, bytes "agent_id")
    ∷ (same CapabilityMode-discrete a.mode mode, bytes "mode")
    ∷ (a.tool_id == i.tool_id, bytes "tool_id")
    ∷ (a.tool_version == i.tool_version, bytes "tool_version")
    ∷ (
      a.normalized_arguments_digest == i.normalized_arguments_digest,
      bytes "normalized_arguments_digest",
    )
    ∷ (a.effect_digest == i.effect_digest, bytes "effect_digest")
    ∷ []

unfoldable pub require_equal : List (Bool × Str) → Result ApprovalError (Unit {0})
require_equal [] = ok tt
require_equal ((equal, name) ∷ rest) = elim equal [
  | true ↦ require_equal rest
  | false ↦ err (binding_mismatch name)
]

-- `map_err` on a digest.
abbrev pub or_digest_error : Result Str Str → Result ApprovalError Str
or_digest_error (ok d) = ok d
or_digest_error (err message) = err (digest message)

module _ (s : Serialize) where
  unfoldable pub arguments_digest : Value → Result Str Str
  unfolding digest_serializable
  arguments_digest = digest_serializable s.codec s.json_to_value

  unfoldable pub effects_digest : EffectSet → Result Str Str
  unfolding digest_serializable
  effects_digest = digest_serializable s.codec s.effects_to_value

  -- The digests are taken again from the content.
  unfoldable pub require_content :
      ApprovalBinding → PreparedInvocation → Result ApprovalError (Unit {0})
  unfolding arguments_digest effects_digest str_ord
  require_content a i = do
    arguments ← or_digest_error (arguments_digest i.normalized_arguments)
    require (arguments == i.normalized_arguments_digest)
        (binding_mismatch (bytes "normalized_arguments_content"))
    effects ← or_digest_error (effects_digest i.effects)
    require (effects == i.effect_digest) (binding_mismatch (bytes "effect_content"))
    granted ← or_digest_error (effects_digest a.granted_effects)
    require (granted == i.effect_digest) (binding_mismatch (bytes "granted_effects"))
    ok tt

  unfoldable pub validate_approval :
      PreparedInvocation → CapabilityMode → DateTime → Result ApprovalError (Unit {0})
  unfolding require_equal require_content
  validate_approval i mode now = do
    require (not (leb i.expires_at now)) preparation_expired
    require (not (is_empty i.prepared_token)) empty_prepared_token
    approval ← ok_or i.approval missing_approval
    require (not (leb approval.expires_at now)) approval_expired
    require_equal (bindings approval i mode)
    require_content approval i
