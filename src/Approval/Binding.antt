-- ===== src/Approval/Binding.antt =====
-- What a valid approval says of the invocation.
use yeu_xharness.Base.{
  ℕ, ◌<◌, Bool, true, false, not, ◌≡◌, ◌≢◌, ◌↔◌, refl, List, [], ◌∷◌, Option, none, some, Str,
  str_ord, ◌==◌, ==_iff, arith, all, leb, is_empty, same,
}
use yeu_xharness.Base.Results.{
  Result, ok, err, ◌>>=◌, ◌>>◌, require, ok_or, require-eq_ok, seq-eq_ok,
}
use yeu_xharness.Protocol.Ids.{DateTime}
use yeu_xharness.Protocol.Tool.{
  ApprovalBinding, CapabilityMode, CapabilityMode-discrete, PreparedInvocation,
}
use yeu_xharness.Approval.Validate.{
  ApprovalError, preparation_expired, empty_prepared_token, missing_approval, approval_expired,
  Serialize, bindings, require_equal, or_digest_error, arguments_digest, effects_digest,
  require_content, validate_approval,
}

-- Field by field, the approval names this invocation and the mode.
pub record IsBound (a : ApprovalBinding) (i : PreparedInvocation) (mode : CapabilityMode)
    : Type 0 where
  pub workspace_id : a.workspace_id ≡ i.workspace_id
  pub workspace_identity_digest : a.workspace_identity_digest ≡ i.workspace_identity_digest
  pub thread_id : a.thread_id ≡ i.thread_id
  pub invocation_id : a.invocation_id ≡ i.invocation_id
  pub turn_id : a.turn_id ≡ i.turn_id
  pub agent_id : a.agent_id ≡ i.agent_id
  pub mode_same : a.mode ≡ mode
  pub tool_id : a.tool_id ≡ i.tool_id
  pub tool_version : a.tool_version ≡ i.tool_version
  pub normalized_arguments_digest : a.normalized_arguments_digest ≡ i.normalized_arguments_digest
  pub effect_digest : a.effect_digest ≡ i.effect_digest

require_equal-ok : (bs : List (Bool × Str)) → require_equal bs ≡ ok tt → all (λ b. b.0) bs ≡ true
unfolding require_equal
require_equal-ok [] h = refl
require_equal-ok ((true, name) ∷ rest) h = require_equal-ok rest h
require_equal-ok ((false, name) ∷ rest) h = ground arith

require_equal-all : (bs : List (Bool × Str)) → all (λ b. b.0) bs ≡ true → require_equal bs ≡ ok tt
unfolding require_equal
require_equal-all [] h = refl
require_equal-all ((true, name) ∷ rest) h = require_equal-all rest h
require_equal-all ((false, name) ∷ rest) h = ground arith

same_iff : (a b : CapabilityMode) → (same CapabilityMode-discrete a b ≡ true) ↔ (a ≡ b)
same_iff a b = (λ h. ground arith, λ h. ground arith)

module _ (a : ApprovalBinding) (i : PreparedInvocation) (mode : CapabilityMode) where
  IsBound-of_tests : all (λ b. b.0) (bindings a i mode) ≡ true → IsBound a i mode
  IsBound-of_tests h = ground (
    arith,
    ==_iff a.workspace_identity_digest i.workspace_identity_digest,
    ==_iff a.agent_id i.agent_id,
    ==_iff a.tool_id i.tool_id,
    ==_iff a.tool_version i.tool_version,
    ==_iff a.normalized_arguments_digest i.normalized_arguments_digest,
    ==_iff a.effect_digest i.effect_digest,
  )

  tests_of_bound : IsBound a i mode → all (λ b. b.0) (bindings a i mode) ≡ true
  tests_of_bound h = ground (
    arith,
    ==_iff a.workspace_identity_digest i.workspace_identity_digest,
    ==_iff a.agent_id i.agent_id,
    ==_iff a.tool_id i.tool_id,
    ==_iff a.tool_version i.tool_version,
    ==_iff a.normalized_arguments_digest i.normalized_arguments_digest,
    ==_iff a.effect_digest i.effect_digest,
  )

-- A digest that is taken again and compared.
checked :
    (r : Result Str Str) (d : Str) (e : ApprovalError) (k : Result ApprovalError (Unit {0}))
    → ((or_digest_error r >>= λ x. (require (x == d) e >> k)) ≡ ok tt) ↔ ((r ≡ ok d) × (k ≡ ok tt))
checked (ok x) d e k =
    (λ h. ground (arith, ==_iff x d, require-eq_ok (x == d) e k h), λ h. ground (arith, ==_iff x d))
checked (err m) d e k = (λ h. ground arith, λ h. ground arith)

abbrev pub HasContent : Serialize → ApprovalBinding → PreparedInvocation → Type 0
HasContent s a i =
    (arguments_digest s i.normalized_arguments ≡ ok i.normalized_arguments_digest)
    × (effects_digest s i.effects ≡ ok i.effect_digest)
    × (effects_digest s a.granted_effects ≡ ok i.effect_digest)

-- All that a valid approval stands for.
pub record IsAuthorized (s : Serialize) (i : PreparedInvocation) (mode : CapabilityMode)
    (now : DateTime) : Type 0 where
  pub approval : ApprovalBinding
  pub given : i.approval ≡ some approval
  pub prepared_in_time : now < i.expires_at
  pub approved_in_time : now < approval.expires_at
  pub has_token : i.prepared_token ≢ []
  pub bound : IsBound approval i mode
  pub content : HasContent s approval i

module _ (s : Serialize) (a : ApprovalBinding) (i : PreparedInvocation) where
  content_ok : require_content s a i ≡ ok tt → HasContent s a i
  unfolding require_content
  content_ok h =
      let (arguments, rest) = (checked (arguments_digest s i.normalized_arguments) _ _ _).0 h in
      let (effects, rest') = (checked (effects_digest s i.effects) _ _ _).0 rest in
      let (granted, _) = (checked (effects_digest s a.granted_effects) _ _ _).0 rest' in
      (arguments, effects, granted)

  ok_content : HasContent s a i → require_content s a i ≡ ok tt
  unfolding require_content
  ok_content h = (checked (arguments_digest s i.normalized_arguments) _ _ _).1 (
    h.0,
    (checked (effects_digest s i.effects) _ _ _).1
        (h.1, (checked (effects_digest s a.granted_effects) _ _ _).1 (h.2, refl)),
  )

in_time : (expiry now : ℕ) → (not (leb expiry now) ≡ true) ↔ (now < expiry)
in_time expiry now = (λ h. ground arith, λ h. ground arith)

nonempty : (token : Str) → (not (is_empty token) ≡ true) ↔ (token ≢ [])
nonempty [] = (λ h. ground arith, λ h. absurd (h refl))
nonempty (c ∷ token) = (λ h e. ground arith, λ h. refl)

module _ (s : Serialize) (i : PreparedInvocation) (mode : CapabilityMode) (now : DateTime) where
  IsAuthorized-of_approval :
      (o : Option ApprovalBinding)
      → i.approval ≡ o
      → now < i.expires_at
      → i.prepared_token ≢ []
      → (ok_or o missing_approval >>= λ a.
          (require (not (leb a.expires_at now)) approval_expired
            >> (require_equal (bindings a i mode) >> require_content s a i)))
        ≡ ok tt
      → IsAuthorized s i mode now
  IsAuthorized-of_approval none e t n h = ground arith
  IsAuthorized-of_approval (some a) e t n h =
      let (time, h') = require-eq_ok (not (leb a.expires_at now)) approval_expired _ h in
      let (tests, contents) =
        seq-eq_ok (require_equal (bindings a i mode)) (require_content s a i) h' in
      record {
        approval = a;
        given = e;
        prepared_in_time = t;
        approved_in_time = (in_time a.expires_at now).0 time;
        has_token = n;
        bound = IsBound-of_tests a i mode (require_equal-ok (bindings a i mode) tests);
        content = content_ok s a i contents;
      }

  IsAuthorized-of_valid : validate_approval s i mode now ≡ ok tt → IsAuthorized s i mode now
  unfolding validate_approval
  IsAuthorized-of_valid h =
      let (time, h') = require-eq_ok (not (leb i.expires_at now)) preparation_expired _ h in
      let (token, h'') =
        require-eq_ok (not (is_empty i.prepared_token)) empty_prepared_token _ h' in
      IsAuthorized-of_approval i.approval refl ((in_time i.expires_at now).0 time)
        ((nonempty i.prepared_token).0 token) h''

  valid_of_authorized : IsAuthorized s i mode now → validate_approval s i mode now ≡ ok tt
  unfolding validate_approval
  valid_of_authorized h = rw (
    (in_time i.expires_at now).1 h.prepared_in_time,
    (nonempty i.prepared_token).1 h.has_token,
    h.given,
    (in_time h.approval.expires_at now).1 h.approved_in_time,
    require_equal-all (bindings h.approval i mode) (tests_of_bound h.approval i mode h.bound),
    ok_content s h.approval i h.content,
  )

  -- `validate_approval` succeeds exactly when the invocation carries an approval, both are in time,
  -- the prepared token is not empty, the approval names this invocation field by field and the
  -- given mode, and the digests taken again from the arguments, the effects and the granted effects
  -- are the ones that were approved.
  pub validate_approval-eq_ok : (validate_approval s i mode now ≡ ok tt) ↔ IsAuthorized s i mode now
  validate_approval-eq_ok = (IsAuthorized-of_valid, valid_of_authorized)

-- Two prepared invocations with equal approvals that are both valid, each for a mode at a time, have
-- the same id, tool, workspace, thread, turn and agent, digests of arguments and effects, and mode.
pub approval_exact :
    (s : Serialize) (i j : PreparedInvocation) (m n : CapabilityMode) (now later : DateTime)
    → i.approval ≡ j.approval
    → validate_approval s i m now ≡ ok tt
    → validate_approval s j n later ≡ ok tt
    → (i.invocation_id ≡ j.invocation_id)
      × (i.workspace_id ≡ j.workspace_id)
      × (i.workspace_identity_digest ≡ j.workspace_identity_digest)
      × (i.thread_id ≡ j.thread_id)
      × (i.turn_id ≡ j.turn_id)
      × (i.agent_id ≡ j.agent_id)
      × (i.tool_id ≡ j.tool_id)
      × (i.tool_version ≡ j.tool_version)
      × (arguments_digest s i.normalized_arguments ≡ arguments_digest s j.normalized_arguments)
      × (effects_digest s i.effects ≡ effects_digest s j.effects)
      × (m ≡ n)
approval_exact s i j m n now later e h k =
    let p = (validate_approval-eq_ok s i m now).0 h in
    let q = (validate_approval-eq_ok s j n later).0 k in
    ground (arith, p.given, q.given, p.bound, q.bound, p.content, q.content)
