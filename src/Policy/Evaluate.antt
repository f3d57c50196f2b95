-- ===== src/Policy/Evaluate.antt =====
-- `evaluate_policy`: the reasons to deny an effect set, and the decision.
use yeu_xharness.Base.{
  Bool, true, false, ◌&&◌, ◌||◌, not, List, [], ◌∷◌, ◌++◌, Option, none, some, Str, bytes, leb, ltb,
  is_empty, flat_map, if◌then◌else◌,
}
use yeu_xharness.Base.Decimal.{decimal}
use yeu_xharness.Protocol.Ids.{DateTime}
use yeu_xharness.Protocol.Tool.{
  CapabilityGrant, CapabilityMode, EffectSet, ExternalEffect, NetworkEffect, PathScope,
  SecretHandle, rank,
}
use yeu_xharness.Policy.Scopes.{exact_scope_allows, path_scope_allows}
use yeu_xharness.Policy.Grants.{intersect_grants}

pub record PolicyInput : Type 0 where
  pub host_ceiling : CapabilityGrant
  pub user_profile : CapabilityGrant
  pub project_trust : CapabilityGrant
  pub turn_override : CapabilityGrant
  pub effects : EffectSet
  pub now : DateTime

pub data PolicyDecision : Type 0 where
  allow :
      (effective_grant : CapabilityGrant) (approval_required : Bool) (reasons : List Str)
      → PolicyDecision
  deny : (effective_grant : CapabilityGrant) (reasons : List Str) → PolicyDecision

abbrev pub is_allowed : PolicyDecision → Bool
is_allowed (PolicyDecision.allow g a r) = true
is_allowed (PolicyDecision.deny g r) = false

unfoldable pub effective_grant : PolicyDecision → CapabilityGrant
effective_grant (PolicyDecision.allow g a r) = g
effective_grant (PolicyDecision.deny g r) = g

unfoldable pub network_scope : NetworkEffect → Str
unfolding decimal
network_scope e = elim e.port [
  | none ↦ e.scheme ++ (bytes "://" ++ e.host)
  | some port ↦ e.scheme ++ (bytes "://" ++ (e.host ++ (bytes ":" ++ decimal port)))
]

-- `external.resource.as_deref().unwrap_or("*")`
unfoldable pub resource_or_star : Option Str → Str
resource_or_star none = bytes "*"
resource_or_star (some resource) = resource

unfoldable pub external_scope : ExternalEffect → Str
unfolding resource_or_star
external_scope e =
    e.system ++ (bytes ":" ++ (e.operation ++ (bytes ":" ++ resource_or_star e.resource)))

-- `denied.push(reason)` under a test.
abbrev pub deny_if : Bool → Str → List Str
deny_if true reason = reason ∷ []
deny_if false reason = []

abbrev pub is_expired : Option DateTime → DateTime → Bool
is_expired none now = false
is_expired (some expiry) now = leb expiry now

-- `mode < needed`
abbrev pub below : CapabilityMode → CapabilityMode → Bool
below mode needed = ltb (rank mode) (rank needed)

module _ (g : CapabilityGrant) where
  unfoldable pub expired_reasons : DateTime → List Str
  expired_reasons now =
      deny_if (is_expired g.expires_at now) (bytes "effective capability grant is expired")

  unfoldable pub read_reasons : PathScope → List Str
  read_reasons s =
      deny_if (not (path_scope_allows g.filesystem_read s.path))
        (bytes "filesystem read is outside the grant: " ++ s.path)

  unfoldable pub write_reasons : PathScope → List Str
  write_reasons s =
      deny_if
        (below g.mode CapabilityMode.build || not (path_scope_allows g.filesystem_write s.path))
        (bytes "filesystem write is outside the grant: " ++ s.path)

  unfoldable pub delete_reasons : PathScope → List Str
  delete_reasons s =
      deny_if
        (below g.mode CapabilityMode.build || not (path_scope_allows g.filesystem_delete s.path))
        (bytes "filesystem delete is outside the grant: " ++ s.path)

  unfoldable pub process_reasons : EffectSet → List Str
  process_reasons e =
      deny_if (not (is_empty e.processes) && (below g.mode CapabilityMode.build || not g.process))
        (bytes "process execution is not granted")

  unfoldable pub network_reasons : NetworkEffect → List Str
  unfolding network_scope
  network_reasons n =
      deny_if (not (exact_scope_allows g.network (network_scope n)))
        (bytes "network access is outside the grant: " ++ network_scope n)

  unfoldable pub secret_reasons : SecretHandle → List Str
  secret_reasons s =
      deny_if (not (exact_scope_allows g.secrets s.name))
        (bytes "secret access is outside the grant: " ++ s.name)

  unfoldable pub external_reasons : ExternalEffect → List Str
  unfolding external_scope
  external_reasons x =
      deny_if
        (below g.mode CapabilityMode.operate
          || not (exact_scope_allows g.external_write (external_scope x)))
        (bytes "external write is outside the grant: " ++ external_scope x)

unfoldable pub unresolved_reasons : PathScope → List Str
unresolved_reasons s = deny_if (not s.resolved) (bytes "filesystem scope is unresolved: " ++ s.path)

-- The reasons in the order in which they are pushed.
unfoldable pub denials : CapabilityGrant → EffectSet → DateTime → List Str
unfolding expired_reasons unresolved_reasons read_reasons write_reasons delete_reasons
    process_reasons network_reasons secret_reasons external_reasons
denials g e now =
    expired_reasons g now
    ++ (flat_map unresolved_reasons
          (e.filesystem_read ++ (e.filesystem_write ++ e.filesystem_delete))
        ++ (flat_map (read_reasons g) e.filesystem_read
            ++ (flat_map (write_reasons g) e.filesystem_write
                ++ (flat_map (delete_reasons g) e.filesystem_delete
                    ++ (process_reasons g e
                        ++ (flat_map (network_reasons g) e.network
                            ++ (flat_map (secret_reasons g) e.secrets
                                ++ flat_map (external_reasons g) e.external_writes)))))))

unfoldable pub needs_approval : EffectSet → Bool
needs_approval e =
    not (is_empty e.filesystem_write)
    || not (is_empty e.filesystem_delete)
    || not (is_empty e.processes)
    || not (is_empty e.network)
    || not (is_empty e.secrets)
    || not (is_empty e.external_writes)

abbrev pub allow_reasons : Bool → List Str
allow_reasons true = bytes "the invocation requests a side effect or privileged capability" ∷ []
allow_reasons false = bytes "all requested effects are structured and read-only" ∷ []

unfoldable pub decide : CapabilityGrant → EffectSet → DateTime → PolicyDecision
unfolding denials needs_approval
decide g e now =
    if is_empty (denials g e now)
    then PolicyDecision.allow g (needs_approval e) (allow_reasons (needs_approval e))
    else PolicyDecision.deny g (denials g e now)

unfoldable pub evaluate_policy : PolicyInput → PolicyDecision
unfolding decide intersect_grants
evaluate_policy input =
    decide
      (intersect_grants
        (input.host_ceiling ∷ input.user_profile ∷ input.project_trust ∷ input.turn_override ∷ []))
      input.effects input.now
