-- ===== src/Tests/Policies.antt =====
-- Policies at concrete grants and effects.
use yeu_xharness.Base.{
  true, false, ◌&&◌, not, ◌≡◌, refl, ◌⊎◌, inl, List, [], ◌∷◌, none, some, Str, bytes, str_ord, all,
  is_empty,
}
use yeu_xharness.Base.Set
use yeu_xharness.Protocol.Domain.{WorkspaceTrust}
use yeu_xharness.Protocol.Tool.{
  CapabilityGrant, CapabilityMode, EffectSet, default_effects, observe_grant, is_read_only,
}
use yeu_xharness.Policy.Scopes.{
  components, component_prefix, exact_scope_allows, path_scope_allows, intersect_exact_scopes,
  intersect_path_scopes,
}
use yeu_xharness.Policy.Grants.{intersect_grants}
use yeu_xharness.Policy.Evaluate.{
  PolicyInput, PolicyDecision, evaluate_policy, is_allowed, allow_reasons,
}
use yeu_xharness.Policy.Exact.{exact_scope_allows-intersect}
use yeu_xharness.Policy.Paths.{is_plain, path_scope_allows-intersect, alias_widens}
use yeu_xharness.Policy.Meet.{permits, IsPlain, permits-intersect_grants}
use yeu_xharness.Policy.Decision.{
  all_resolved, layers, is_allowed-evaluate_policy, evaluate_policy-cases,
}
use yeu_xharness.Policy.Authority.{fits_mode, allowed-fits_mode}
use yeu_xharness.Policy.Layers.{resolve_grant_layers, host_grant, project_grant}
use yeu_xharness.Policy.Ceiling.{layered, layers_exclude_external, untrusted_read_only}
use yeu_xharness.Policy.Identity.{missing_layers_identity}

abbrev star : Str
star = bytes "*"

abbrev hosts : List Str
hosts = bytes "https://a" ∷ bytes "https://b" ∷ []

abbrev src_scopes : List Str
src_scopes = bytes "src" ∷ bytes "docs" ∷ []

abbrev core_scopes : List Str
core_scopes = bytes "src/core" ∷ []

abbrev build_grant : CapabilityGrant
build_grant = record observe_grant {
  mode = CapabilityMode.build;
  filesystem_read = star ∷ [];
  filesystem_write = src_scopes;
}

abbrev core_grant : CapabilityGrant
core_grant = record build_grant { filesystem_write = core_scopes; expires_at = some 90 }

abbrev writes_core : EffectSet
writes_core = record default_effects {
  filesystem_write = record { path = bytes "src/core/a"; recursive = false; resolved = true } ∷ [];
}

abbrev reads_core : EffectSet
reads_core = record default_effects {
  filesystem_read = record { path = bytes "src/core/a"; recursive = false; resolved = true } ∷ [];
}

abbrev writing_input : PolicyInput
writing_input = record {
  host_ceiling = build_grant;
  user_profile = core_grant;
  project_trust = build_grant;
  turn_override = build_grant;
  effects = writes_core;
  now = 50;
}

exact_scope_allows-intersect_example :
    exact_scope_allows (intersect_exact_scopes hosts (star ∷ [])) (bytes "https://b") ≡ (
      exact_scope_allows hosts (bytes "https://b")
      && exact_scope_allows (star ∷ []) (bytes "https://b"))
exact_scope_allows-intersect_example =
    exact_scope_allows-intersect hosts (star ∷ []) (bytes "https://b")

src_plain : all is_plain src_scopes ≡ true
unfolding str_ord component_prefix components
src_plain = refl

path_scope_allows-intersect_example :
    path_scope_allows (intersect_path_scopes src_scopes core_scopes) (bytes "src/core/a") ≡ (
      path_scope_allows src_scopes (bytes "src/core/a")
      && path_scope_allows core_scopes (bytes "src/core/a"))
path_scope_allows-intersect_example =
    path_scope_allows-intersect src_scopes core_scopes (bytes "src/core/a") src_plain

alias_widens_example :
    path_scope_allows (intersect_path_scopes (bytes "*/" ∷ []) (star ∷ [])) (bytes "etc/passwd")
    ≡ true
unfolding str_ord component_prefix components
alias_widens_example = alias_widens (bytes "*/") (bytes "etc/passwd") refl

build-IsPlain : IsPlain build_grant
unfolding str_ord component_prefix components
build-IsPlain = (refl, refl, refl)

core-IsPlain : IsPlain core_grant
unfolding str_ord component_prefix components
core-IsPlain = (refl, refl, refl)

permits-intersect_grants_example :
    permits (intersect_grants (build_grant ∷ core_grant ∷ [])) writes_core 50
    ≡ all (λ h. permits h writes_core 50) (build_grant ∷ core_grant ∷ [])
permits-intersect_grants_example =
    permits-intersect_grants build_grant (core_grant ∷ []) writes_core 50
      (build-IsPlain, (core-IsPlain, tt))

is_allowed-evaluate_policy_example :
    is_allowed (evaluate_policy writing_input)
    ≡ (all_resolved writes_core && all (λ g. permits g writes_core 50) (layers writing_input))
is_allowed-evaluate_policy_example =
    is_allowed-evaluate_policy writing_input
      (build-IsPlain, (core-IsPlain, (build-IsPlain, (build-IsPlain, tt))))

writing_allowed : is_allowed (evaluate_policy writing_input) ≡ true
unfolding evaluate_policy path_scope_allows Set.insert
writing_allowed = refl

allowed-fits_mode_example : all (λ g. fits_mode writes_core g.mode) (layers writing_input) ≡ true
allowed-fits_mode_example = allowed-fits_mode writing_input writing_allowed

abbrev reading_input : PolicyInput
reading_input =
    layered CapabilityMode.observe WorkspaceTrust.untrusted none (some build_grant) reads_core 50

reading_allowed : is_allowed (evaluate_policy reading_input) ≡ true
unfolding evaluate_policy resolve_grant_layers path_scope_allows Set.insert
reading_allowed = refl

evaluate_policy-cases_example :
    (evaluate_policy writing_input
      ≡ PolicyDecision.allow
          (intersect_grants (layers writing_input))
          (not (is_read_only writes_core))
          (allow_reasons (not (is_read_only writes_core))))
    ⊎ ((r : Str) × (rs : List Str) × (evaluate_policy writing_input
          ≡ PolicyDecision.deny (intersect_grants (layers writing_input)) (r ∷ rs)))
evaluate_policy-cases_example = evaluate_policy-cases writing_input

layers_exclude_external_example :
    (is_empty reads_core.network ≡ true)
    × (is_empty reads_core.secrets ≡ true)
    × (is_empty reads_core.external_writes ≡ true)
layers_exclude_external_example =
    layers_exclude_external CapabilityMode.observe WorkspaceTrust.untrusted none (some build_grant)
      reads_core 50 reading_allowed

untrusted_read_only_example : is_read_only reads_core ≡ true
untrusted_read_only_example =
    untrusted_read_only CapabilityMode.observe WorkspaceTrust.untrusted none (some build_grant)
      reads_core 50 reading_allowed (inl refl)

missing_layers_identity_example :
    is_allowed (
      evaluate_policy
        (layered CapabilityMode.build WorkspaceTrust.trusted none none writes_core 50))
    ≡ (all_resolved writes_core
        && (permits (host_grant CapabilityMode.build) writes_core 50
            && permits (project_grant WorkspaceTrust.trusted) writes_core 50))
missing_layers_identity_example =
    missing_layers_identity CapabilityMode.build WorkspaceTrust.trusted writes_core 50
