-- ===== src/Policy/Ceiling.antt =====
-- What the daemon's layers exclude, whatever the user's profile and the turn's override say.
use yeu_xharness.Base.{
  Bool, true, false, ◌&&◌, ◌≡◌, refl, sym, ◌∙◌, ◌⊎◌, List, [], ◌∷◌, Option, Str, arith, all,
  is_empty, and_parts,
}
use yeu_xharness.Protocol.Ids.{DateTime}
use yeu_xharness.Protocol.Domain.{WorkspaceTrust}
use yeu_xharness.Protocol.Tool.{CapabilityGrant, CapabilityMode, EffectSet, is_read_only}
use yeu_xharness.Policy.Scopes.{exact_scope_allows}
use yeu_xharness.Policy.Grants.{intersect_two, intersect_onto, intersect_grants}
use yeu_xharness.Policy.Evaluate.{
  PolicyInput, is_allowed, evaluate_policy, external_scope, network_scope,
}
use yeu_xharness.Policy.Meet.{
  Kind, reads, writes, deletes, networks, secret_names, externals, covers, PlainFor,
  covers-intersect_two,
}
use yeu_xharness.Policy.Decision.{all_resolved, is_allowed-decide, layers}
use yeu_xharness.Policy.Authority.{all_covers, allowed-fits_mode}
use yeu_xharness.Policy.Layers.{resolve_grant_layers, policy_input, host_grant}

-- The kinds that need no path scope.
abbrev PathFree : Kind → Type 0
PathFree reads = ⊥
PathFree writes = ⊥
PathFree deletes = ⊥
PathFree _ = Unit

PlainFor-free : (k : Kind) (g : CapabilityGrant) → PathFree k → PlainFor k g
PlainFor-free reads g h = absurd h
PlainFor-free writes g h = absurd h
PlainFor-free deletes g h = absurd h
PlainFor-free _ g h = tt

-- What the intersection covers, its first grant covers.
covers-first :
    (k : Kind) (g : CapabilityGrant) (gs : List CapabilityGrant) (e : EffectSet) (now : DateTime)
    → PathFree k
    → covers k (intersect_onto g gs) e now ≡ true
    → covers k g e now ≡ true
unfolding intersect_onto
covers-first k g [] e now free h = h
covers-first k g (r ∷ gs) e now free h =
    (and_parts (covers k g e now) (covers k r e now) (
      sym (covers-intersect_two g r e now k (PlainFor-free k g free))
      ∙ covers-first k (intersect_two g r) gs e now free h)).0

allowed-covers-host :
    (i : PolicyInput) (k : Kind)
    → PathFree k
    → is_allowed (evaluate_policy i) ≡ true
    → covers k i.host_ceiling i.effects i.now ≡ true
unfolding evaluate_policy intersect_grants
allowed-covers-host i k free h =
    let g = intersect_grants (layers i) in
    covers-first k i.host_ceiling (i.user_profile ∷ i.project_trust ∷ i.turn_override ∷ [])
      i.effects i.now free
      (all_covers g i.effects i.now k
        (and_parts (all_resolved i.effects) _ (sym (is_allowed-decide g i.effects i.now) ∙ h)).1)

none_allowed :
    {A : Type 0} (f : A → Str) (xs : List A)
    → all (λ x. exact_scope_allows [] (f x)) xs ≡ true
    → is_empty xs ≡ true
unfolding exact_scope_allows
none_allowed f [] h = refl
none_allowed f (x ∷ xs) h = ground arith

none_written :
    {A : Type 0} (b : Bool) (f : A → Str) (xs : List A)
    → all (λ x. b && exact_scope_allows [] (f x)) xs ≡ true
    → is_empty xs ≡ true
unfolding exact_scope_allows
none_written b f [] h = refl
none_written b f (x ∷ xs) h = ground arith

-- The decision that the daemon's layers lead to.
abbrev pub layered :
    CapabilityMode
    → WorkspaceTrust
    → Option CapabilityGrant
    → Option CapabilityGrant
    → EffectSet
    → DateTime
    → PolicyInput
layered host trust profile override e now =
    policy_input (resolve_grant_layers host trust profile override) e now

module _ (host : CapabilityMode) (trust : WorkspaceTrust)
    (profile override : Option CapabilityGrant) (e : EffectSet) (now : DateTime)
    (allowed : is_allowed (evaluate_policy (layered host trust profile override e now))
      ≡ true) where
  host_covers : (k : Kind) → PathFree k → covers k (host_grant host) e now ≡ true
  unfolding resolve_grant_layers
  host_covers k free =
      allowed-covers-host (layered host trust profile override e now) k free allowed

  no_networks :
      (h : CapabilityMode) → covers networks (host_grant h) e now ≡ true → is_empty e.network ≡ true
  unfolding host_grant
  no_networks CapabilityMode.observe c = none_allowed network_scope e.network c
  no_networks CapabilityMode.build c = none_allowed network_scope e.network c
  no_networks CapabilityMode.operate c = none_allowed network_scope e.network c

  no_secrets :
      (h : CapabilityMode)
      → covers secret_names (host_grant h) e now ≡ true
      → is_empty e.secrets ≡ true
  unfolding host_grant
  no_secrets CapabilityMode.observe c = none_allowed (λ s. s.name) e.secrets c
  no_secrets CapabilityMode.build c = none_allowed (λ s. s.name) e.secrets c
  no_secrets CapabilityMode.operate c = none_allowed (λ s. s.name) e.secrets c

  no_externals :
      (h : CapabilityMode)
      → covers externals (host_grant h) e now ≡ true
      → is_empty e.external_writes ≡ true
  unfolding host_grant
  no_externals CapabilityMode.observe c = none_written false external_scope e.external_writes c
  no_externals CapabilityMode.build c = none_written false external_scope e.external_writes c
  no_externals CapabilityMode.operate c = none_written true external_scope e.external_writes c

  -- Under the daemon's layers an allowed effect set has no network access, no secret and no external
  -- write, at every host mode, trust, profile and override.
  pub layers_exclude_external :
      (is_empty e.network ≡ true)
      × (is_empty e.secrets ≡ true)
      × (is_empty e.external_writes ≡ true)
  layers_exclude_external = (
    no_networks host (host_covers networks tt),
    no_secrets host (host_covers secret_names tt),
    no_externals host (host_covers externals tt),
  )

  -- In an untrusted workspace, and under a host at `observe`, an allowed effect set is read-only.
  pub untrusted_read_only :
      (trust ≡ WorkspaceTrust.untrusted) ⊎ (host ≡ CapabilityMode.observe) → is_read_only e ≡ true
  unfolding is_read_only resolve_grant_layers
  untrusted_read_only why = ground (
    arith,
    layers_exclude_external,
    allowed-fits_mode (layered host trust profile override e now) allowed,
  )
