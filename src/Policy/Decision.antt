-- ===== src/Policy/Decision.antt =====
-- `evaluate_policy` against the grants' own answers.
use yeu_xharness.Base.{
  Bool, true, ◌&&◌, not, ◌≡◌, refl, ◌∙◌, ap, List, [], ◌∷◌, ◌++◌, Str, arith, all, all-ext,
  is_empty, is_empty-append, is_empty-flat_map, flat_map, ◌⊎◌, inl, inr, if◌then◌else◌,
}
use yeu_xharness.Protocol.Ids.{DateTime}
use yeu_xharness.Protocol.Tool.{CapabilityGrant, EffectSet, is_read_only}
use yeu_xharness.Policy.Grants.{intersect_grants}
use yeu_xharness.Policy.Evaluate.{
  PolicyInput, PolicyDecision, is_allowed, denials, decide, evaluate_policy, needs_approval,
  allow_reasons, expired_reasons, unresolved_reasons, read_reasons, write_reasons, delete_reasons,
  process_reasons, network_reasons, secret_reasons, external_reasons,
}
use yeu_xharness.Policy.Meet.{
  time, reads, writes, deletes, processes, networks, secret_names, externals, covers, permits,
  AllPlain, permits-intersect_grants,
}

-- Every file system scope was resolved.
abbrev pub all_resolved : EffectSet → Bool
all_resolved e =
    all (λ s. s.resolved) (e.filesystem_read ++ (e.filesystem_write ++ e.filesystem_delete))

each :
    {A : Type 0} (f : A → List Str) (p : A → Bool) (xs : List A)
    → ((x : A) → is_empty (f x) ≡ p x)
    → is_empty (flat_map f xs) ≡ all p xs
each f p xs h = is_empty-flat_map f xs ∙ all-ext (λ x. is_empty (f x)) p xs h

reorder :
    (a u b c d p n s x : Bool)
    → (a && (u && (b && (c && (d && (p && (n && (s && x))))))))
      ≡ (u && (a && (b && (c && (d && (p && (n && (s && (x && true)))))))))
reorder a u b c d p n s x = ground arith

module _ (g : CapabilityGrant) (e : EffectSet) (now : DateTime) where
  no_time_reasons : is_empty (expired_reasons g now) ≡ covers time g e now
  unfolding expired_reasons
  no_time_reasons = ground arith

  no_unresolved_reasons :
      is_empty (
        flat_map unresolved_reasons
          (e.filesystem_read ++ (e.filesystem_write ++ e.filesystem_delete)))
      ≡ all_resolved e
  unfolding unresolved_reasons
  no_unresolved_reasons =
      each unresolved_reasons (λ s. s.resolved)
        (e.filesystem_read ++ (e.filesystem_write ++ e.filesystem_delete)) λ s. ground arith

  no_read_reasons : is_empty (flat_map (read_reasons g) e.filesystem_read) ≡ covers reads g e now
  unfolding read_reasons
  no_read_reasons = each (read_reasons g) _ e.filesystem_read λ s. ground arith

  no_write_reasons :
      is_empty (flat_map (write_reasons g) e.filesystem_write) ≡ covers writes g e now
  unfolding write_reasons
  no_write_reasons = each (write_reasons g) _ e.filesystem_write λ s. ground arith

  no_delete_reasons :
      is_empty (flat_map (delete_reasons g) e.filesystem_delete) ≡ covers deletes g e now
  unfolding delete_reasons
  no_delete_reasons = each (delete_reasons g) _ e.filesystem_delete λ s. ground arith

  no_process_reasons : is_empty (process_reasons g e) ≡ covers processes g e now
  unfolding process_reasons
  no_process_reasons = ground arith

  no_network_reasons : is_empty (flat_map (network_reasons g) e.network) ≡ covers networks g e now
  unfolding network_reasons
  no_network_reasons = each (network_reasons g) _ e.network λ s. ground arith

  no_secret_reasons : is_empty (flat_map (secret_reasons g) e.secrets) ≡ covers secret_names g e now
  unfolding secret_reasons
  no_secret_reasons = each (secret_reasons g) _ e.secrets λ s. ground arith

  no_external_reasons :
      is_empty (flat_map (external_reasons g) e.external_writes) ≡ covers externals g e now
  unfolding external_reasons
  no_external_reasons = each (external_reasons g) _ e.external_writes λ s. ground arith

  -- There is no reason to deny exactly when the scopes are resolved and the grant permits the rest.
  pub is_empty-denials : is_empty (denials g e now) ≡ (all_resolved e && permits g e now)
  unfolding denials
  is_empty-denials =
      simp
        (
          is_empty-append, no_time_reasons, no_unresolved_reasons, no_read_reasons,
          no_write_reasons, no_delete_reasons, no_process_reasons, no_network_reasons,
          no_secret_reasons, no_external_reasons,
        )
        (reorder (covers time g e now) (all_resolved e) (covers reads g e now)
          (covers writes g e now) (covers deletes g e now) (covers processes g e now)
          (covers networks g e now) (covers secret_names g e now) (covers externals g e now))

  pub is_allowed-decide : is_allowed (decide g e now) ≡ (all_resolved e && permits g e now)
  unfolding decide
  is_allowed-decide = ground (arith, is_empty-denials)

-- The four layers, in the order in which they are intersected.
abbrev pub layers : PolicyInput → List CapabilityGrant
layers i = i.host_ceiling ∷ i.user_profile ∷ i.project_trust ∷ i.turn_override ∷ []

-- An effect set is allowed exactly when all its file system scopes are resolved and each of the four
-- layers by itself permits it at that time, if no path scope of a layer is an alias of the wildcard.
pub is_allowed-evaluate_policy :
    (i : PolicyInput)
    → AllPlain (layers i)
    → is_allowed (evaluate_policy i)
      ≡ (all_resolved i.effects && all (λ g. permits g i.effects i.now) (layers i))
unfolding evaluate_policy
is_allowed-evaluate_policy i plain =
    is_allowed-decide (intersect_grants (layers i)) i.effects i.now
    ∙ ap (λ b. all_resolved i.effects && b)
        (permits-intersect_grants i.host_ceiling
          (i.user_profile ∷ i.project_trust ∷ i.turn_override ∷ []) i.effects i.now plain)

needs_approval_lem : (e : EffectSet) → needs_approval e ≡ not (is_read_only e)
unfolding needs_approval is_read_only
needs_approval_lem e = ground arith

decide_cases :
    (g : CapabilityGrant) (e : EffectSet) (reasons : List Str)
    → let asks = not (is_read_only e) in
      let outcome =
        if is_empty reasons
        then PolicyDecision.allow g (needs_approval e) (allow_reasons (needs_approval e))
        else PolicyDecision.deny g reasons in
      (outcome ≡ PolicyDecision.allow g asks (allow_reasons asks))
      ⊎ ((r : Str) × (rs : List Str) × (outcome ≡ PolicyDecision.deny g (r ∷ rs)))
decide_cases g e [] = inl (rw (needs_approval_lem e))
decide_cases g e (r ∷ rs) = inr (r, rs, refl)

-- A decision to allow asks for approval exactly when the effect set is not read-only, and one to
-- deny gives at least one reason; both carry the intersection of the four layers.
pub evaluate_policy-cases :
    (i : PolicyInput)
    → let g = intersect_grants (layers i) in
      let asks = not (is_read_only i.effects) in
      (evaluate_policy i ≡ PolicyDecision.allow g asks (allow_reasons asks))
      ⊎ ((r : Str) × (rs : List Str) × (evaluate_policy i ≡ PolicyDecision.deny g (r ∷ rs)))
unfolding evaluate_policy decide
evaluate_policy-cases i =
    decide_cases (intersect_grants (layers i)) i.effects
      (denials (intersect_grants (layers i)) i.effects i.now)
