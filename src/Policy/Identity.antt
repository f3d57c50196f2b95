-- ===== src/Policy/Identity.antt =====
-- A layer that is not configured narrows nothing.
use yeu_xharness.Base.{Bool, true, ◌&&◌, ◌≡◌, refl, ◌∙◌, List, [], ◌∷◌, none, arith, all, str_ord}
use yeu_xharness.Protocol.Ids.{DateTime}
use yeu_xharness.Protocol.Domain.{WorkspaceTrust}
use yeu_xharness.Protocol.Tool.{CapabilityMode, EffectSet}
use yeu_xharness.Policy.Scopes.{star, path_scope_allows, path_contains, exact_scope_allows}
use yeu_xharness.Policy.Evaluate.{is_allowed, evaluate_policy}
use yeu_xharness.Policy.Meet.{
  Kind, kinds, time, reads, writes, deletes, processes, networks, secret_names, externals, covers,
  permits, IsPlain,
}
use yeu_xharness.Policy.Paths.{is_plain}
use yeu_xharness.Policy.Decision.{all_resolved, is_allowed-evaluate_policy}
use yeu_xharness.Policy.Layers.{host_grant, project_grant, identity_grant, resolve_grant_layers}
use yeu_xharness.Policy.Ceiling.{layered}

all-true : {A : Type 0} (p : A → Bool) (xs : List A) → ((x : A) → p x ≡ true) → all p xs ≡ true
all-true p [] h = refl
all-true p (x ∷ xs) h = ground (arith, h x, all-true p xs h)

covers-identity : (k : Kind) (e : EffectSet) (now : DateTime) → covers k identity_grant e now ≡ true
unfolding identity_grant path_scope_allows path_contains exact_scope_allows
covers-identity time e now = refl
covers-identity reads e now = all-true _ e.filesystem_read λ s. refl
covers-identity writes e now = all-true _ e.filesystem_write λ s. refl
covers-identity deletes e now = all-true _ e.filesystem_delete λ s. refl
covers-identity processes e now = ground arith
covers-identity networks e now = all-true _ e.network λ s. refl
covers-identity secret_names e now = all-true _ e.secrets λ s. refl
covers-identity externals e now = all-true _ e.external_writes λ s. refl

permits-identity : (e : EffectSet) (now : DateTime) → permits identity_grant e now ≡ true
permits-identity e now =
    all-true (λ k. covers k identity_grant e now) kinds λ k. covers-identity k e now

star_plain : is_plain star ≡ true
unfolding str_ord
star_plain = refl

anything_plain : all is_plain (star ∷ []) ≡ true
anything_plain = ground (arith, star_plain)

host_grant-IsPlain : (host : CapabilityMode) → IsPlain (host_grant host)
unfolding host_grant
host_grant-IsPlain CapabilityMode.observe = (anything_plain, refl, refl)
host_grant-IsPlain CapabilityMode.build = (anything_plain, anything_plain, anything_plain)
host_grant-IsPlain CapabilityMode.operate = (anything_plain, anything_plain, anything_plain)

project_grant-IsPlain : (trust : WorkspaceTrust) → IsPlain (project_grant trust)
unfolding project_grant
project_grant-IsPlain WorkspaceTrust.untrusted = (anything_plain, refl, refl)
project_grant-IsPlain WorkspaceTrust.trusted = (anything_plain, anything_plain, anything_plain)

identity-IsPlain : IsPlain identity_grant
unfolding identity_grant
identity-IsPlain = (anything_plain, anything_plain, anything_plain)

four :
    (r h u p t : Bool)
    → u ≡ true
    → t ≡ true
    → (r && (h && (u && (p && (t && true))))) ≡ (r && (h && p))
four r h u p t hu ht = ground arith

-- With neither a profile nor an override the decision allows exactly what is resolved and what the
-- host's mode and the workspace's trust both permit.
pub missing_layers_identity :
    (host : CapabilityMode) (trust : WorkspaceTrust) (e : EffectSet) (now : DateTime)
    → is_allowed (evaluate_policy (layered host trust none none e now))
      ≡ (all_resolved e && (permits (host_grant host) e now && permits (project_grant trust) e now))
unfolding resolve_grant_layers
missing_layers_identity host trust e now =
    is_allowed-evaluate_policy (layered host trust none none e now) (
      host_grant-IsPlain host,
      (identity-IsPlain, (project_grant-IsPlain trust, (identity-IsPlain, tt))),
    )
    ∙ four (all_resolved e) (permits (host_grant host) e now) (permits identity_grant e now)
        (permits (project_grant trust) e now) (permits identity_grant e now)
        (permits-identity e now) (permits-identity e now)
