-- ===== src/Policy/Layers.antt =====
-- crates/yeuxd/src/grants.rs: the four layers that the daemon hands to the policy.
use yeu_xharness.Base.{true, false, List, [], ◌∷◌, Option, none, some, Str}
use yeu_xharness.Protocol.Ids.{DateTime}
use yeu_xharness.Protocol.Domain.{WorkspaceTrust}
use yeu_xharness.Protocol.Tool.{CapabilityGrant, CapabilityMode, EffectSet}
use yeu_xharness.Policy.Scopes.{star}
use yeu_xharness.Policy.Evaluate.{PolicyInput}

pub record GrantLayers : Type 0 where
  pub host_ceiling : CapabilityGrant
  pub user_profile : CapabilityGrant
  pub project_trust : CapabilityGrant
  pub turn_override : CapabilityGrant

abbrev anything : List Str
anything = star ∷ []

-- The grant of a mode that reads everything.
abbrev reading : CapabilityMode → CapabilityGrant
reading mode = record {
  mode = mode;
  filesystem_read = anything;
  filesystem_write = [];
  filesystem_delete = [];
  process = false;
  network = [];
  secrets = [];
  external_write = [];
  expires_at = none;
}

-- The grant of a mode that also writes, deletes and runs processes.
abbrev writing : CapabilityMode → CapabilityGrant
writing mode = record {
  mode = mode;
  filesystem_read = anything;
  filesystem_write = anything;
  filesystem_delete = anything;
  process = true;
  network = [];
  secrets = [];
  external_write = [];
  expires_at = none;
}

unfoldable pub host_grant : CapabilityMode → CapabilityGrant
host_grant CapabilityMode.observe = reading CapabilityMode.observe
host_grant CapabilityMode.build = writing CapabilityMode.build
host_grant CapabilityMode.operate = writing CapabilityMode.operate

unfoldable pub project_grant : WorkspaceTrust → CapabilityGrant
project_grant WorkspaceTrust.untrusted = reading CapabilityMode.observe
project_grant WorkspaceTrust.trusted = writing CapabilityMode.build

unfoldable pub identity_grant : CapabilityGrant
identity_grant = record {
  mode = CapabilityMode.operate;
  filesystem_read = anything;
  filesystem_write = anything;
  filesystem_delete = anything;
  process = true;
  network = anything;
  secrets = anything;
  external_write = anything;
  expires_at = none;
}

abbrev or_identity : Option CapabilityGrant → CapabilityGrant
unfolding identity_grant
or_identity none = identity_grant
or_identity (some g) = g

unfoldable pub resolve_grant_layers :
    CapabilityMode → WorkspaceTrust → Option CapabilityGrant → Option CapabilityGrant → GrantLayers
unfolding host_grant project_grant identity_grant
resolve_grant_layers host_mode workspace_trust user_profile turn_override = record {
  host_ceiling = host_grant host_mode;
  user_profile = or_identity user_profile;
  project_trust = project_grant workspace_trust;
  turn_override = or_identity turn_override;
}

-- The input that the layers make with an effect set and a time.
abbrev pub policy_input : GrantLayers → EffectSet → DateTime → PolicyInput
policy_input l e now = record {
  host_ceiling = l.host_ceiling;
  user_profile = l.user_profile;
  project_trust = l.project_trust;
  turn_override = l.turn_override;
  effects = e;
  now = now;
}
