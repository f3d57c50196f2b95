-- ===== src/Policy/Grants.antt =====
-- The intersection of grants.
use yeu_xharness.Base.{◌&&◌, List, [], ◌∷◌, Option, none, some, ℕ, leb, if◌then◌else◌}
use yeu_xharness.Protocol.Tool.{CapabilityGrant, observe_grant, minimum}
use yeu_xharness.Policy.Scopes.{intersect_exact_scopes, intersect_path_scopes}

-- `left.min(right)` where both have an end.
unfoldable pub earliest : Option ℕ → Option ℕ → Option ℕ
earliest none right = right
earliest (some left) none = some left
earliest (some left) (some right) = if leb left right then some left else some right

unfoldable pub intersect_two : CapabilityGrant → CapabilityGrant → CapabilityGrant
unfolding minimum intersect_exact_scopes intersect_path_scopes earliest
intersect_two left right = record {
  mode = minimum left.mode right.mode;
  filesystem_read = intersect_path_scopes left.filesystem_read right.filesystem_read;
  filesystem_write = intersect_path_scopes left.filesystem_write right.filesystem_write;
  filesystem_delete = intersect_path_scopes left.filesystem_delete right.filesystem_delete;
  process = left.process && right.process;
  network = intersect_exact_scopes left.network right.network;
  secrets = intersect_exact_scopes left.secrets right.secrets;
  external_write = intersect_exact_scopes left.external_write right.external_write;
  expires_at = earliest left.expires_at right.expires_at;
}

-- `reduce`, on the first grant and the others.
unfoldable pub intersect_onto : CapabilityGrant → List CapabilityGrant → CapabilityGrant
unfolding intersect_two
intersect_onto left [] = left
intersect_onto left (right ∷ grants) = intersect_onto (intersect_two left right) grants

unfoldable pub intersect_grants : List CapabilityGrant → CapabilityGrant
unfolding intersect_onto
intersect_grants [] = observe_grant
intersect_grants (g ∷ grants) = intersect_onto g grants
