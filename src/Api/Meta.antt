-- ===== src/Api/Meta.antt =====
-- Object metadata and owner references, as the controllers use them
-- (k8s.io/apimachinery/pkg/apis/meta/v1, controller_ref.go).
use memcached_operator.Prelude.{
  ℕ, String, ◌==◌, Bool, true, false, Option, none, some, List, [], Dict, ℤ, find_first,
}

pub record OwnerReference : Type 0 where
  pub api_version : String
  pub kind : String
  pub name : String
  pub uid : String
  pub controller : Option Bool
  pub block_owner_deletion : Option Bool

-- Names, generation and creation time are set by the API server. A creation time counts
-- nanoseconds from the zero time of Go.
pub record ObjectMeta : Type 0 where
  pub name : String
  pub generate_name : String
  pub namespace : String
  pub uid : String
  pub resource_version : String
  pub generation : ℤ
  pub creation_timestamp : ℕ
  pub labels : Dict String
  pub owner_references : List OwnerReference

-- `ref.Controller != nil && *ref.Controller`
abbrev is_controller : OwnerReference → Bool
is_controller r = elim r.controller [ none ↦ false | some b ↦ b ]

-- The first reference that is marked as controller.
unfoldable pub get_controller_of : ObjectMeta → Option OwnerReference
get_controller_of m = find_first is_controller m.owner_references

unfoldable pub is_controlled_by : ObjectMeta → ObjectMeta → Bool
unfolding get_controller_of
is_controlled_by m owner = elim (get_controller_of m) [ none ↦ false | some r ↦ r.uid == owner.uid ]

-- schema.GroupVersionKind, with the group and version as one text.
pub record Kind : Type 0 where
  pub group_version : String
  pub kind : String

unfoldable pub new_controller_ref : ObjectMeta → Kind → OwnerReference
new_controller_ref owner gvk = record {
  api_version = gvk.group_version;
  kind = gvk.kind;
  name = owner.name;
  uid = owner.uid;
  controller = some true;
  block_owner_deletion = some true;
}

-- The metadata of an object that a controller is about to create.
abbrev pub blank_meta : ObjectMeta
blank_meta = record {
  name = "";
  generate_name = "";
  namespace = "";
  uid = "";
  resource_version = "";
  generation = ℤ.pos 0;
  creation_timestamp = 0;
  labels = [];
  owner_references = [];
}
