-- ===== src/Operator/Owners.antt =====
-- Owner references: internal/controller/meta.go and internal/util/ownerref/ownerref.go.
use memcached_operator.Prelude.{String, ◌==◌, Bool, true, false, some, exists}
use memcached_operator.Api.Meta.{ObjectMeta, OwnerReference, Kind}

-- v1alpha1.SchemeGroupVersion.String()
abbrev pub scheme_group_version : String
scheme_group_version = "ianlewis.org/v1alpha1"

abbrev pub memcached_proxy_type : Kind
memcached_proxy_type = record { group_version = scheme_group_version; kind = "MemcachedProxy" }

abbrev pub replica_set_type : Kind
replica_set_type = record { group_version = "apps/v1"; kind = "ReplicaSet" }

unfoldable pub new_proxy_owner_ref : ObjectMeta → OwnerReference
new_proxy_owner_ref c = record {
  api_version = memcached_proxy_type.group_version;
  kind = memcached_proxy_type.kind;
  name = c.name;
  uid = c.uid;
  controller = some true;
  block_owner_deletion = some true;
}

unfoldable pub is_owned_by : ObjectMeta → ObjectMeta → Bool
is_owned_by obj owner = exists (λ ref. ref.uid == owner.uid) obj.owner_references

unfoldable pub new_owner_ref : ObjectMeta → Kind → OwnerReference
new_owner_ref owner gvk = record {
  api_version = gvk.group_version;
  kind = gvk.kind;
  name = owner.name;
  uid = owner.uid;
  controller = some false;
  block_owner_deletion = some true;
}
