-- ===== src/ProxyConfigMap/Owners.antt =====
-- Which ReplicaSet uses a ConfigMap, and the owner references that say so: reuseConfigMap,
-- applyOwnerRefToCM, EqualIgnoreHash and getNewRSForProxy of controller.go.
pub mod Laws
pub mod Safety
use memcached_operator.Prelude.{
  String, ◌==◌, Bool, false, not, Option, none, some, List, [], ◌∷◌, ◌++◌, delete, keep, find_first,
  exists, if◌then◌else◌,
}
use memcached_operator.Api.Meta.{ObjectMeta, OwnerReference, new_controller_ref}
use memcached_operator.Api.Objects.{
  ConfigMap, VolumeSource, config_map, empty_dir, other_source, PodTemplateSpec, Deployment,
  ReplicaSet,
}
use memcached_operator.Operator.Owners.{
  memcached_proxy_type, replica_set_type, is_owned_by, new_owner_ref,
}
use memcached_operator.Operator.Lookup.{get_deployments_for_proxy}
use memcached_operator.Runtime.Effects.{errorf}
use memcached_operator.Runtime.Env.{Env, Libs}
use memcached_operator.Runtime.Sync.{Result, ok, err, Sync, ◌>>=◌, ◌>>◌, pure, lift}
use memcached_operator.Runtime.Listers.{list_replica_sets, store_config_map}

-- Equality of templates but for the label pod-template-hash.
unfoldable pub equal_ignore_hash : Libs → PodTemplateSpec → PodTemplateSpec → Bool
equal_ignore_hash libs template1 template2 =
    libs.semantic_equal (record template1 { labels = delete "pod-template-hash" template1.labels })
      (record template2 { labels = delete "pod-template-hash" template2.labels })

abbrev pub source_is : String → VolumeSource → Bool
source_is name (config_map n) = n == name
source_is name empty_dir = false
source_is name other_source = false

-- Whether a volume of the deployment refers to the config map.
unfoldable pub is_latest : Deployment → ConfigMap → Bool
is_latest d cm = exists (λ v. source_is cm.meta.name v.source) d.template.volumes

-- SetOwnerReferences
abbrev pub with_owners : ConfigMap → List OwnerReference → ConfigMap
with_owners cm refs = record cm { meta = record cm.meta { owner_references = refs } }

-- The config map that reuseConfigMap sends: owned by the proxy again, unless it is the latest.
unfoldable pub reused : ObjectMeta → Deployment → ConfigMap → ConfigMap
unfolding is_latest
reused p d cm =
    if not (is_latest d cm)
    then with_owners cm (cm.meta.owner_references ++ new_controller_ref p memcached_proxy_type ∷ [])
    else cm

-- The references of a config map after applyOwnerRefToCM has found the replica set.
unfoldable pub released_owners : ObjectMeta → ReplicaSet → ConfigMap → List OwnerReference
released_owners p rs cm =
    let refs =
      if not (is_owned_by cm.meta rs.meta)
      then cm.meta.owner_references ++ new_owner_ref rs.meta replica_set_type ∷ []
      else cm.meta.owner_references in
    keep (λ ref. not (ref.uid == p.uid)) refs

module _ (env : Env) where
  abbrev pub selector_or_fail : Deployment → Result (ObjectMeta → Bool)
  selector_or_fail d = elim (env.as_selector d.selector) [
    | none ↦ err (errorf "invalid selector" [])
    | some selects ↦ ok (λ m. selects m.labels)
  ]

  -- The first replica set whose template is that of the deployment.
  abbrev pub new_replica_set : Deployment → List ReplicaSet → Option ReplicaSet
  new_replica_set d rs_list =
      find_first (λ rs. equal_ignore_hash env.libs rs.template d.template) rs_list

  abbrev pub replica_set_of : ObjectMeta → Option Deployment → Sync (Option ReplicaSet)
  replica_set_of p none = pure none
  replica_set_of p (some d) = do
    selects ← lift (selector_or_fail d)
    rs_list ← list_replica_sets env p.namespace selects
    pure (new_replica_set d rs_list)

  unfoldable pub get_new_rs_for_proxy : ObjectMeta → Sync (Option ReplicaSet)
  unfolding equal_ignore_hash
  get_new_rs_for_proxy p = do found ← get_deployments_for_proxy env p; replica_set_of p found.0

  abbrev pub release : ObjectMeta → ConfigMap → Option ReplicaSet → Sync (Option ConfigMap)
  release p cm none = pure none
  release p cm (some rs) = do
    let cm' = with_owners cm (released_owners p rs cm)
    store_config_map cm'
    pure (some cm')

  -- The config map with its new owners, if a replica set uses it. The write is to the cache.
  unfoldable pub apply_owner_ref_to_cm : ObjectMeta → ConfigMap → Sync (Option ConfigMap)
  unfolding get_new_rs_for_proxy released_owners
  apply_owner_ref_to_cm p cm = do rs ← get_new_rs_for_proxy p; release p cm rs
