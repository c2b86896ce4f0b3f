-- ===== src/ProxyConfigMap/Owners/Safety.antt =====
-- applyOwnerRefToCM never panics.
use memcached_operator.Prelude.{◌≢◌, inl, inr, Option, none, some, Option-cases}
use memcached_operator.Api.Meta.{ObjectMeta}
use memcached_operator.Api.Objects.{ConfigMap, Deployment, ReplicaSet}
use memcached_operator.Operator.Lookup.{get_deployments_for_proxy}
use memcached_operator.Runtime.Env.{Env}
use memcached_operator.Runtime.Sync.{panic, lift}
use memcached_operator.Runtime.Listers.{list_replica_sets, store_config_map}
use memcached_operator.Runtime.Listers.Safety.{list_replica_sets-IsSafe}
use memcached_operator.Operator.Lookup.Safety.{get_deployments-IsSafe}
use memcached_operator.Runtime.Safety.{IsSafe, bind-IsSafe}
use memcached_operator.ProxyConfigMap.Owners.{
  selector_or_fail, replica_set_of, get_new_rs_for_proxy, apply_owner_ref_to_cm, release,
}

module _ (env : Env) where
  selector_or_fail-ne-panic : (d : Deployment) → selector_or_fail env d ≢ panic
  selector_or_fail-ne-panic d = elim (Option-cases (env.as_selector d.selector)) [
    | inl e ↦ rw (selector_or_fail, e) (λ h. cc)
    | inr (selects, e) ↦ rw (selector_or_fail, e) (λ h. cc)
  ]

  replica_set_of-IsSafe : (p : ObjectMeta) (d : Option Deployment) → IsSafe (replica_set_of env p d)
  replica_set_of-IsSafe p none = λ c h. cc
  replica_set_of-IsSafe p (some d) =
      bind-IsSafe (lift (selector_or_fail env d)) _ (λ c. selector_or_fail-ne-panic d)
        (λ selects.
          bind-IsSafe (list_replica_sets env p.namespace selects) _
            (list_replica_sets-IsSafe env p.namespace selects) (λ rs c h. cc))

  get_new_rs-IsSafe : (p : ObjectMeta) → IsSafe (get_new_rs_for_proxy env p)
  unfolding get_new_rs_for_proxy
  get_new_rs-IsSafe p =
      bind-IsSafe (get_deployments_for_proxy env p) _ (get_deployments-IsSafe env p)
        (λ ds. replica_set_of-IsSafe p ds.0)

  release-IsSafe :
      (p : ObjectMeta) (cm : ConfigMap) (rs : Option ReplicaSet) → IsSafe (release env p cm rs)
  unfolding store_config_map
  release-IsSafe p cm none c h = cc
  release-IsSafe p cm (some rs) c h = cc

  pub apply_owner_ref_to_cm-IsSafe :
      (p : ObjectMeta) (cm : ConfigMap) → IsSafe (apply_owner_ref_to_cm env p cm)
  unfolding apply_owner_ref_to_cm
  apply_owner_ref_to_cm-IsSafe p cm =
      bind-IsSafe (get_new_rs_for_proxy env p) _ (get_new_rs-IsSafe p) (release-IsSafe p cm)
