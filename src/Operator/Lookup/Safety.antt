-- ===== src/Operator/Lookup/Safety.antt =====
-- The lookups of the objects of a proxy never panic.
use memcached_operator.Prelude.{◌≢◌, refl, Option, List, keep, [], ◌∷◌}
use memcached_operator.Api.Meta.{ObjectMeta, is_controlled_by}
use memcached_operator.Api.Objects.{ConfigMap, Deployment}
use memcached_operator.Operator.Lookup.{
  get_deployments_for_proxy, get_config_maps_for_proxy, get_config_map_for_proxy, on_list, single,
}
use memcached_operator.Runtime.Env.{Env}
use memcached_operator.Runtime.Sync.{Result, ok, err, panic, pure, lift}
use memcached_operator.Runtime.Listers.{list_deployments, list_config_maps}
use memcached_operator.Runtime.Listers.Safety.{list_deployments-IsSafe, list_config_maps-IsSafe}
use memcached_operator.Runtime.Safety.{IsSafe, bind-IsSafe}

module _ (env : Env) where
  on_list-ne-panic :
      (f : List Deployment → Option Deployment × List Deployment) (r : Result (List Deployment))
      → r ≢ panic
      → on_list f r ≢ panic
  on_list-ne-panic f (ok ds) h k = cc
  on_list-ne-panic f (err e) h k = cc
  on_list-ne-panic f panic h k = absurd (h refl)

  pub get_deployments-IsSafe : (p : ObjectMeta) → IsSafe (get_deployments_for_proxy env p)
  unfolding get_deployments_for_proxy
  get_deployments-IsSafe p c =
      on_list-ne-panic _ (list_deployments env p.namespace c).result
        (list_deployments-IsSafe env p.namespace c)

  pub get_config_maps-IsSafe : (p : ObjectMeta) → IsSafe (get_config_maps_for_proxy env p)
  unfolding get_config_maps_for_proxy
  get_config_maps-IsSafe p =
      bind-IsSafe (list_config_maps env p.namespace)
        (λ cm_list. pure (keep (λ cm. is_controlled_by cm.meta p) cm_list))
        (list_config_maps-IsSafe env p.namespace) (λ l c h. cc)

  single-ne-panic : (p : ObjectMeta) (cms : List ConfigMap) → single p cms ≢ panic
  single-ne-panic p [] h = cc
  single-ne-panic p (cm ∷ []) h = cc
  single-ne-panic p (cm ∷ cm' ∷ cms) h = cc

  pub get_config_map-IsSafe : (p : ObjectMeta) → IsSafe (get_config_map_for_proxy env p)
  unfolding get_config_map_for_proxy
  get_config_map-IsSafe p =
      bind-IsSafe (get_config_maps_for_proxy env p) (λ cms. lift (single p cms))
        (get_config_maps-IsSafe p) (λ cms c. single-ne-panic p cms)
