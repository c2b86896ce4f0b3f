-- ===== src/Runtime/Listers/Safety.antt =====
-- The listers never panic.
use memcached_operator.Prelude.{String, ◌≢◌, Option, none, some, List, Bool, inl, inr, Option-cases}
use memcached_operator.Api.Meta.{ObjectMeta}
use memcached_operator.Runtime.Effects.{Error}
use memcached_operator.Runtime.Env.{Env, Resource}
use memcached_operator.Runtime.Sync.{Cache, panic, ◌>>=◌, ◌>>◌, lift, gets, check}
use memcached_operator.Runtime.Listers.{
  found, get_proxy, get_config_map, list_config_maps, list_deployments, list_replica_sets,
  get_service, get_endpoints, split_or_fail,
}
use memcached_operator.Runtime.Safety.{IsSafe, check-IsSafe, bind-IsSafe}

found-ne-panic : {A : Type 0} (o : Option A) → found o ≢ panic
found-ne-panic none h = cc
found-ne-panic (some a) h = cc

-- A lister that finds one object, and one that lists some.
module _ (e : Option Error) where
  get-IsSafe :
      {A : Type 0} (search : Cache → Option A)
      → IsSafe (check e >> (gets search >>= λ o. lift (found o)))
  get-IsSafe search = bind-IsSafe (check e) _ (check-IsSafe e) (λ u c. found-ne-panic (search c))

  pub list-IsSafe : {A : Type 0} (list : Cache → List A) → IsSafe (check e >> gets list)
  list-IsSafe list = bind-IsSafe (check e) _ (check-IsSafe e) (λ u c h. cc)

module _ (env : Env) where
  pub get_config_map-IsSafe : (ns name : String) → IsSafe (get_config_map env ns name)
  unfolding get_config_map
  get_config_map-IsSafe ns name = get-IsSafe (env.lister_error Resource.config_maps) _

  pub get_service-IsSafe : (ns name : String) → IsSafe (get_service env ns name)
  unfolding get_service
  get_service-IsSafe ns name = get-IsSafe (env.lister_error Resource.services) _

  pub get_endpoints-IsSafe : (ns name : String) → IsSafe (get_endpoints env ns name)
  unfolding get_endpoints
  get_endpoints-IsSafe ns name = get-IsSafe (env.lister_error Resource.endpoints) _

  pub get_proxy-IsSafe : (ns name : String) → IsSafe (get_proxy env ns name)
  unfolding get_proxy
  get_proxy-IsSafe ns name = get-IsSafe (env.lister_error Resource.proxies) _

  pub list_deployments-IsSafe : (ns : String) → IsSafe (list_deployments env ns)
  unfolding list_deployments
  list_deployments-IsSafe ns = list-IsSafe (env.lister_error Resource.deployments) _

  pub list_config_maps-IsSafe : (ns : String) → IsSafe (list_config_maps env ns)
  unfolding list_config_maps
  list_config_maps-IsSafe ns = list-IsSafe (env.lister_error Resource.config_maps) _

  pub list_replica_sets-IsSafe :
      (ns : String) (selects : ObjectMeta → Bool) → IsSafe (list_replica_sets env ns selects)
  unfolding list_replica_sets
  list_replica_sets-IsSafe ns selects = list-IsSafe (env.lister_error Resource.replica_sets) _

  pub split-ne-panic : (k : String) → split_or_fail env k ≢ panic
  split-ne-panic k = elim (Option-cases (env.split_key k)) [
    | inl e ↦ rw (split_or_fail, e) (λ h. cc)
    | inr (parts, e) ↦ rw (split_or_fail, e) (λ h. cc)
  ]
