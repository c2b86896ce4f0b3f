-- ===== src/Tests/ConfigMaps.antt =====
-- The ConfigMap controller: a new config map, its release to a replica set, and changed endpoints.
use memcached_operator.ProxyConfigMap.Handler.Reuse.{with_reused, reuse_config_map_lem}
use memcached_operator.Prelude.{
  String, ◌==◌, ◌≡◌, ◌↔◌, refl, true, false, not, ◌&&◌, ◌||◌, none, some, List, [], ◌∷◌, map, Any,
  same_map, delete, ◌⊎◌,
}
use memcached_operator.Api.Meta.{is_controlled_by}
use memcached_operator.Operator.Owners.{is_owned_by}
use memcached_operator.Operator.Lookup.{get_deployments_for_proxy, get_config_maps_for_proxy}
use memcached_operator.Runtime.Effects.{Effect, create, update, queue, add, add_rate_limited, key}
use memcached_operator.Runtime.Sync.{Cache, ok, pure}
use memcached_operator.Runtime.Listers.{list_deployments, list_config_maps, list_replica_sets}
use memcached_operator.ProxyConfigMap.Config.{config_json}
use memcached_operator.ProxyConfigMap.Routes.Shape.{leaf_services}
use memcached_operator.ProxyConfigMap.Owners.{get_new_rs_for_proxy, reused, is_latest}
use memcached_operator.ProxyConfigMap.Owners.Laws.{released, is_owned_by-released}
use memcached_operator.ProxyConfigMap.Affected.{add_endpoints}
use memcached_operator.ProxyConfigMap.Affected.Laws.{member}
use memcached_operator.ProxyConfigMap.Affected.Enqueued.{Named, Clear, add_endpoints-enqueues}
use memcached_operator.ProxyConfigMap.Handler.{
  record_config_map_event, new_config_map, sync_proxy, reuse_config_map,
}
use memcached_operator.ProxyConfigMap.Handler.Laws.{
  with_released, sync_proxy-releases, sync_proxy-creates_config_map,
}
use memcached_operator.Tests.Data.{env, proxy_meta, ready, cm, rs, deployment, endpoints_a, fresh}
use memcached_operator.Tests.Configs.{config, made}

-- One new config map, and a replica set that uses it.
abbrev rolled_out : Cache
rolled_out = record fresh {
  config_maps = cm ∷ [];
  deployments = deployment "d" 1 ∷ [];
  replica_sets = rs ∷ [];
}

one_map : get_config_maps_for_proxy env proxy_meta rolled_out ≡ pure (cm ∷ []) rolled_out
unfolding get_config_maps_for_proxy list_config_maps is_controlled_by
one_map = refl

new_rs : get_new_rs_for_proxy env proxy_meta rolled_out ≡ pure (some rs) rolled_out
unfolding get_new_rs_for_proxy get_deployments_for_proxy list_deployments list_replica_sets
    is_controlled_by same_map delete
new_rs = refl

no_map : get_config_maps_for_proxy env proxy_meta fresh ≡ pure [] fresh
unfolding get_config_maps_for_proxy list_config_maps
no_map = refl

is_owned_by-released_example :
    is_owned_by (released proxy_meta rs cm).meta rs.meta
    ≡ not ("r" == "u") && (is_owned_by cm.meta rs.meta || ("r" == "r"))
is_owned_by-released_example = is_owned_by-released proxy_meta rs cm rs.meta

controlled-cm : is_controlled_by cm.meta proxy_meta ≡ true
unfolding is_controlled_by
controlled-cm = refl

sync_proxy-releases_example : sync_proxy env "p" "default" ready rolled_out ≡ record {
  result = ok tt;
  cache = with_released env proxy_meta cm rolled_out rs;
  effects =
      Effect.update_config_map "default" (released proxy_meta rs cm)
      ∷ record_config_map_event update proxy_meta (released proxy_meta rs cm) none
      ∷ queue (add_rate_limited (key "p"))
      ∷ [];
}
sync_proxy-releases_example =
    sync_proxy-releases env "p" "default" ready rolled_out refl cm one_map rs new_rs

sync_proxy-creates_config_map_example : sync_proxy env "p" "default" ready fresh ≡ record {
  result = ok tt;
  cache = fresh;
  effects =
      Effect.create_config_map "default"
        (new_config_map env ready (env.marshal (config_json config)))
      ∷ record_config_map_event create proxy_meta
          (new_config_map env ready (env.marshal (config_json config)))
          none
      ∷ queue (add_rate_limited (key "p"))
      ∷ [];
}
sync_proxy-creates_config_map_example =
    sync_proxy-creates_config_map env "p" "default" ready fresh refl no_map config made refl refl

Clear-ready : Clear endpoints_a ready
unfolding leaf_services
Clear-ready = ((λ e. refl), tt)

add_endpoints-enqueues_example :
    (ks : List String) × (add_endpoints env "default" endpoints_a fresh
      ≡ record { result = ok tt; cache = fresh; effects = map (λ k. queue (add (key k))) ks })
    × ((k : String) → (member k ks ≡ true) ↔ Any (Named endpoints_a k) (ready ∷ []))
add_endpoints-enqueues_example =
    add_endpoints-enqueues env "default" (λ m. refl) endpoints_a fresh refl (tt, tt)
      (Clear-ready, tt)

found_deployment :
    get_deployments_for_proxy env proxy_meta rolled_out
    ≡ pure (some (deployment "d" 1), []) rolled_out
unfolding get_deployments_for_proxy list_deployments is_controlled_by
found_deployment = refl

reuse_config_map_lem_example :
    (reuse_config_map env proxy_meta cm rolled_out ≡ record {
      result = ok tt;
      cache = with_reused env proxy_meta cm (deployment "d" 1) rolled_out;
      effects =
          Effect.update_config_map
            (reused proxy_meta (deployment "d" 1) cm).meta.namespace
            (reused proxy_meta (deployment "d" 1) cm)
          ∷ record_config_map_event update proxy_meta (reused proxy_meta (deployment "d" 1) cm) none
          ∷ [];
    })
    × (((is_latest (deployment "d" 1) cm ≡ true) × (reused proxy_meta (deployment "d" 1) cm ≡ cm))
        ⊎ ((is_latest (deployment "d" 1) cm ≡ false)
            × (is_owned_by (reused proxy_meta (deployment "d" 1) cm).meta proxy_meta ≡ true)))
reuse_config_map_lem_example =
    reuse_config_map_lem env proxy_meta cm (deployment "d" 1) rolled_out [] found_deployment
