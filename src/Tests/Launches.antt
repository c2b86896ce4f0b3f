-- ===== src/Tests/Launches.antt =====
-- The first Deployment of a proxy, with the first ConfigMap in the cache.
use memcached_operator.Prelude.{◌≡◌, refl, [], ◌∷◌, ℤ}
use memcached_operator.Api.Objects.{Deployment}
use memcached_operator.Runtime.Effects.{Effect}
use memcached_operator.ProxyService.{new_service}
use memcached_operator.ProxyDeployment.{sync_proxy}
use memcached_operator.ProxyDeployment.Laws.Wiring.{IsWired}
use memcached_operator.ProxyConfigMap.Handler.{new_config_map}
use memcached_operator.System.Rollout.{with_new_config_map}
use memcached_operator.System.Launch.{launch_event, launch_result, sync_proxy-launches}
use memcached_operator.Tests.Data.{env, proxy_meta, ready, fresh}
use memcached_operator.Tests.Sorting.{insertion_sort-SortsSlice}

sync_proxy-launches_example :
    (d : Deployment) × (sync_proxy env "p" ready (with_new_config_map env ready fresh "{}")
      ≡ record {
        result = launch_result proxy_meta (env.on_create_deployment d);
        cache = with_new_config_map env ready fresh "{}";
        effects =
            Effect.create_deployment "default" d
            ∷ launch_event proxy_meta (env.on_create_deployment d)
            ∷ [];
      })
    × IsWired ready
        (new_config_map env ready "{}")
        d
        (new_service env "default" ready (ℤ.pos 11211))
sync_proxy-launches_example =
    sync_proxy-launches env "p" ready fresh "{}" (ℤ.pos 11211) refl refl insertion_sort-SortsSlice
      refl refl refl refl
