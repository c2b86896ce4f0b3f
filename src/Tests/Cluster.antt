-- ===== src/Tests/Cluster.antt =====
-- A proxy over time, and what one controller leaves to the next.
use memcached_operator.System.Turns.{Turn, serve, deliver, turns}
use memcached_operator.System.Rounds.{Delivered, turns-ok}
use memcached_operator.Operator.Names.{get_proxy_service_name, make_name}
use memcached_operator.System.Convergence.{Finds, HasNoService, Converges, sync_handler-Converges}
use memcached_operator.System.Deployments.{deployment_turns-ok}
use memcached_operator.ProxyDeployment
use memcached_operator.System.Loop.{workers-ok}
use memcached_operator.Prelude.{◌≡◌, refl, inl, inr, true, [], ◌∷◌, List}
use memcached_operator.Api.Objects.{Deployment}
use memcached_operator.Api.Proxy.{MemcachedProxy, apply_defaults, default_spec}
use memcached_operator.Runtime.Effects.{Effect, key, other, queue, add_rate_limited}
use memcached_operator.Runtime.Sync.{ok, Cache}
use memcached_operator.Proxy
use memcached_operator.Proxy.{update_status}
use memcached_operator.Proxy.Laws.{settled, sync_proxy-writes}
use memcached_operator.ProxyService
use memcached_operator.ProxyDeployment.{update_deployment}
use memcached_operator.ProxyDeployment.Laws.Handler.{update_event}
use memcached_operator.ProxyConfigMap.Owners.{is_latest}
use memcached_operator.ProxyConfigMap.Handler
use memcached_operator.ProxyConfigMap.Handler.{new_config_map}
use memcached_operator.System.Steps.{accept, Reachable, here, step, Reachable-default_spec}
use memcached_operator.System.Rollout.{with_new_config_map, update_deployment-follows}
use memcached_operator.Tests.Data.{env, draft, ready, deployment, fresh, refusing}
use memcached_operator.Tests.Defaults.{status-draft}
use memcached_operator.Tests.Deployments.{sources}
use memcached_operator.Tests.Sorting.{insertion_sort-SortsSlice}

-- The draft after the proxy controller has written it.
abbrev written : MemcachedProxy
written = record (settled draft) { meta = draft.meta }

generation-settled : draft.meta.generation ≡ (settled draft).meta.generation
unfolding update_status apply_defaults
generation-settled = refl

reach_written : Reachable draft written
reach_written = step here (
    accept env "p" (settled draft).meta.namespace fresh (settled draft) draft.meta
      (sync_proxy-writes env "p" draft fresh (inr status-draft)) refl (inl generation-settled))

observed_written : written.meta.generation ≡ written.status.observed_generation
unfolding update_status apply_defaults
observed_written = refl

Reachable-default_spec_example : written.spec ≡ default_spec "default" written.spec
Reachable-default_spec_example =
    Reachable-default_spec draft written (λ observed. cc) reach_written observed_written

update_deployment-follows_example :
    (d' : Deployment) × ((update_deployment env ready
        (deployment "d" 1)
        (with_new_config_map env ready fresh "{}")).effects
      ≡ Effect.update_deployment "default" d'
        ∷ update_event env ready
            (deployment "d" 1)
            (with_new_config_map env ready fresh "{}")
            (new_config_map env ready "{}")
        ∷ [])
    × (is_latest d' (new_config_map env ready "{}") ≡ true)
update_deployment-follows_example =
    update_deployment-follows env ready fresh refl "{}" (deployment "d" 1) refl sources (inl refl)

workers-ok_example :
    ((Proxy.worker refusing (key "p" ∷ other ∷ key "q" ∷ []) fresh).result ≡ ok tt)
    × ((Handler.worker refusing (key "p" ∷ other ∷ []) fresh).result ≡ ok tt)
workers-ok_example =
    workers-ok refusing (key "p" ∷ other ∷ key "q" ∷ []) (key "p" ∷ other ∷ []) fresh fresh

written-Delivered : Delivered written
written-Delivered = (draft, (λ observed. cc), reach_written)

-- A cache that has the written proxy, and one that lags behind.
abbrev caught_up : Cache
caught_up = record fresh { proxies = written ∷ [] }

abbrev lagging : Cache
lagging = record fresh { proxies = draft ∷ [] }

abbrev schedule : List Turn
schedule = serve env (key "p") ∷ deliver caught_up ∷ serve refusing (key "p") ∷ serve env other ∷ []

turns-ok_example : (turns ProxyService.sync_handler schedule lagging).result ≡ ok tt
turns-ok_example =
    turns-ok schedule lagging ((draft, (λ observed. cc), here), tt)
      (tt, ((written-Delivered, tt), (tt, (tt, tt))))

-- The deployment of the proxy is in both caches.
abbrev running : Cache
running = record caught_up { deployments = deployment "d" 1 ∷ [] }

abbrev behind : Cache
behind = record lagging { deployments = deployment "d" 1 ∷ [] }

abbrev shifts : List Turn
shifts = serve env (key "p") ∷ deliver running ∷ serve refusing (key "p") ∷ serve env other ∷ []

deployment_turns-ok_example : (turns ProxyDeployment.sync_handler shifts behind).result ≡ ok tt
deployment_turns-ok_example =
    deployment_turns-ok shifts behind (((draft, (λ observed. cc), here), tt), (sources, tt))
      (
        insertion_sort-SortsSlice,
        (
          ((written-Delivered, tt), (sources, tt)),
          (insertion_sort-SortsSlice, (insertion_sort-SortsSlice, tt)),
        ),
      )

Finds-draft : Finds env "p" "default" "p" draft lagging
Finds-draft = record { split = refl; proxies_listed = refl; services_listed = refl; found = refl }

Finds-written : Finds env "p" "default" "p" written caught_up
Finds-written = record { split = refl; proxies_listed = refl; services_listed = refl; found = refl }

HasNoService-written : HasNoService env "p" "default" written caught_up
unfolding get_proxy_service_name make_name
HasNoService-written = refl

sync_handler-Converges_example :
    (ProxyService.sync_handler env "p" lagging ≡ record {
      result = ok tt;
      cache = lagging;
      effects = queue (add_rate_limited (key "p")) ∷ [];
    })
    × ((Proxy.sync_handler env "p" lagging).effects
        ≡ Effect.update_proxy (settled draft).meta.namespace (settled draft) ∷ [])
    × Converges env "p" "default" written caught_up
sync_handler-Converges_example =
    sync_handler-Converges env "p" "default" "p" draft draft.meta lagging caught_up (λ e. cc) refl
      refl Finds-draft Finds-written HasNoService-written
