-- ===== src/System/Launch.antt =====
-- The first Deployment of a proxy: what the deployment controller makes of the first ConfigMap.
use mathlib.Core.List.Perm
use memcached_operator.Prelude.{String, ◌≡◌, refl, ap, ◌∙◌, none, some, List, [], ◌∷◌, ℤ}
use memcached_operator.Api.Meta.{ObjectMeta}
use memcached_operator.Api.Proxy.{MemcachedProxy}
use memcached_operator.Api.Objects.{ConfigMap, Deployment}
use memcached_operator.Operator.Lookup.{
  get_deployments_for_proxy, get_config_map_for_proxy, newer, split_first,
}
use memcached_operator.Operator.Lookup.Newest.{
  SortsSlice, newer-IsStrictWeak, controlled, get_deployments_for_proxy-listed,
}
use memcached_operator.Runtime.Effects.{Effect, normal, warning, Arg, wrapped}
use memcached_operator.Runtime.Env.{Env, Resource, Answer}
use memcached_operator.Runtime.Sync.{Cache, Result, ok, err, pure, ◌>>=◌, lift}
use memcached_operator.ProxyService.{new_service}
use memcached_operator.ProxyDeployment.{sync_proxy, create_deployment, conclude, full_name}
use memcached_operator.ProxyDeployment.Template.{deployment_for_proxy, new_deployment, deref}
use memcached_operator.ProxyDeployment.Laws.Handler.{sync_proxy-found, clean_up-none}
use memcached_operator.ProxyDeployment.Laws.Wiring.{IsWired, new_deployment-IsWired}
use memcached_operator.ProxyConfigMap.Handler.{new_config_map}
use memcached_operator.System.Rollout.{with_new_config_map, controlled_maps, one_found}

-- The event and the result after the API server has answered.
abbrev pub launch_event : ObjectMeta → Answer Deployment → Effect
launch_event p (d, none) =
    Effect.event p normal "MemcachedProxyDeploymentCreated" "deployment %q created"
      (Arg.str (full_name d.meta) ∷ [])
launch_event p (d, some e) =
    Effect.event p warning "MemcachedProxyDeploymentCreateError"
      "failed to create deployment for %q: %v" (Arg.str (full_name p) ∷ Arg.err e ∷ [])

abbrev pub launch_result : ObjectMeta → Answer Deployment → Result Unit
launch_result p (d, none) = ok tt
launch_result p (d, some e) = err (wrapped "failed to create deployment for %q: %v" (full_name p) e)

concluded :
    (p : ObjectMeta) (answer : Answer Deployment) (c : Cache)
    → conclude p "MemcachedProxyDeploymentCreated" "deployment %q created"
        "MemcachedProxyDeploymentCreateError" "failed to create deployment for %q: %v"
        (answer.0.meta, answer.1)
        c
      ≡ record { result = launch_result p answer; cache = c; effects = launch_event p answer ∷ [] }
concluded p (d, none) c = refl
concluded p (d, some e) c = refl

module _ (env : Env) (p : MemcachedProxy) (c : Cache) where
  nothing_found :
      (sorts : SortsSlice env.sort_slice)
      → env.lister_error Resource.deployments ≡ none
      → controlled p.meta c ≡ []
      → get_deployments_for_proxy env p.meta c ≡ pure (none, []) c
  nothing_found sorts listed no_deployment =
      get_deployments_for_proxy-listed env p.meta c listed
      ∙ ap (λ (ds : List Deployment). pure (split_first ds) c)
          (ap (env.sort_slice newer) no_deployment
            ∙ Perm.eq-nil (sorts.perm newer [] newer-IsStrictWeak))

  made_of_map :
      (cm : ConfigMap) (port : ℤ)
      → get_config_map_for_proxy env p.meta c ≡ pure (some cm) c
      → p.spec.mc_router.port ≡ some port
      → deployment_for_proxy env p c ≡ pure (new_deployment env.libs p port cm) c
  unfolding deployment_for_proxy
  made_of_map cm port found given =
      rw found (ap (λ o. (lift (deref o) >>= λ x. pure (new_deployment env.libs p x cm)) c) given)

  created :
      (d : Deployment)
      → deployment_for_proxy env p c ≡ pure d c
      → create_deployment env p c ≡ record {
        result = launch_result p.meta (env.on_create_deployment d);
        cache = c;
        effects =
            Effect.create_deployment p.meta.namespace d
            ∷ launch_event p.meta (env.on_create_deployment d)
            ∷ [];
      }
  unfolding create_deployment
  created d made = rw (made, concluded p.meta (env.on_create_deployment d) c)

-- Suppose sort.Slice keeps its contract, the listers of deployments and config maps give no
-- error, and a proxy with a port and an observed generation controls no deployment and no config
-- map in the cache. Once the config map that its controller makes for a configuration is in the
-- cache, the only API call of syncHandler of the deployment controller creates a Deployment, an
-- event with the answer follows, the error of the API server is returned and the cache stays as
-- it is. The Deployment fits together, in the sense of new_deployment-IsWired, with this config
-- map and with the Service that the service controller makes for the same port.
pub sync_proxy-launches :
    (env : Env) (k : String) (p : MemcachedProxy) (c : Cache) (config : String) (port : ℤ)
    → p.meta.generation ≡ p.status.observed_generation
    → p.spec.mc_router.port ≡ some port
    → SortsSlice env.sort_slice
    → env.lister_error Resource.deployments ≡ none
    → env.lister_error Resource.config_maps ≡ none
    → controlled p.meta c ≡ []
    → controlled_maps env p c c.config_maps ≡ []
    → (d : Deployment) × (sync_proxy env k p (with_new_config_map env p c config) ≡ record {
      result = launch_result p.meta (env.on_create_deployment d);
      cache = with_new_config_map env p c config;
      effects =
          Effect.create_deployment p.meta.namespace d
          ∷ launch_event p.meta (env.on_create_deployment d)
          ∷ [];
    })
      × IsWired p (new_config_map env p config) d (new_service env p.meta.namespace p port)
sync_proxy-launches env k p c config port observed given sorts listed maps_listed no_deployment
      no_map =
    let cm = new_config_map env p config in
    let c' = with_new_config_map env p c config in
    let d = new_deployment env.libs p port cm in
    (
      d,
      sync_proxy-found env k p c' observed (none, [])
            (nothing_found env p c' sorts listed no_deployment)
          ∙ clean_up-none env k p c' observed (create_deployment env p)
          ∙ created env p c' d
              (made_of_map env p c' cm port (one_found env p c maps_listed config no_map) given),
      new_deployment-IsWired env p port cm,
    )
