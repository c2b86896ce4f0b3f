-- ===== src/ProxyDeployment/Laws/Handler.antt =====
-- syncHandler of the deployment controller, run by run.
use memcached_operator.Prelude.{
  String, ◌≡◌, refl, ap, ◌≢◌, ◌∙◌, false, Option, none, some, List, [], ◌∷◌, arith, map, All,
  int_eq, int_eq_iff,
}
use memcached_operator.Api.Meta.{ObjectMeta}
use memcached_operator.Api.Proxy.{MemcachedProxy}
use memcached_operator.Api.Objects.{ConfigMap, Deployment}
use memcached_operator.Operator.Lookup.{get_deployments_for_proxy, get_config_map_for_proxy}
use memcached_operator.Operator.Lookup.Newest.{get_deployments_for_proxy-error}
use memcached_operator.Runtime.Effects.{
  Error, wrapped, Effect, normal, warning, Arg, key, add_rate_limited,
}
use memcached_operator.Runtime.Env.{Env, Resource, Answer}
use memcached_operator.Runtime.Sync.{Cache, Run, Result, ok, err, Sync, pure, ◌>>◌}
use memcached_operator.Runtime.Monad.{then-pure}
use memcached_operator.Runtime.Listers.{replace, store_deployment}
use memcached_operator.ProxyDeployment.{
  full_name, conclude, apply_config_map, apply_written, create_deployment, update_deployment,
  clean_up, sync_proxy, create_or_update,
}
use memcached_operator.ProxyDeployment.Laws.Volumes.{pointed, HasSource, set_config_volumes_lem}

generation_test :
    (p : MemcachedProxy)
    → p.meta.generation ≢ p.status.observed_generation
    → int_eq p.meta.generation p.status.observed_generation ≡ false
generation_test p h = ground (arith, int_eq_iff p.meta.generation p.status.observed_generation)

module _ (env : Env) (k : String) (p : MemcachedProxy) (c : Cache) where
  -- While the proxy controller has not seen the newest generation, a sync only queues the key again.
  pub sync_proxy-waits :
      p.meta.generation ≢ p.status.observed_generation
      → sync_proxy env k p c ≡ record {
        result = ok tt;
        cache = c;
        effects = Effect.queue (add_rate_limited (key k)) ∷ [];
      }
  unfolding sync_proxy
  sync_proxy-waits h = rw (generation_test p h)

  module _ (observed : p.meta.generation ≡ p.status.observed_generation) where
    -- A sync, once it has the deployments.
    pub sync_proxy-found :
        (found : Option Deployment × List Deployment)
        → get_deployments_for_proxy env p.meta c ≡ pure found c
        → sync_proxy env k p c ≡ (create_or_update env p found.0 >> clean_up env k p found.1) c
    unfolding sync_proxy
    sync_proxy-found found h = rw ((int_eq_iff _ _).1 observed, h)

    pub clean_up-none : (m : Sync Unit) → (m >> clean_up env k p []) c ≡ m c
    unfolding clean_up
    clean_up-none m = then-pure m c

    -- One deployment: it is updated, and nothing else is done.
    sync_proxy-updates :
        (d : Deployment)
        → get_deployments_for_proxy env p.meta c ≡ pure (some d, []) c
        → sync_proxy env k p c ≡ update_deployment env p d c
    sync_proxy-updates d h =
        sync_proxy-found (some d, []) h ∙ clean_up-none (update_deployment env p d)

    -- For a proxy whose generation is observed, where the deployments cannot be listed because of
    -- an error, syncHandler does exactly what createDeployment does, whatever deployments are in
    -- the cache.
    pub sync_proxy-creates_on_error :
        (e : Error)
        → env.lister_error Resource.deployments ≡ some e
        → sync_proxy env k p c ≡ create_deployment env p c
    sync_proxy-creates_on_error e failed =
        sync_proxy-found (none, []) (get_deployments_for_proxy-error env p.meta c e failed)
        ∙ clean_up-none (create_deployment env p)

-- The event and the result after the API server has answered an update.
abbrev update_answered : ObjectMeta → Option Error → ObjectMeta → Effect
update_answered p none d =
    Effect.event p normal "MemcachedProxyDeploymentUpdated" "deployment %q updated"
      (Arg.str (full_name d) ∷ [])
update_answered p (some e) d =
    Effect.event p warning "MemcachedProxyDeploymentUpdateError"
      "failed to update deployment for %q: %v" (Arg.str (full_name p) ∷ Arg.err e ∷ [])

abbrev pub update_returned : ObjectMeta → Option Error → Result Unit
update_returned p none = ok tt
update_returned p (some e) = err (wrapped "failed to update deployment for %q: %v" (full_name p) e)

concluded :
    (p : ObjectMeta) (answer : Answer Deployment) (c : Cache)
    → conclude p "MemcachedProxyDeploymentUpdated" "deployment %q updated"
        "MemcachedProxyDeploymentUpdateError" "failed to update deployment for %q: %v"
        (answer.0.meta, answer.1)
        c
      ≡ record {
        result = update_returned p answer.1;
        cache = c;
        effects = update_answered p answer.1 answer.0.meta ∷ [];
      }
concluded p (d, none) c = refl
concluded p (d, some e) c = refl

module _ (env : Env) (p : MemcachedProxy) (d : Deployment) (c : Cache) where
  -- The deployment with its config volumes pointed to a config map.
  abbrev pub redirected : ConfigMap → Deployment
  redirected cm = record d {
    template = record d.template { volumes = map (pointed cm.meta.name) d.template.volumes };
  }

  abbrev pub with_deployment : Deployment → Cache
  with_deployment d' = record c { deployments = replace (λ x. x.meta) d' c.deployments }

  abbrev returned_update : ConfigMap → Result Unit
  returned_update cm = update_returned p.meta (env.on_update_deployment (redirected cm)).1

  abbrev pub update_event : ConfigMap → Effect
  update_event cm =
      let answer = env.on_update_deployment (redirected cm) in
      update_answered p.meta answer.1 answer.0.meta

  -- If the proxy controls exactly one config map in the cache, and each volume of the deployment
  -- named "config" has a ConfigMap source, then updateDeployment sends the deployment with just
  -- these volumes pointed to the config map, writes the same to the cache, and reports what the
  -- API server answered in one event and in its result.
  pub update_deployment-redirects :
      (cm : ConfigMap)
      → get_config_map_for_proxy env p.meta c ≡ pure (some cm) c
      → All HasSource d.template.volumes
      → update_deployment env p d c ≡ record {
        result = returned_update cm;
        cache = with_deployment (redirected cm);
        effects = Effect.update_deployment d.meta.namespace (redirected cm) ∷ update_event cm ∷ [];
      }
  unfolding update_deployment apply_config_map store_deployment
  update_deployment-redirects cm h sources = rw h (
      ap (λ loop. apply_written env p d loop c)
        (set_config_volumes_lem cm.meta.name d.template.volumes sources)
      ∙ ap
          (λ (r : Run Unit). record r {
            effects = Effect.update_deployment d.meta.namespace (redirected cm) ∷ r.effects;
          })
          (concluded p.meta (env.on_update_deployment (redirected cm))
            (with_deployment (redirected cm))))

  -- With no new config map a deployment is left alone.
  pub update_deployment-idle :
      get_config_map_for_proxy env p.meta c ≡ pure none c → update_deployment env p d c ≡ pure tt c
  unfolding update_deployment
  update_deployment-idle h = rw h
