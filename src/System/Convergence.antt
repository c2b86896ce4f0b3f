-- ===== src/System/Convergence.antt =====
-- A new proxy and its Service, from the first sync to the last: the controllers of internal/controller/proxy and
-- internal/controller/proxyservice by the key of the proxy, with what one of them writes in the cache of the next.
use memcached_operator.Prelude.{
  String, ◌≡◌, ◌≢◌, refl, ap, sym, subst, ◌∙◌, inl, inr, none, some, [], ◌∷◌, ℤ, find_first,
  Option-cases,
}
use memcached_operator.Api.Meta.{ObjectMeta}
use memcached_operator.Api.Proxy.{MemcachedProxy, MemcachedProxyStatus, apply_defaults}
use memcached_operator.Api.Defaults.Complete.{port-ne-none}
use memcached_operator.Api.Objects.{Service}
use memcached_operator.Operator.Names.{get_proxy_service_name}
use memcached_operator.Runtime.Effects.{Effect, update_proxy, create, queue, add_rate_limited, key}
use memcached_operator.Runtime.Env.{Env, Resource}
use memcached_operator.Runtime.Sync.{Cache, Run, ok, pure, returned}
use memcached_operator.Runtime.Listers.{named, get_proxy, split_or_fail}
use memcached_operator.Proxy
use memcached_operator.Proxy.{update_status}
use memcached_operator.Proxy.Laws.{settled, sync_proxy-settled, sync_proxy-writes}
use memcached_operator.ProxyService
use memcached_operator.ProxyService.{new_service, record_service_event}
use memcached_operator.ProxyService.Laws.Handler.{sync_proxy-creates, sync_proxy-waits}
use memcached_operator.System.Rollout.{with_new_service, sync_proxy-steady}

-- The key names the proxy in the cache, and no lister fails.
pub record Finds (env : Env) (k ns name : String) (p : MemcachedProxy) (c : Cache) : Type 0 where
  pub split : env.split_key k ≡ some (ns, name)
  pub proxies_listed : env.lister_error Resource.proxies ≡ none
  pub services_listed : env.lister_error Resource.services ≡ none
  pub found : find_first (λ q. named ns name q.meta) c.proxies ≡ some p

module _ (env : Env) (k ns name : String) (p : MemcachedProxy) (c : Cache) where
  module _ (finds : Finds env k ns name p c) where
    proxy_found : Proxy.sync_handler env k c ≡ Proxy.sync_proxy env k p c
    unfolding Proxy.sync_handler get_proxy
    proxy_found = rw (split_or_fail, finds.split, finds.proxies_listed, finds.found)

    service_found : ProxyService.sync_handler env k c ≡ ProxyService.sync_proxy env k ns p c
    unfolding ProxyService.sync_handler get_proxy
    service_found = rw (split_or_fail, finds.split, finds.proxies_listed, finds.found)

observed-settled :
    (p : MemcachedProxy) → (settled p).meta.generation ≡ (settled p).status.observed_generation
unfolding update_status apply_defaults
observed-settled p = refl

port-settled : (p : MemcachedProxy) → (settled p).spec.mc_router.port ≢ none
unfolding update_status
port-settled p = port-ne-none p

status-settled :
    (p : MemcachedProxy)
    → p.meta.generation ≢ p.status.observed_generation
    → p.status ≢ (settled p).status
unfolding update_status apply_defaults
status-settled p h e = h (ap (λ (s : MemcachedProxyStatus). s.observed_generation) (sym e))

-- The API server gives a written object new metadata.
settled-meta :
    (p : MemcachedProxy) (meta : ObjectMeta)
    → meta.namespace ≡ p.meta.namespace
    → meta.generation ≡ p.meta.generation
    → settled (record p { meta = meta }) ≡ record (settled p) { meta = meta }
unfolding update_status apply_defaults
settled-meta p meta same_namespace same_generation = rw (same_namespace, same_generation)

module _ (env : Env) (k ns : String) (stored : MemcachedProxy) (after : Cache) where
  -- The Service that is made for the proxy.
  abbrev pub made : ℤ → Service
  made port = new_service env ns stored port

  -- The proxy controller leaves the proxy alone; the service controller creates the Service, and
  -- leaves it alone once it is in the cache.
  abbrev pub Converges : Type 0
  Converges =
      (Proxy.sync_handler env k after ≡ pure tt after)
      × ((port : ℤ) × (ProxyService.sync_handler env k after ≡ record {
        result = returned (env.on_create_service (made port)).1;
        cache = after;
        effects =
            Effect.create_service ns (made port)
            ∷ record_service_event create stored.meta (made port)
                (env.on_create_service (made port)).1
            ∷ [];
      })
          × (ProxyService.sync_handler env k (with_new_service env stored after ns port)
              ≡ pure tt (with_new_service env stored after ns port)))

  abbrev pub HasNoService : Type 0
  HasNoService =
      find_first (λ x. named ns (get_proxy_service_name env.libs stored.meta) x.meta) after.services
      ≡ none

settled-Converges :
    (env : Env) (k ns name : String) (p : MemcachedProxy) (after : Cache)
    → Finds env k ns name (settled p) after
    → HasNoService env k ns (settled p) after
    → Converges env k ns (settled p) after
settled-Converges env k ns name p after finds missing = (
  proxy_found env k ns name (settled p) after finds ∙ sync_proxy-settled env k p after,
  elim (Option-cases (settled p).spec.mc_router.port) [
    | inl none_set ↦ absurd (port-settled p none_set)
    | inr (port, given) ↦ (
      port,
      service_found env k ns name (settled p) after finds
          ∙ sync_proxy-creates env k ns (settled p) after (observed-settled p) finds.services_listed
              port missing given,
      service_found env k ns name (settled p) (with_new_service env (settled p) after ns port)
            (record {
              split = finds.split;
              proxies_listed = finds.proxies_listed;
              services_listed = finds.services_listed;
              found = finds.found;
            })
          ∙ sync_proxy-steady env (settled p) after k ns port (observed-settled p)
              finds.services_listed,
    )
  ],
)

-- For a key that names a proxy whose generation was not observed, where the listers of proxies
-- and services give no error: syncHandler of the service controller only queues the key again,
-- rate limited, and the only effect of syncHandler of the proxy controller is an update with the
-- object with defaults and observed generation. Once this object is in the cache, with metadata
-- in which the API server has kept the namespace and the generation, and the cache has no Service
-- with the name for it, syncHandler of the proxy controller has no effect, and the only API call
-- of syncHandler of the service controller creates the Service for a port, an event with the
-- answer follows and the error of the API server is returned. Once this Service is in the cache
-- too, syncHandler of the service controller has no effect, succeeds and leaves the cache as it
-- is.
pub sync_handler-Converges :
    (env : Env) (k ns name : String) (p : MemcachedProxy) (meta : ObjectMeta) (before after : Cache)
    → p.meta.generation ≢ p.status.observed_generation
    → meta.namespace ≡ p.meta.namespace
    → meta.generation ≡ p.meta.generation
    → Finds env k ns name p before
    → Finds env k ns name (record (settled p) { meta = meta }) after
    → HasNoService env k ns (record (settled p) { meta = meta }) after
    → (ProxyService.sync_handler env k before ≡ record {
      result = ok tt;
      cache = before;
      effects = queue (add_rate_limited (key k)) ∷ [];
    })
      × ((Proxy.sync_handler env k before).effects
          ≡ update_proxy (settled p).meta.namespace (settled p) ∷ [])
      × Converges env k ns (record (settled p) { meta = meta }) after
sync_handler-Converges env k ns name p meta before after new same_namespace same_generation finds
      finds' missing =
    (
      service_found env k ns name p before finds ∙ sync_proxy-waits env k ns p before new,
      ap (λ (r : Run Unit). r.effects) (proxy_found env k ns name p before finds)
          ∙ sync_proxy-writes env k p before (inr (status-settled p new)),
      subst
          (λ s.
            Finds env k ns name s after
            → HasNoService env k ns s after
            → Converges env k ns s after)
          (settled-meta p meta same_namespace same_generation)
          (settled-Converges env k ns name (record p { meta = meta }) after) finds' missing,
    )
