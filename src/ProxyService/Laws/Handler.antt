-- ===== src/ProxyService/Laws/Handler.antt =====
-- syncHandler of the service controller, run by run.
use memcached_operator.Prelude.{
  String, ◌≡◌, ◌≢◌, refl, ap, ◌∙◌, inl, inr, Bool, true, false, Option, none, some, [], ◌∷◌, arith,
  ℤ, if◌then◌else◌, Bool-cases, int_eq, int_eq_iff, find_first,
}
use memcached_operator.Api.Proxy.{MemcachedProxy}
use memcached_operator.Api.Objects.{Service}
use memcached_operator.Operator.Names.{get_proxy_service_name}
use memcached_operator.Runtime.Effects.{
  Error, not_found, Effect, create, update, key, add_rate_limited,
}
use memcached_operator.Runtime.Env.{Env, Resource}
use memcached_operator.Runtime.Sync.{Cache, ok, err, panic, Run, pure, fail, returned}
use memcached_operator.Runtime.Listers.{named, replace, get_service, store_service}
use memcached_operator.Runtime.Stores.{find-replace}
use memcached_operator.ProxyService.{
  conclude, record_service_event, update_service, new_service, create_service, heal_service,
  sync_proxy,
}
use memcached_operator.ProxyService.Laws.{update_service_idem}

generation_test :
    (p : MemcachedProxy)
    → p.meta.generation ≢ p.status.observed_generation
    → int_eq p.meta.generation p.status.observed_generation ≡ false
generation_test p h = ground (arith, int_eq_iff p.meta.generation p.status.observed_generation)

pub conclude_lem :
    (event_of : Option Error → Effect) (answer : Option Error) (c : Cache)
    → conclude event_of answer c
      ≡ record { result = returned answer; cache = c; effects = event_of answer ∷ [] }
conclude_lem event_of none c = refl
conclude_lem event_of (some e) c = refl

module _ (env : Env) (k ns : String) (p : MemcachedProxy) (c : Cache) where
  abbrev service_name : String
  service_name = get_proxy_service_name env.libs p.meta

  -- While the proxy controller has not seen the newest generation, a sync only queues the key again.
  pub sync_proxy-waits :
      p.meta.generation ≢ p.status.observed_generation
      → sync_proxy env k ns p c ≡ record {
        result = ok tt;
        cache = c;
        effects = Effect.queue (add_rate_limited (key k)) ∷ [];
      }
  unfolding sync_proxy
  sync_proxy-waits h = rw (generation_test p h)

  module _ (observed : p.meta.generation ≡ p.status.observed_generation)
      (listed : env.lister_error Resource.services ≡ none) where
    observed_test : int_eq p.meta.generation p.status.observed_generation ≡ true
    observed_test = (int_eq_iff _ _).1 observed

    get_service-found :
        (s : Service)
        → find_first (λ x. named ns service_name x.meta) c.services ≡ some s
        → get_service env ns service_name c ≡ pure s c
    unfolding get_service
    get_service-found s h = rw (listed, h)

    get_service-missing :
        find_first (λ x. named ns service_name x.meta) c.services ≡ none
        → get_service env ns service_name c ≡ fail not_found c
    unfolding get_service
    get_service-missing h = rw (listed, h)

    pub sync_proxy-found :
        (s : Service)
        → find_first (λ x. named ns service_name x.meta) c.services ≡ some s
        → sync_proxy env k ns p c ≡ heal_service env ns p s c
    unfolding sync_proxy
    sync_proxy-found s h = rw (observed_test, get_service-found s h)

    sync_proxy-missing :
        find_first (λ x. named ns service_name x.meta) c.services ≡ none
        → sync_proxy env k ns p c ≡ create_service env ns p c
    unfolding sync_proxy
    sync_proxy-missing h = rw (observed_test, get_service-missing h)

    -- For a proxy whose generation is observed and which has a port, where the lister of services
    -- gives no error and finds no Service with the name for the proxy: the only API call of
    -- syncHandler creates the Service with the desired selector and the port of the proxy, an
    -- event with the answer follows, the error of the API server is returned, and the cache stays
    -- as it is.
    pub sync_proxy-creates :
        (port : ℤ)
        → find_first (λ x. named ns service_name x.meta) c.services ≡ none
        → p.spec.mc_router.port ≡ some port
        → sync_proxy env k ns p c ≡ record {
          result = returned (env.on_create_service (new_service env ns p port)).1;
          cache = c;
          effects =
              Effect.create_service ns (new_service env ns p port)
              ∷ record_service_event create p.meta
                  (new_service env ns p port)
                  (env.on_create_service (new_service env ns p port)).1
              ∷ [];
        }
    sync_proxy-creates port h e =
        sync_proxy-missing h ∙ (unfold create_service in rw (e, conclude_lem))

    -- For a proxy whose generation counts as observed but which has no port, where the lister of
    -- services gives no error and finds no Service with the name for the proxy, syncHandler
    -- panics before it has any effect.
    sync_proxy-panics :
        find_first (λ x. named ns service_name x.meta) c.services ≡ none
        → p.spec.mc_router.port ≡ none
        → sync_proxy env k ns p c ≡ record { result = panic; cache = c; effects = [] }
    sync_proxy-panics h e = sync_proxy-missing h ∙ (unfold create_service in rw e)

-- The cache after the service was written through its pointer.
abbrev pub with_service : Service → Cache → Cache
with_service s c = record c { services = replace (λ x. x.meta) s c.services }

module _ (env : Env) (ns : String) (p : MemcachedProxy) (s : Service) (c : Cache) where
  pub heal_service-unchanged :
      (update_service env p s).1 ≡ false → heal_service env ns p s c ≡ pure tt c
  unfolding heal_service
  heal_service-unchanged h = rw h

  heal_service-changed :
      (update_service env p s).1 ≡ true
      → heal_service env ns p s c ≡ record {
        result = returned (env.on_update_service (update_service env p s).0).1;
        cache = with_service (update_service env p s).0 c;
        effects =
            Effect.update_service ns (update_service env p s).0
            ∷ record_service_event update p.meta
                (update_service env p s).0
                (env.on_update_service (update_service env p s).0).1
            ∷ [];
      }
  unfolding heal_service store_service
  heal_service-changed h = rw (h, conclude_lem)

meta-update_service :
    (env : Env) (p : MemcachedProxy) (s : Service) → (update_service env p s).0.meta ≡ s.meta
unfolding update_service
meta-update_service env p s = ground arith

module _ (env : Env) (k ns : String) (p : MemcachedProxy) (c : Cache) (s : Service)
    (observed : p.meta.generation ≡ p.status.observed_generation)
    (listed : env.lister_error Resource.services ≡ none)
    (found : find_first (λ x. named ns (get_proxy_service_name env.libs p.meta) x.meta) c.services
      ≡ some s) where
  abbrev healed : Service
  healed = (update_service env p s).0

  -- For a proxy whose generation is observed and whose Service is in the cache, where the lister
  -- of services gives no error: if updateService finds no change, syncHandler has no effect and
  -- leaves the cache as it is; if it finds one, the only API call is an update with the healed
  -- Service, an event with the answer follows, the error of the API server is returned, and the
  -- healed Service stands in the cache.
  pub sync_proxy-heals : sync_proxy env k ns p c ≡ (
      if (update_service env p s).1
      then record {
        result = returned (env.on_update_service healed).1;
        cache = with_service healed c;
        effects =
            Effect.update_service ns healed
            ∷ record_service_event update p.meta healed (env.on_update_service healed).1
            ∷ [];
      }
      else pure tt c)
  sync_proxy-heals = elim (Bool-cases (update_service env p s).1) [
    | inl changed ↦
        sync_proxy-found env k ns p c observed listed s found
        ∙ heal_service-changed env ns p s c changed
        ∙ rw changed
    | inr same ↦
        sync_proxy-found env k ns p c observed listed s found
        ∙ heal_service-unchanged env ns p s c same
        ∙ rw same
  ]

  healed-unchanged : (update_service env p healed).1 ≡ false
  healed-unchanged = ap (λ (r : Service × Bool). r.1) (update_service_idem env p s)

  sync_proxy-again : sync_proxy env k ns p (with_service healed c) ≡ pure tt (with_service healed c)
  sync_proxy-again =
      sync_proxy-found env k ns p (with_service healed c) observed listed healed (
        find-replace (λ x. x.meta) ns (get_proxy_service_name env.libs p.meta) healed c.services s
          (meta-update_service env p s) found)
      ∙ heal_service-unchanged env ns p healed (with_service healed c) healed-unchanged

  -- Under the conditions of sync_proxy-heals, if updateService finds a change and the API server
  -- refuses the update with an error, then syncHandler returns that error, but a second run on
  -- the cache that the first one left has no effect and succeeds: it does not send the update
  -- again.
  pub sync_proxy-loses_update :
      (e : Error)
      → (update_service env p s).1 ≡ true
      → (env.on_update_service healed).1 ≡ some e
      → ((sync_proxy env k ns p c).result ≡ err e)
        × (sync_proxy env k ns p (sync_proxy env k ns p c).cache
            ≡ pure tt (sync_proxy env k ns p c).cache)
  sync_proxy-loses_update e changed refused =
      let first : sync_proxy env k ns p c ≡ _ =
        sync_proxy-found env k ns p c observed listed s found
        ∙ heal_service-changed env ns p s c changed in
      (ap (λ (r : Run Unit). r.result) first ∙ ap returned refused, rw first sync_proxy-again)
