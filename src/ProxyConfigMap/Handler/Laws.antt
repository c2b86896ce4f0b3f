-- ===== src/ProxyConfigMap/Handler/Laws.antt =====
-- syncHandler of the ConfigMap controller, run by run.
use memcached_operator.Prelude.{
  String, ◌≡◌, ◌≢◌, refl, ap, ◌∙◌, false, Option, none, some, List, [], ◌∷◌, arith, int_eq,
  int_eq_iff, find_first,
}
use memcached_operator.Api.Meta.{ObjectMeta}
use memcached_operator.Api.Proxy.{MemcachedProxy}
use memcached_operator.Api.Objects.{ConfigMap, ReplicaSet}
use memcached_operator.Operator.Lookup.{get_config_maps_for_proxy}
use memcached_operator.Runtime.Effects.{
  Error, not_found, wrapped, Effect, create, update, key, add_rate_limited, add_after,
}
use memcached_operator.Runtime.Env.{Env, Resource}
use memcached_operator.Runtime.Sync.{Cache, Result, ok, err, pure, fail, returned}
use memcached_operator.Runtime.Listers.{named, get_config_map, replace, store_config_map}
use memcached_operator.Runtime.Monad.{pure-bind}
use memcached_operator.ProxyConfigMap.Config.{McRouterConfig, config_json}
use memcached_operator.ProxyConfigMap.Pools.{config_for_proxy}
use memcached_operator.ProxyConfigMap.Owners.{get_new_rs_for_proxy, release, apply_owner_ref_to_cm}
use memcached_operator.ProxyConfigMap.Owners.Laws.{released}
use memcached_operator.ProxyConfigMap.Handler.{
  record_event, record_config_map_event, new_config_map, config_map_for_proxy, create_config_map,
  sync_config_maps, sync_proxy,
}

-- What a call of the API leads to: on success the key is queued again.
abbrev requeued : String → Option Error → List Effect
requeued k none = Effect.queue (add_rate_limited (key k)) ∷ []
requeued k (some e) = []

abbrev pub failed_with : (Error → Error) → Option Error → Result Unit
failed_with f none = ok tt
failed_with f (some e) = err (f e)

module _ (env : Env) (p : ObjectMeta) (cm : ConfigMap) (c : Cache) where
  apply_owner_ref_to_cm-none :
      get_new_rs_for_proxy env p c ≡ pure none c → apply_owner_ref_to_cm env p cm c ≡ pure none c
  unfolding apply_owner_ref_to_cm
  apply_owner_ref_to_cm-none h = pure-bind (get_new_rs_for_proxy env p) (release env p cm) c none h

  abbrev pub with_released : ReplicaSet → Cache
  with_released rs = record c {
    config_maps = replace (λ x. x.meta) (released p rs cm) c.config_maps;
  }

  apply_owner_ref_to_cm-some :
      (rs : ReplicaSet)
      → get_new_rs_for_proxy env p c ≡ pure (some rs) c
      → apply_owner_ref_to_cm env p cm c ≡ pure (some (released p rs cm)) (with_released rs)
  unfolding apply_owner_ref_to_cm store_config_map
  apply_owner_ref_to_cm-some rs h =
      pure-bind (get_new_rs_for_proxy env p) (release env p cm) c (some rs) h

module _ (env : Env) (k ns : String) (p : MemcachedProxy) (c : Cache) where
  -- A proxy whose generation the proxy controller has not observed is only queued again.
  sync_proxy-gated :
      p.meta.generation ≢ p.status.observed_generation
      → sync_proxy env k ns p c ≡ record {
        result = ok tt;
        cache = c;
        effects = Effect.queue (add_rate_limited (key k)) ∷ [];
      }
  unfolding sync_proxy
  sync_proxy-gated h =
      let test : int_eq p.meta.generation p.status.observed_generation ≡ false =
        ground (arith, int_eq_iff p.meta.generation p.status.observed_generation) in
      rw test

  module _ (observed : p.meta.generation ≡ p.status.observed_generation) where
    sync_proxy-listed :
        (cms : List ConfigMap)
        → get_config_maps_for_proxy env p.meta c ≡ pure cms c
        → sync_proxy env k ns p c ≡ sync_config_maps env k ns p cms c
    unfolding sync_proxy
    sync_proxy-listed cms h = rw ((int_eq_iff _ _).1 observed, h)

    -- Nothing is done about several config maps that belong to the proxy.
    sync_proxy-several :
        (a b : ConfigMap) (rest : List ConfigMap)
        → get_config_maps_for_proxy env p.meta c ≡ pure (a ∷ b ∷ rest) c
        → sync_proxy env k ns p c ≡ pure tt c
    unfolding sync_config_maps
    sync_proxy-several a b rest h = sync_proxy-listed (a ∷ b ∷ rest) h

    module _ (cm : ConfigMap)
        (one : get_config_maps_for_proxy env p.meta c ≡ pure (cm ∷ []) c) where
      -- Until a replica set uses the config map the key is queued again, after a second.
      sync_proxy-polls :
          get_new_rs_for_proxy env p.meta c ≡ pure none c
          → sync_proxy env k ns p c ≡ record {
            result = ok tt;
            cache = c;
            effects = Effect.queue (add_after (key k) 1) ∷ [];
          }
      unfolding sync_config_maps
      sync_proxy-polls h =
          sync_proxy-listed (cm ∷ []) one ∙ rw (apply_owner_ref_to_cm-none env p.meta cm c h)

      released_cases :
          (rs : ReplicaSet) (back : ConfigMap) (answer : Option Error)
          → get_new_rs_for_proxy env p.meta c ≡ pure (some rs) c
          → env.on_update_config_map (released p.meta rs cm) ≡ (back, answer)
          → sync_config_maps env k ns p (cm ∷ []) c ≡ record {
            result = failed_with (wrapped "failed to update configmaps for %q: %v" k) answer;
            cache = with_released env p.meta cm c rs;
            effects =
                Effect.update_config_map cm.meta.namespace (released p.meta rs cm)
                ∷ record_config_map_event update p.meta back answer
                ∷ requeued k answer;
          }
      unfolding sync_config_maps
      released_cases rs back none found answered = rw (
        apply_owner_ref_to_cm-some env p.meta cm c rs found,
        answered,
        ap (λ (q : ConfigMap × Option Error). q.0) answered,
      )
      released_cases rs back (some e) found answered = rw (
        apply_owner_ref_to_cm-some env p.meta cm c rs found,
        answered,
        ap (λ (q : ConfigMap × Option Error). q.0) answered,
      )

      -- For a proxy whose generation is observed and which controls exactly one config map, if
      -- getNewRSForProxy finds a replica set, then syncHandler writes the released config map to
      -- the cache and sends it as its only API call, an event with the answer follows, and then
      -- the key is queued again, rate limited, if the API server accepted, or its error is
      -- returned in the message of the update.
      pub sync_proxy-releases :
          (rs : ReplicaSet)
          → get_new_rs_for_proxy env p.meta c ≡ pure (some rs) c
          → let (back, answer) = env.on_update_config_map (released p.meta rs cm) in
            sync_proxy env k ns p c ≡ record {
              result = failed_with (wrapped "failed to update configmaps for %q: %v" k) answer;
              cache = with_released env p.meta cm c rs;
              effects =
                  Effect.update_config_map cm.meta.namespace (released p.meta rs cm)
                  ∷ record_config_map_event update p.meta back answer
                  ∷ requeued k answer;
            }
      sync_proxy-releases rs found =
          let (back, answer) = env.on_update_config_map (released p.meta rs cm) in
          sync_proxy-listed (cm ∷ []) one ∙ released_cases rs back answer found refl

    module _ (no_map : get_config_maps_for_proxy env p.meta c ≡ pure [] c) where
      -- A configuration that cannot be made is reported as an event and an error.
      sync_proxy-invalid :
          (e : Error)
          → config_for_proxy env p.spec c ≡ fail e c
          → let failure = wrapped "failed to create mcrouter config: %v" "" e in
            sync_proxy env k ns p c ≡ record {
              result = err failure;
              cache = c;
              effects = record_event create p.meta "ConfigMap" none (some failure) ∷ [];
            }
      unfolding sync_config_maps config_map_for_proxy
      sync_proxy-invalid e h = sync_proxy-listed [] no_map ∙ rw h

      module _ (config : McRouterConfig) (made : config_for_proxy env p.spec c ≡ pure config c)
          (listed : env.lister_error Resource.config_maps ≡ none) where
        abbrev cm_new : ConfigMap
        cm_new = new_config_map env p (env.marshal (config_json config))

        config_map_for_proxy_lem : config_map_for_proxy env p c ≡ pure cm_new c
        unfolding config_map_for_proxy
        config_map_for_proxy_lem = rw made

        get_config_map-missing :
            find_first (λ m. named p.meta.namespace cm_new.meta.name m.meta) c.config_maps ≡ none
            → get_config_map env p.meta.namespace cm_new.meta.name c ≡ fail not_found c
        unfolding get_config_map
        get_config_map-missing h = rw (listed, h)

        create_config_map_lem :
            (cm back : ConfigMap) (answer : Option Error)
            → env.on_create_config_map cm ≡ (back, answer)
            → create_config_map env k ns p.meta cm c ≡ record {
              result = returned answer;
              cache = c;
              effects =
                  Effect.create_config_map ns cm
                  ∷ record_config_map_event create p.meta back answer
                  ∷ requeued k answer;
            }
        unfolding create_config_map
        create_config_map_lem cm back none h = rw h
        create_config_map_lem cm back (some e) h = rw h

        -- For a proxy whose generation is observed and which controls no config map, whose
        -- configuration can be made without effect on the cache, and where no config map has the
        -- name of that configuration and the lister gives no error: the only API call of
        -- syncHandler creates the config map with this configuration, an event with the answer
        -- follows, the cache stays as it is, and the key is queued again if the API server
        -- accepted, or its error is returned.
        pub sync_proxy-creates_config_map :
            find_first (λ m. named p.meta.namespace cm_new.meta.name m.meta) c.config_maps ≡ none
            → let (back, answer) = env.on_create_config_map cm_new in
              sync_proxy env k ns p c ≡ record {
                result = returned answer;
                cache = c;
                effects =
                    Effect.create_config_map ns cm_new
                    ∷ record_config_map_event create p.meta back answer
                    ∷ requeued k answer;
              }
        unfolding sync_config_maps
        sync_proxy-creates_config_map missing =
            let (back, answer) = env.on_create_config_map cm_new in
            sync_proxy-listed [] no_map
            ∙ rw (config_map_for_proxy_lem, get_config_map-missing missing)
                (create_config_map_lem cm_new back answer refl)
