-- ===== src/System/Rollout.antt =====
-- What one sync leaves to the next: a Service that was created, and a ConfigMap that was created, once the
-- informers have them in the cache.
use memcached_operator.Prelude.{
  String, ◌==◌, eq_refl, ◌≡◌, ap, ◌∙◌, Bool, true, or-true, none, some, List, [], ◌∷◌, ℤ, keep,
  find_first, All, Any,
}
use memcached_operator.Api.Meta.{is_controlled_by, get_controller_of}
use memcached_operator.Api.Proxy.{MemcachedProxy}
use memcached_operator.Api.Objects.{ConfigMap, Deployment, Service}
use memcached_operator.Operator.Names.{get_proxy_service_name}
use memcached_operator.Operator.Owners.{new_proxy_owner_ref}
use memcached_operator.Operator.Lookup.{get_config_maps_for_proxy, get_config_map_for_proxy, single}
use memcached_operator.Runtime.Effects.{Effect}
use memcached_operator.Runtime.Env.{Env, Resource}
use memcached_operator.Runtime.Sync.{Cache, Run, pure, lift}
use memcached_operator.Runtime.Monad.{pure-bind}
use memcached_operator.Runtime.Listers.{named, in_namespace, list_config_maps}
use memcached_operator.ProxyService
use memcached_operator.ProxyService.{new_service, update_service}
use memcached_operator.ProxyService.Laws.{update_service-new_service}
use memcached_operator.ProxyService.Laws.Handler.{sync_proxy-found, heal_service-unchanged}
use memcached_operator.ProxyDeployment.{update_deployment}
use memcached_operator.ProxyDeployment.Laws.Volumes.{HasSource, is_latest-pointed}
use memcached_operator.ProxyDeployment.Laws.Handler.{
  redirected, update_event, update_deployment-redirects,
}
use memcached_operator.ProxyConfigMap.Owners.{is_latest}
use memcached_operator.ProxyConfigMap.Handler.{new_config_map}

module _ (env : Env) (p : MemcachedProxy) (c : Cache) where
  -- The cache once the informer has the service.
  abbrev pub with_new_service : String → ℤ → Cache
  with_new_service ns port = record c { services = new_service env ns p port ∷ c.services }

  found_new_service :
      (ns : String) (port : ℤ)
      → find_first
          (λ x. named ns (get_proxy_service_name env.libs p.meta) x.meta)
          (with_new_service ns port).services
        ≡ some (new_service env ns p port)
  unfolding new_service
  found_new_service ns port = rw (eq_refl ns, eq_refl (get_proxy_service_name env.libs p.meta))

  -- For a proxy whose generation is observed, where the lister of services gives no error, once
  -- the Service that the controller creates is in the cache, syncHandler of the service
  -- controller has no effect, succeeds and leaves the cache as it is.
  pub sync_proxy-steady :
      (k ns : String) (port : ℤ)
      → p.meta.generation ≡ p.status.observed_generation
      → env.lister_error Resource.services ≡ none
      → ProxyService.sync_proxy env k ns p (with_new_service ns port)
        ≡ pure tt (with_new_service ns port)
  sync_proxy-steady k ns port observed listed =
      sync_proxy-found env k ns p (with_new_service ns port) observed listed
        (new_service env ns p port) (found_new_service ns port)
      ∙ heal_service-unchanged env ns p (new_service env ns p port) (with_new_service ns port)
          (ap (λ (r : Service × Bool). r.1) (update_service-new_service env p ns port))

  -- The cache once the informer has the config map for a configuration.
  abbrev pub with_new_config_map : String → Cache
  with_new_config_map config = record c {
    config_maps = new_config_map env p config ∷ c.config_maps;
  }

  abbrev pub controlled_maps : List ConfigMap → List ConfigMap
  controlled_maps cms =
      keep (λ cm. is_controlled_by cm.meta p.meta)
        (keep (λ m. in_namespace p.meta.namespace m.meta) cms)

  controlled_maps-new :
      (config : String) (cms : List ConfigMap)
      → controlled_maps (new_config_map env p config ∷ cms)
        ≡ new_config_map env p config ∷ controlled_maps cms
  unfolding new_config_map is_controlled_by get_controller_of new_proxy_owner_ref
  controlled_maps-new config cms =
      rw (eq_refl p.meta.namespace, or-true (p.meta.namespace == ""), eq_refl p.meta.uid)

  module _ (listed : env.lister_error Resource.config_maps ≡ none) where
    listed_lem :
        (c' : Cache)
        → get_config_maps_for_proxy env p.meta c' ≡ pure (controlled_maps c'.config_maps) c'
    unfolding get_config_maps_for_proxy list_config_maps
    listed_lem c' = rw listed

    one_listed :
        (config : String)
        → controlled_maps c.config_maps ≡ []
        → get_config_maps_for_proxy env p.meta (with_new_config_map config)
          ≡ pure (new_config_map env p config ∷ []) (with_new_config_map config)
    one_listed config no_map =
        listed_lem (with_new_config_map config)
        ∙ ap (λ (cms : List ConfigMap). pure cms (with_new_config_map config))
            (controlled_maps-new config c.config_maps
              ∙ ap (λ (cms : List ConfigMap). new_config_map env p config ∷ cms) no_map)

    pub one_found :
        (config : String)
        → controlled_maps c.config_maps ≡ []
        → get_config_map_for_proxy env p.meta (with_new_config_map config)
          ≡ pure (some (new_config_map env p config)) (with_new_config_map config)
    unfolding get_config_map_for_proxy
    one_found config no_map =
        pure-bind (get_config_maps_for_proxy env p.meta) (λ cms. lift (single p.meta cms))
          (with_new_config_map config) (new_config_map env p config ∷ []) (one_listed config no_map)

    -- If the lister of config maps gives no error and the proxy controls no config map in the
    -- cache, and then the config map that its controller makes for a configuration is added to
    -- the cache, the effects of updateDeployment on a deployment with a volume named "config",
    -- where each such volume has a ConfigMap source, are one update and its event, and the
    -- deployment that is sent refers to this config map in the sense of the test in
    -- reuseConfigMap.
    pub update_deployment-follows :
        (config : String) (d : Deployment)
        → controlled_maps c.config_maps ≡ []
        → All HasSource d.template.volumes
        → Any (λ v. v.name ≡ "config") d.template.volumes
        → (d' : Deployment) × ((update_deployment env p d (with_new_config_map config)).effects
            ≡ Effect.update_deployment d.meta.namespace d'
              ∷ update_event env p d (with_new_config_map config) (new_config_map env p config)
              ∷ [])
          × (is_latest d' (new_config_map env p config) ≡ true)
    update_deployment-follows config d no_map sources mounted = (
      redirected env p d (with_new_config_map config) (new_config_map env p config),
      ap (λ (r : Run Unit). r.effects)
          (update_deployment-redirects env p d (with_new_config_map config)
            (new_config_map env p config) (one_found config no_map) sources),
      is_latest-pointed d (new_config_map env p config) mounted,
    )
