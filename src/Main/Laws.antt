-- ===== src/Main/Laws.antt =====
-- Which controllers a change of the cluster reaches.
use memcached_operator.Prelude.{String, ◌≡◌, ◌⊎◌, refl, inl, inr, some, [], ◌∷◌, Any}
use memcached_operator.Api.Meta.{ObjectMeta}
use memcached_operator.Runtime.Env.{
  Env, Resource, proxies, config_maps, deployments, replica_sets, services, endpoints,
}
use memcached_operator.Runtime.Effects.{queue, add, key}
use memcached_operator.Runtime.Sync.{Cache, ok, pure}
use memcached_operator.Worker
use memcached_operator.Worker.{Notice, Change, added, updated, deleted, key_func, enqueue}
use memcached_operator.Proxy
use memcached_operator.ProxyService
use memcached_operator.ProxyDeployment
use memcached_operator.ProxyConfigMap.Handler
use memcached_operator.Main.{
  Flags, Controller, proxy, proxy_service, proxy_config_map, proxy_deployment, registration,
  ClusterChange, proxy_change, service_change, config_map_change, deployment_change,
  replica_set_change, endpoints_change, handle,
}

abbrev resource_of : ClusterChange → Resource
resource_of (proxy_change _) = proxies
resource_of (service_change _) = services
resource_of (config_map_change _) = config_maps
resource_of (deployment_change _) = deployments
resource_of (replica_set_change _) = replica_sets
resource_of (endpoints_change _) = endpoints

-- The object after a change, or the last one.
abbrev subject : Change ObjectMeta → Notice ObjectMeta
subject (added obj) = obj
subject (updated old new) = new
subject (deleted obj) = obj

module _ (env : Env) (flags : Flags) (c : Cache) where
  -- For each controller and each change of the cluster, either main registers an informer of the
  -- kind of object that changed for that controller, or the handlers of the controller do nothing
  -- about the change.
  handle-registered :
      (controller : Controller) (change : ClusterChange)
      → Any (λ r. r ≡ resource_of change) (registration flags controller).informers
        ⊎ (handle env flags controller change c ≡ pure tt c)
  unfolding handle registration
  handle-registered proxy (proxy_change x) = inl (inl refl)
  handle-registered proxy (service_change x) = inr refl
  handle-registered proxy (config_map_change x) = inr refl
  handle-registered proxy (deployment_change x) = inr refl
  handle-registered proxy (replica_set_change x) = inr refl
  handle-registered proxy (endpoints_change x) = inr refl
  handle-registered proxy_service (proxy_change x) = inl (inl refl)
  handle-registered proxy_service (service_change x) = inl (inr (inl refl))
  handle-registered proxy_service (config_map_change x) = inr refl
  handle-registered proxy_service (deployment_change x) = inr refl
  handle-registered proxy_service (replica_set_change x) = inr refl
  handle-registered proxy_service (endpoints_change x) = inr refl
  handle-registered proxy_config_map (proxy_change x) = inl (inl refl)
  handle-registered proxy_config_map (service_change x) = inr refl
  handle-registered proxy_config_map (config_map_change x) = inr refl
  handle-registered proxy_config_map (deployment_change x) = inl (inr (inr (inl refl)))
  handle-registered proxy_config_map (replica_set_change x) = inr refl
  handle-registered proxy_config_map (endpoints_change x) =
      inl (inr (inr (inr (inr (inr (inl refl))))))
  handle-registered proxy_deployment (proxy_change x) = inl (inl refl)
  handle-registered proxy_deployment (service_change x) = inr refl
  handle-registered proxy_deployment (config_map_change x) = inl (inr (inr (inl refl)))
  handle-registered proxy_deployment (deployment_change x) = inl (inr (inl refl))
  handle-registered proxy_deployment (replica_set_change x) = inr refl
  handle-registered proxy_deployment (endpoints_change x) = inr refl

  enqueued_lem :
      (change : Change ObjectMeta) (k : String)
      → key_func env (subject change) ≡ some k
      → Worker.on_proxy env change c
        ≡ record { result = ok tt; cache = c; effects = queue (add (key k)) ∷ [] }
  unfolding Worker.on_proxy enqueue
  enqueued_lem (added obj) k h = rw h
  enqueued_lem (updated old new) k h = rw h
  enqueued_lem (deleted obj) k h = rw h

  -- When a proxy is added, updated or deleted, and its key function gives a key for the new or
  -- last state, the handlers of each of the four controllers add exactly this key to its queue
  -- and do nothing else.
  pub handle-proxy_change :
      (controller : Controller) (change : Change ObjectMeta) (k : String)
      → key_func env (subject change) ≡ some k
      → handle env flags controller (proxy_change change) c
        ≡ record { result = ok tt; cache = c; effects = queue (add (key k)) ∷ [] }
  unfolding handle Proxy.on_proxy ProxyService.on_proxy Handler.on_proxy ProxyDeployment.on_proxy
  handle-proxy_change proxy change k h = enqueued_lem change k h
  handle-proxy_change proxy_service change k h = enqueued_lem change k h
  handle-proxy_change proxy_config_map change k h = enqueued_lem change k h
  handle-proxy_change proxy_deployment change k h = enqueued_lem change k h
