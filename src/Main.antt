-- ===== src/Main.antt =====
-- The operator's main.go: its flags, the controllers that it registers with their informers, and which handler a
-- change of the cluster reaches. An informer is shared by the controllers that ask for its type.
pub mod Laws
use memcached_operator.Prelude.{ℕ, String, ◌==◌, Bool, List, [], ◌∷◌, if◌then◌else◌}
use memcached_operator.Api.Meta.{ObjectMeta}
use memcached_operator.Api.Objects.{Endpoints}
use memcached_operator.Runtime.Env.{
  Env, Resource, proxies, config_maps, deployments, replica_sets, services, endpoints,
}
use memcached_operator.Runtime.Sync.{Sync, pure}
use memcached_operator.Worker.{Change}
use memcached_operator.Proxy
use memcached_operator.ProxyService
use memcached_operator.ProxyDeployment
use memcached_operator.ProxyConfigMap.Handler

-- The flags, without the interval of the informers' resync.
pub record Flags : Type 0 where
  pub kubeconfig : String
  pub namespace : String
  pub service_workers : ℕ
  pub config_map_workers : ℕ

unfoldable pub default_flags : Flags
default_flags = record {
  kubeconfig = "";
  namespace = "";
  service_workers = 5;
  config_map_workers = 5;
}

-- buildConfig: where the configuration of the client comes from.
pub data ConfigSource : Type 0 where
  from_file : String → ConfigSource
  in_cluster : ConfigSource

unfoldable build_config : String → ConfigSource
build_config kubeconfig = if kubeconfig == "" then in_cluster else from_file kubeconfig

pub data Controller : Type 0 where
  proxy proxy_service proxy_config_map proxy_deployment : Controller

-- What a call of Register says of a controller.
pub record Registration : Type 0 where
  pub name : String
  pub informers : List Resource
  pub workers : ℕ

unfoldable pub registration : Flags → Controller → Registration
registration flags proxy = record {
  name = "memcached-proxy";
  informers = proxies ∷ [];
  workers = flags.service_workers;
}
registration flags proxy_service = record {
  name = "memcached-proxy-service";
  informers = proxies ∷ services ∷ [];
  workers = flags.service_workers;
}
registration flags proxy_config_map = record {
  name = "memcached-proxy-configmap";
  informers = proxies ∷ config_maps ∷ deployments ∷ replica_sets ∷ services ∷ endpoints ∷ [];
  workers = flags.config_map_workers;
}
registration flags proxy_deployment = record {
  name = "memcached-proxy-deployment";
  informers = proxies ∷ deployments ∷ config_maps ∷ [];
  workers = flags.config_map_workers;
}

-- A change that an informer reports.
pub data ClusterChange : Type 0 where
  proxy_change service_change config_map_change deployment_change replica_set_change :
      Change ObjectMeta → ClusterChange
  endpoints_change : Change Endpoints → ClusterChange

-- What the handlers that a controller has added to the informer do.
unfoldable pub handle : Env → Flags → Controller → ClusterChange → Sync Unit
handle env flags proxy (proxy_change x) = Proxy.on_proxy env x
handle env flags proxy_service (proxy_change x) = ProxyService.on_proxy env x
handle env flags proxy_service (service_change x) = ProxyService.on_service env x
handle env flags proxy_config_map (proxy_change x) = Handler.on_proxy env x
handle env flags proxy_config_map (deployment_change x) = Handler.on_deployment env x
handle env flags proxy_config_map (endpoints_change x) = Handler.on_endpoints env flags.namespace x
handle env flags proxy_deployment (proxy_change x) = ProxyDeployment.on_proxy env x
handle env flags proxy_deployment (config_map_change x) = ProxyDeployment.on_config_map env x
handle env flags proxy_deployment (deployment_change x) = ProxyDeployment.on_deployment env x
handle env flags _ _ = pure tt
