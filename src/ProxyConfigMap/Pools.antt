-- ===== src/ProxyConfigMap/Pools.antt =====
-- The server pool of a service, and the whole configuration of a proxy: poolForService, portMatches
-- and configForProxy of config.go.
pub mod Servers
pub mod Closed
pub mod Written
pub mod Safety
use memcached_operator.Prelude.{
  String, ◌<>◌, ◌==◌, Bool, ◌&&◌, Option, none, some, List, [], ◌∷◌, ◌++◌, Dict, int_eq, insert,
  map, if◌then◌else◌,
}
use memcached_operator.Api.Rules.{IntOrString, int, str, ServiceSpec}
use memcached_operator.Api.Proxy.{MemcachedProxySpec}
use memcached_operator.Api.Objects.{ServicePort, EndpointPort, EndpointAddress, EndpointSubset}
use memcached_operator.Runtime.Effects.{errorf}
use memcached_operator.Runtime.Env.{Env}
use memcached_operator.Runtime.Sync.{Result, ok, err, Sync, ◌>>=◌, pure, lift}
use memcached_operator.Runtime.Listers.{get_service, get_endpoints}
use memcached_operator.ProxyConfigMap.Config.{Pool, McRouterConfig}
use memcached_operator.ProxyConfigMap.Routes.{Services, route_for_rule, port_string}

-- Whether a port of the service is the one that the rule names, by its number or its name.
abbrev pub is_port : IntOrString → ServicePort → Bool
is_port (int n) p = int_eq p.port n
is_port (str s) p = p.name == s

-- The loop over svc.Spec.Ports: a later match replaces an earlier one.
unfoldable pub service_port :
    IntOrString → Option ServicePort → List ServicePort → Option ServicePort
service_port wanted port [] = port
service_port wanted port (p ∷ ps) =
    service_port wanted (if is_port wanted p then some p else port) ps

unfoldable pub port_matches : EndpointPort → IntOrString → Bool
port_matches eport (int n) = eport.protocol == "TCP" && int_eq eport.port n
port_matches eport (str s) = eport.protocol == "TCP" && eport.name == s

module _ (env : Env) where
  -- addr.IP + ":" + fmt.Sprint(eport.Port)
  abbrev pub server : EndpointPort → EndpointAddress → String
  server eport addr = addr.ip <> (":" <> env.print_int eport.port)

  -- The loops over the ports of a subset, and over the subsets.
  unfoldable pub servers_of_subset :
      IntOrString → List EndpointAddress → List EndpointPort → List String
  servers_of_subset target addresses [] = []
  servers_of_subset target addresses (eport ∷ eports) =
      (if port_matches eport target then map (server eport) addresses else [])
      ++ servers_of_subset target addresses eports

  unfoldable pub servers_of : IntOrString → List EndpointSubset → List String
  servers_of target [] = []
  servers_of target (subset ∷ subsets) =
      servers_of_subset target subset.addresses subset.ports ++ servers_of target subsets

  -- `if port == nil { return pool, … }`
  abbrev pub port_or_fail : ServiceSpec → Option ServicePort → Result ServicePort
  port_or_fail s none = err (
      errorf "failed to find port %q for service %q"
        (port_string env.libs s.port ∷ (s.namespace <> ("/" <> s.name)) ∷ []))
  port_or_fail s (some port) = ok port

  unfoldable pub pool_for_service : ServiceSpec → Sync Pool
  unfolding service_port servers_of
  pool_for_service s = do
    svc ← get_service env s.namespace s.name
    port ← lift (port_or_fail s (service_port s.port none svc.ports))
    ep ← get_endpoints env svc.meta.namespace svc.meta.name
    pure (record { servers = servers_of port.target_port ep.subsets })

  -- The loop over the services. Go visits the entries of a map in any order.
  unfoldable pub pools_for_services : Services → Dict Pool → Sync (Dict Pool)
  pools_for_services [] pools = pure pools
  pools_for_services ((pool_name, s) ∷ services) pools = do
    pool ← pool_for_service s
    pools_for_services services (insert pool_name pool pools)

  unfoldable pub config_for_proxy : MemcachedProxySpec → Sync McRouterConfig
  config_for_proxy spec = do
    let routed = route_for_rule env.libs spec.rules []
    route ← lift routed.0
    pools ← pools_for_services routed.1 []
    pure (record { pools = pools; route = route })
