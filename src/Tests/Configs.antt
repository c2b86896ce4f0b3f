-- ===== src/Tests/Configs.antt =====
-- The configuration of a proxy with one service behind it.
use memcached_operator.ProxyConfigMap.Config.Reader.{read_config}
use memcached_operator.ProxyConfigMap.Pools.Written.{config_for_proxy-read}
use memcached_operator.ProxyConfigMap.Routes.Names.{route_for_rule-shared_pool}
use memcached_operator.Prelude.{
  String, ◌≡◌, ◌↔◌, ◌⊎◌, refl, ap, none, some, [], ◌∷◌, ℤ, Any, insert, lookup,
}
use memcached_operator.Api.Rules.{IntOrString, rule, nil, cons, default_rule, ServiceSpec}
use memcached_operator.Api.Objects.{ServicePort}
use memcached_operator.Operator.Names.{make_name}
use memcached_operator.Runtime.Effects.{errorf}
use memcached_operator.Runtime.Sync.{ok, err, Run, pure, fail}
use memcached_operator.Runtime.Listers.{get_service, get_endpoints}
use memcached_operator.ProxyConfigMap.Config.{
  StringOrRoute, Children, more, Pool, McRouterConfig, config_json,
}
use memcached_operator.ProxyConfigMap.Routes.{
  pool_name_for_service_spec, route_for_rule, sharded_children, replicated_service,
}
use memcached_operator.ProxyConfigMap.Routes.Shape.{
  KnownType, replicated, sharded, IsKnown, with_service, with_children, AreKnown, done, also,
  leaf_services, expected_route, collect, route_for_rule-known, route_for_rule_iff,
}
use memcached_operator.ProxyConfigMap.Routes.Untyped.{
  defaulted, IsKnown-default_rule_iff, route_for_rule-untyped_child,
}
use memcached_operator.ProxyConfigMap.Pools.{
  port_matches, servers_of_subset, servers_of, pool_for_service, pools_for_services,
  config_for_proxy,
}
use memcached_operator.ProxyConfigMap.Pools.Servers.{
  SubsetServes, no_port, Unwanted, IsLastWanted, pool_for_service-cases,
}
use memcached_operator.ProxyConfigMap.Pools.Closed.{has_key, names_pool, config_for_proxy-closed}
use memcached_operator.Tests.Data.{
  libs, env, ready, rules, service_a, subset, fresh, service_for_a, endpoints_a,
}

known_rules : IsKnown rules
known_rules = with_children sharded (also (with_service replicated) done)

abbrev pub config : McRouterConfig
config = record {
  pools = ("adefa", record { servers = "10.0.0.1:11211" ∷ "10.0.0.2:11211" ∷ [] }) ∷ [];
  route = sharded_children (more (replicated_service "adefa") Children.none);
}

pub made : config_for_proxy env ready.spec fresh ≡ pure config fresh
unfolding config_for_proxy route_for_rule pool_name_for_service_spec make_name pools_for_services
    pool_for_service get_service get_endpoints insert servers_of_subset port_matches
made = refl

servers-example :
    servers_of env (IntOrString.int (ℤ.pos 2)) (subset ∷ [])
    ≡ "10.0.0.1:11211" ∷ "10.0.0.2:11211" ∷ []
unfolding servers_of servers_of_subset port_matches
servers-example = refl

route_for_rule-known_example :
    route_for_rule libs rules []
    ≡ (ok (expected_route libs known_rules), collect libs (leaf_services rules) [])
route_for_rule-known_example = route_for_rule-known libs known_rules []

route_for_rule_iff_example :
    ((child : StringOrRoute) × ((route_for_rule libs rules []).0 ≡ ok child)) ↔ IsKnown rules
route_for_rule_iff_example = route_for_rule_iff libs rules []

IsKnown-default_rule_iff_example :
    IsKnown (default_rule "default" (rule "" none (cons (rule "sharded" (some service_a) nil) nil)))
    ↔ (KnownType (defaulted "") × AreKnown (cons (rule "sharded" (some service_a) nil) nil))
IsKnown-default_rule_iff_example =
    IsKnown-default_rule_iff "default" "" (cons (rule "sharded" (some service_a) nil) nil)

route_for_rule-untyped_child_example :
    (route_for_rule libs
      (default_rule "default" (rule "" none (cons (rule "" (some service_a) nil) nil)))
      []).0
    ≡ err (errorf "unknown rule type: %q" ("" ∷ []))
route_for_rule-untyped_child_example =
    route_for_rule-untyped_child libs "default" "" (some service_a) nil nil [] sharded

found_service : get_service env "default" "a" fresh ≡ pure service_for_a fresh
unfolding get_service
found_service = refl

found_endpoints : get_endpoints env "default" "a" fresh ≡ pure endpoints_a fresh
unfolding get_endpoints
found_endpoints = refl

pool_for_service-cases_example :
    ((pool_for_service env service_a fresh ≡ fail (no_port env service_a) fresh)
      × Unwanted service_a.port service_for_a.ports)
    ⊎ ((p : ServicePort) × (pool : Pool) × (pool_for_service env service_a fresh ≡ pure pool fresh)
        × IsLastWanted service_a.port p service_for_a.ports
        × ((x : String)
            → Any (λ y. y ≡ x) pool.servers
              ↔ Any (SubsetServes env p.target_port x) endpoints_a.subsets))
pool_for_service-cases_example =
    pool_for_service-cases env service_a fresh service_for_a endpoints_a found_service
      found_endpoints

config_for_proxy-closed_example :
    (known : IsKnown rules) × (config.route ≡ expected_route libs known)
    × ((name : String) → has_key name config.pools ≡ names_pool libs name (leaf_services rules))
config_for_proxy-closed_example =
    config_for_proxy-closed env ready.spec fresh config
      (ap (λ (r : Run McRouterConfig). r.result) made)

config_for_proxy-read_example :
    ((read_config (config_json config)).route ≡ config.route)
    × (lookup "adefa" (read_config (config_json config)).pools ≡ lookup "adefa" config.pools)
config_for_proxy-read_example =
    config_for_proxy-read env ready.spec fresh config "adefa"
      (ap (λ (r : Run McRouterConfig). r.result) made)

-- Two services with the same pool name.
abbrev service_ab : ServiceSpec
service_ab = record { name = "ab"; namespace = "c"; port = IntOrString.int (ℤ.pos 1) }

abbrev service_bc : ServiceSpec
service_bc = record { name = "a"; namespace = "bc"; port = IntOrString.int (ℤ.pos 1) }

route_for_rule-shared_pool_example :
    (route_for_rule libs
      (rule "sharded" none (
        cons
          (rule "sharded" (some service_ab) nil)
          (cons (rule "sharded" (some service_bc) nil) nil)))
      []).1
    ≡ (pool_name_for_service_spec libs service_bc, service_bc) ∷ []
route_for_rule-shared_pool_example =
    route_for_rule-shared_pool libs service_ab service_bc refl refl "sharded" sharded
