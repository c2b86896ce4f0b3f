-- ===== src/ProxyConfigMap/Routes.antt =====
-- The route of a rule, and the services that its pools stand for: routeForRule and
-- poolNameForServiceSpec of config.go. The map of services is threaded through.
pub mod Shape
pub mod Untyped
pub mod Names
use memcached_operator.Prelude.{
  String, ◌<>◌, ◌==◌, Option, none, some, [], ◌∷◌, Dict, insert, if◌then◌else◌,
}
use memcached_operator.Api.Rules.{
  IntOrString, int, str, ServiceSpec, RuleSpec, rule, RuleSpecs, nil, cons, replicated_rule_type,
  sharded_rule_type,
}
use memcached_operator.Operator.Names.{make_name}
use memcached_operator.Runtime.Effects.{errorf}
use memcached_operator.Runtime.Env.{Libs}
use memcached_operator.Runtime.Sync.{Result, ok, err, panic}
use memcached_operator.ProxyConfigMap.Config.{
  StringOrRoute, string_or_route, no_route, a_route, route, no_policy, a_policy, no_policies,
  policies, Children, more,
}
use memcached_operator.ProxyConfigMap.Config

abbrev pub Services : Type 0
Services = Dict ServiceSpec

abbrev string_route : String → StringOrRoute
string_route s = string_or_route no_route s

abbrev object_route : Config.Route → StringOrRoute
object_route r = string_or_route (a_route r) ""

-- Operations by default, and deletions.
abbrev selector_route : (default delete : StringOrRoute) → StringOrRoute
selector_route default delete = object_route (
    route "OperationSelectorRoute" (a_policy default)
      (policies no_policy no_policy (a_policy delete) no_policy) Children.none)

abbrev pub replicated_service : String → StringOrRoute
replicated_service pool_name =
    selector_route (string_route ("AllSyncRoute|Pool|" <> pool_name))
      (string_route ("LatestRoute|Pool|" <> pool_name))

abbrev replicated_children : Children → StringOrRoute
replicated_children children =
    selector_route (object_route (route "AllSyncRoute" no_policy no_policies children))
      (object_route (route "LatestRoute" no_policy no_policies children))

abbrev sharded_service : String → StringOrRoute
sharded_service pool_name = string_route ("PoolRoute|" <> pool_name)

abbrev pub sharded_children : Children → StringOrRoute
sharded_children children = object_route (route "HashRoute" no_policy no_policies children)

abbrev pub Routed : Type 0 → Type 0
Routed A = Result A × Services

-- The rest of a function after the call of another that may have failed.
abbrev pub then_ok : {A B : Type 0} → Routed A → (A → Services → Routed B) → Routed B
then_ok (ok a, services) f = f a services
then_ok (err e, services) f = (err e, services)
then_ok (panic, services) f = (panic, services)

module _ (libs : Libs) where
  open libs use {print_int}

  -- intstr.IntOrString.String
  abbrev pub port_string : IntOrString → String
  port_string (int n) = print_int n
  port_string (str s) = s

  unfoldable pub pool_name_for_service_spec : ServiceSpec → String
  pool_name_for_service_spec s = make_name libs "" (s.name ∷ s.namespace ∷ port_string s.port ∷ [])

  -- The branch of a rule with a service, and that of a rule with children.
  abbrev pub for_service : (String → StringOrRoute) → ServiceSpec → Services → Routed StringOrRoute
  for_service make s services =
      let pool_name = pool_name_for_service_spec s in
      (ok (make pool_name), insert pool_name s services)

  abbrev pub for_children : (Children → StringOrRoute) → Routed Children → Routed StringOrRoute
  for_children make r = then_ok r (λ children services. (ok (make children), services))

  abbrev pub for_rule :
      (String → StringOrRoute)
      → (Children → StringOrRoute)
      → Option ServiceSpec
      → (Services → Routed Children)
      → Services
      → Routed StringOrRoute
  for_rule of_pool of_children (some s) children services = for_service of_pool s services
  for_rule of_pool of_children none children services = for_children of_children (children services)

  unfoldable mutual
    pub route_for_rule : RuleSpec → Services → Routed StringOrRoute
    route_for_rule (rule type service children) services =
        let by_children = route_for_children children in
        if type == replicated_rule_type
        then for_rule replicated_service replicated_children service by_children services
        else if type == sharded_rule_type
        then for_rule sharded_service sharded_children service by_children services
        else (err (errorf "unknown rule type: %q" (type ∷ [])), services)

    -- The loop over r.Children.
    pub route_for_children : RuleSpecs → Services → Routed Children
    route_for_children nil services = (ok Children.none, services)
    route_for_children (cons r rs) services = then_ok (route_for_rule r services) λ child services'.
        then_ok (route_for_children rs services')
          λ children services''. (ok (more child children), services'')
