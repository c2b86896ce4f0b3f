-- ===== src/ProxyConfigMap/Pools/Safety.antt =====
-- configForProxy never panics.
use memcached_operator.ProxyConfigMap.Config.{Pool}
use memcached_operator.Prelude.{
  ◌==◌, ◌≢◌, refl, inl, inr, Option, none, some, [], ◌∷◌, Bool-cases, insert, Dict,
}
use memcached_operator.Api.Rules.{
  ServiceSpec, RuleSpec, RuleSpecs, rule, nil, cons, replicated_rule_type, sharded_rule_type,
}
use memcached_operator.Api.Proxy.{MemcachedProxySpec}
use memcached_operator.Api.Objects.{ServicePort}
use memcached_operator.Runtime.Env.{Env, Libs}
use memcached_operator.Runtime.Sync.{ok, err, panic, lift}
use memcached_operator.Runtime.Listers.{get_service, get_endpoints}
use memcached_operator.Runtime.Listers.Safety.{get_service-IsSafe, get_endpoints-IsSafe}
use memcached_operator.Runtime.Safety.{IsSafe, bind-IsSafe}
use memcached_operator.ProxyConfigMap.Routes.{
  Services, Routed, then_ok, route_for_rule, route_for_children,
}
use memcached_operator.ProxyConfigMap.Pools.{
  port_or_fail, service_port, pool_for_service, pools_for_services, config_for_proxy,
}

module _ (libs : Libs) where
  then_ok-ne-panic :
      {A B : Type 0} (r : Routed A) (f : A → Services → Routed B)
      → r.0 ≢ panic
      → ((a : A) (services : Services) → (f a services).0 ≢ panic)
      → (then_ok r f).0 ≢ panic
  then_ok-ne-panic (ok a, services) f h h' = h' a services
  then_ok-ne-panic (err e, services) f h h' = λ k. cc
  then_ok-ne-panic (panic, services) f h h' = absurd (h refl)

  mutual
    unfolding route_for_rule

    route_for_rule-ne-panic :
        (r : RuleSpec) (services : Services) → (route_for_rule libs r services).0 ≢ panic
    route_for_rule-ne-panic (rule type (some s) children) services =
        elim (Bool-cases (type == replicated_rule_type)) [
          | inl e ↦ rw e (λ h. cc)
          | inr e ↦ elim (Bool-cases (type == sharded_rule_type)) [
            | inl e' ↦ rw (e, e') (λ h. cc)
            | inr e' ↦ rw (e, e') (λ h. cc)
          ]
        ]
    route_for_rule-ne-panic (rule type none children) services =
        let ih = route_for_children-ne-panic children services in
        elim (Bool-cases (type == replicated_rule_type)) [
          | inl e ↦ rw e (then_ok-ne-panic _ _ ih (λ cs ss h. cc))
          | inr e ↦ elim (Bool-cases (type == sharded_rule_type)) [
            | inl e' ↦ rw (e, e') (then_ok-ne-panic _ _ ih (λ cs ss h. cc))
            | inr e' ↦ rw (e, e') (λ h. cc)
          ]
        ]

    route_for_children-ne-panic :
        (rs : RuleSpecs) (services : Services) → (route_for_children libs rs services).0 ≢ panic
    route_for_children-ne-panic nil services = λ h. cc
    route_for_children-ne-panic (cons r rs) services =
        then_ok-ne-panic (route_for_rule libs r services) _ (route_for_rule-ne-panic r services)
          (λ child services'.
            then_ok-ne-panic (route_for_children libs rs services') _
              (route_for_children-ne-panic rs services') (λ cs ss h. cc))

module _ (env : Env) where
  port_or_fail-ne-panic :
      (s : ServiceSpec) (port : Option ServicePort) → port_or_fail env s port ≢ panic
  port_or_fail-ne-panic s none h = cc
  port_or_fail-ne-panic s (some port) h = cc

  pool_for_service-IsSafe : (s : ServiceSpec) → IsSafe (pool_for_service env s)
  unfolding pool_for_service
  pool_for_service-IsSafe s =
      bind-IsSafe (get_service env s.namespace s.name) _ (get_service-IsSafe env s.namespace s.name)
        (λ svc.
          bind-IsSafe (lift (port_or_fail env s (service_port s.port none svc.ports))) _
            (λ c. port_or_fail-ne-panic s (service_port s.port none svc.ports))
            (λ port.
              bind-IsSafe (get_endpoints env svc.meta.namespace svc.meta.name) _
                (get_endpoints-IsSafe env svc.meta.namespace svc.meta.name) (λ ep c h. cc)))

  pools_for_services-IsSafe :
      (services : Services) (pools : Dict Pool) → IsSafe (pools_for_services env services pools)
  unfolding pools_for_services
  pools_for_services-IsSafe [] pools = λ c h. cc
  pools_for_services-IsSafe ((name, s) ∷ services) pools =
      bind-IsSafe (pool_for_service env s) _ (pool_for_service-IsSafe s)
        (λ pool. pools_for_services-IsSafe services (insert name pool pools))

  pub config_for_proxy-IsSafe : (spec : MemcachedProxySpec) → IsSafe (config_for_proxy env spec)
  unfolding config_for_proxy
  config_for_proxy-IsSafe spec =
      let routed = route_for_rule env.libs spec.rules [] in
      bind-IsSafe (lift routed.0) _ (λ c. route_for_rule-ne-panic env.libs spec.rules [])
        (λ route.
          bind-IsSafe (pools_for_services env routed.1 []) _ (pools_for_services-IsSafe routed.1 [])
            (λ pools c h. cc))
