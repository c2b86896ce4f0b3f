-- ===== src/ProxyConfigMap/Pools/Closed.antt =====
-- The pools of a configuration are those of the leaf services of its rules.
use memcached_operator.Prelude.{
  String, ◌==◌, ◌≡◌, refl, ap, sym, ◌∙◌, Bool, true, false, ◌||◌, none, some, List, [], ◌∷◌, arith,
  exists, Dict, insert, lookup, lookup-insert, or-false,
}
use memcached_operator.Api.Rules.{ServiceSpec}
use memcached_operator.Api.Proxy.{MemcachedProxySpec}
use memcached_operator.Runtime.Env.{Env, Libs}
use memcached_operator.Runtime.Sync.{Cache, Result, ok, Sync, ◌>>=◌, pure, lift}
use memcached_operator.Runtime.Monad.{bind-ok}
use memcached_operator.ProxyConfigMap.Config.{StringOrRoute, Pool, McRouterConfig}
use memcached_operator.ProxyConfigMap.Routes.{Services, pool_name_for_service_spec, route_for_rule}
use memcached_operator.ProxyConfigMap.Routes.Shape.{
  IsKnown, leaf_services, expected_route, collect, route_for_rule-known, route_for_rule_iff,
}
use memcached_operator.ProxyConfigMap.Pools.{pool_for_service, pools_for_services, config_for_proxy}

-- Whether a map has an entry for a key.
abbrev pub has_key : {V : Type 0} → String → Dict V → Bool
has_key k m = elim (lookup k m) [ none ↦ false | some v ↦ true ]

has_key-insert :
    {V : Type 0} (k j : String) (v : V) (m : Dict V)
    → has_key j (insert k v m) ≡ (k == j) || has_key j m
has_key-insert k j v m = ground (arith, lookup-insert k j v m)

has_key-nil : (V : Type 0) (k : String) → has_key {V = V} k [] ≡ false
unfolding lookup
has_key-nil V k = refl

has_key-cons :
    {V : Type 0} (k j : String) (v : V) (m : Dict V)
    → has_key j ((k, v) ∷ m) ≡ (k == j) || has_key j m
unfolding lookup
has_key-cons k j v m = ground arith

module _ (libs : Libs) where
  -- Whether a pool name belongs to one of the services.
  abbrev pub names_pool : String → List ServiceSpec → Bool
  names_pool name ss = exists (λ s. pool_name_for_service_spec libs s == name) ss

  has_key-collect :
      (name : String) (ss : List ServiceSpec) (services : Services)
      → has_key name (collect libs ss services) ≡ names_pool name ss || has_key name services
  has_key-collect name [] services = refl
  has_key-collect name (s ∷ ss) services =
      let pool_name = pool_name_for_service_spec libs s in
      ground (
        arith,
        has_key-collect name ss (insert pool_name s services),
        has_key-insert pool_name name s services,
      )

module _ (env : Env) where
  -- A loop over the services that returns has made a pool for each of them.
  pools_for_services-keys :
      (name : String) (services : Services) (pools : Dict Pool) (c : Cache) (made : Dict Pool)
      → (pools_for_services env services pools c).result ≡ ok made
      → has_key name made ≡ has_key name services || has_key name pools
  unfolding pools_for_services
  pools_for_services-keys name [] pools c made h =
      let same : pools ≡ made = cc in
      ap (has_key name) (sym same)
      ∙ ap (λ (b : Bool). b || has_key name pools) (sym (has_key-nil ServiceSpec name))
  pools_for_services-keys name ((pool_name, s) ∷ services) pools c made h =
      let (pool, first, rest) =
        bind-ok (pool_for_service env s)
          (λ pool. pools_for_services env services (insert pool_name pool pools)) c h in
      ground (
        arith,
        pools_for_services-keys name services (insert pool_name pool pools)
            (pool_for_service env s c).cache made rest,
        has_key-cons pool_name name s services,
        has_key-insert pool_name name pool pools,
      )

  -- The part of configForProxy that has the route.
  abbrev with_route : MemcachedProxySpec → StringOrRoute → Sync McRouterConfig
  with_route spec route = do
    pools ← pools_for_services env (route_for_rule env.libs spec.rules []).1 []
    pure (record { pools = pools; route = route })

  opened :
      (spec : MemcachedProxySpec) (c : Cache) {config : McRouterConfig}
      → (config_for_proxy env spec c).result ≡ ok config
      → ((lift (route_for_rule env.libs spec.rules []).0 >>= with_route spec) c).result ≡ ok config
  unfolding config_for_proxy
  opened spec c h = h

  -- What is known once the rules have known types.
  closed_by :
      (spec : MemcachedProxySpec) (c : Cache) (config : McRouterConfig) (known : IsKnown spec.rules)
      (out : Result StringOrRoute) (services : Services) (route : StringOrRoute) (pools : Dict Pool)
      → ◌≡◌ {A = Result StringOrRoute × Services}
          (out, services)
          (ok (expected_route env.libs known), collect env.libs (leaf_services spec.rules) [])
      → out ≡ ok route
      → (pools_for_services env services [] c).result ≡ ok pools
      → route ≡ config.route
      → pools ≡ config.pools
      → (config.route ≡ expected_route env.libs known)
        × ((name : String)
            → has_key name config.pools ≡ names_pool env.libs name (leaf_services spec.rules))
  unfolding lookup
  closed_by spec c config known out services route pools shape routed made same_route same_pools =
      let same_services : services ≡ collect env.libs (leaf_services spec.rules) [] =
        ap (λ (q : Result StringOrRoute × Services). q.1) shape in
      let is_expected : out ≡ ok (expected_route env.libs known) =
        ap (λ (q : Result StringOrRoute × Services). q.0) shape in
      let same : route ≡ expected_route env.libs known = cc in
      (
        sym same_route ∙ same,
        λ name.
            let keys = pools_for_services-keys name services [] c pools made in
            let collected = has_key-collect env.libs name (leaf_services spec.rules) [] in
            ap (has_key name) (sym same_pools)
            ∙ keys
            ∙ or-false (has_key name services)
            ∙ ap (has_key name) same_services
            ∙ collected
            ∙ or-false (names_pool env.libs name (leaf_services spec.rules)),
      )

  -- If configForProxy returns a configuration, then every visited rule of the proxy has a known
  -- type, the route of the configuration is the one that the tree of rules describes, and the
  -- configuration has a pool under a name exactly if a leaf service of the rules has that pool
  -- name.
  pub config_for_proxy-closed :
      (spec : MemcachedProxySpec) (c : Cache) (config : McRouterConfig)
      → (config_for_proxy env spec c).result ≡ ok config
      → (known : IsKnown spec.rules) × (config.route ≡ expected_route env.libs known)
        × ((name : String)
            → has_key name config.pools ≡ names_pool env.libs name (leaf_services spec.rules))
  config_for_proxy-closed spec c config h =
      let (route, routed, rest) =
        bind-ok (lift (route_for_rule env.libs spec.rules []).0) (with_route spec) c
          (opened spec c h) in
      let (pools, made, end) =
        bind-ok (pools_for_services env (route_for_rule env.libs spec.rules []).1 [])
          (λ pools. pure (record { pools = pools; route = route })) c rest in
      let known = (route_for_rule_iff env.libs spec.rules []).0 (route, routed) in
      let shape = route_for_rule-known env.libs known [] in
      let same_route : route ≡ config.route = cc in
      let same_pools : pools ≡ config.pools = cc in
      let (is_expected, keys) =
        closed_by spec c config known (route_for_rule env.libs spec.rules []).0
          (route_for_rule env.libs spec.rules []).1 route pools shape routed made same_route
          same_pools in
      (known, is_expected, keys)
