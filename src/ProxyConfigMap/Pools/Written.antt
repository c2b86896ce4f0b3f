-- ===== src/ProxyConfigMap/Pools/Written.antt =====
-- The document of a configuration that configForProxy makes can be read back.
use Prim.Native.String.{count}
use package.text.Mathlib.TextLemmas.{length-append}
use memcached_operator.Prelude.{String, ◌<>◌, ◌≡◌, ◌≢◌, ◌<◌, subst, sym, ap, arith, lookup, refl}
use memcached_operator.Api.Rules.{RuleSpec, RuleSpecs}
use memcached_operator.Api.Proxy.{MemcachedProxySpec}
use memcached_operator.Runtime.Env.{Env, Libs}
use memcached_operator.Runtime.Sync.{Cache, ok}
use memcached_operator.ProxyConfigMap.Config.{McRouterConfig, config_json}
use memcached_operator.ProxyConfigMap.Config.Reader.{read_config}
use memcached_operator.ProxyConfigMap.Config.RoundTrip.{
  IsProper, AreProper, read_config-config_json,
}
use memcached_operator.ProxyConfigMap.Routes.{pool_name_for_service_spec}
use memcached_operator.ProxyConfigMap.Routes.Shape.{
  replicated, sharded, IsKnown, with_service, with_children, AreKnown, done, also, expected_route,
  expected_children,
}
use memcached_operator.ProxyConfigMap.Pools.{config_for_proxy}
use memcached_operator.ProxyConfigMap.Pools.Closed.{config_for_proxy-closed}

-- A text with a prefix is not empty.
append-ne : (s t : String) → 0 < count s → s <> t ≢ ""
append-ne s t h e = omega (arith, length-append s t, ap count e)

module _ (libs : Libs) where
  mutual
    unfolding IsProper expected_route

    expected_route-IsProper :
        {r : RuleSpec} (known : IsKnown r) → IsProper (expected_route libs known)
    expected_route-IsProper (with_service {s} replicated) =
        let name = pool_name_for_service_spec libs s in
        (
          refl,
          (
            append-ne "AllSyncRoute|Pool|" name (omega arith),
            (tt, tt, append-ne "LatestRoute|Pool|" name (omega arith), refl),
            tt,
          ),
        )
    expected_route-IsProper (with_service {s} sharded) =
        append-ne "PoolRoute|" (pool_name_for_service_spec libs s) (omega arith)
    expected_route-IsProper (with_children replicated known) =
        let ih = expected_children-AreProper known in
        (refl, ((refl, (tt, tt, ih)), (tt, tt, (refl, (tt, tt, ih)), refl), tt))
    expected_route-IsProper (with_children sharded known) =
        (refl, (tt, tt, expected_children-AreProper known))

    expected_children-AreProper :
        {rs : RuleSpecs} (known : AreKnown rs) → AreProper (expected_children libs known)
    expected_children-AreProper done = tt
    expected_children-AreProper (also known rest) =
        (expected_route-IsProper known, expected_children-AreProper rest)

module _ (env : Env) where
  -- If configForProxy returns a configuration, then a reader of its JSON document, which takes
  -- each member by the name that mcrouter documents and in any order, finds the same route, and
  -- under every name the same pool, or none where the configuration has none.
  pub config_for_proxy-read :
      (spec : MemcachedProxySpec) (c : Cache) (config : McRouterConfig) (name : String)
      → (config_for_proxy env spec c).result ≡ ok config
      → ((read_config (config_json config)).route ≡ config.route)
        × (lookup name (read_config (config_json config)).pools ≡ lookup name config.pools)
  config_for_proxy-read spec c config name h =
      let (known, is_expected, _) = config_for_proxy-closed env spec c config h in
      read_config-config_json config name
        (subst IsProper (sym is_expected) (expected_route-IsProper env.libs known))
