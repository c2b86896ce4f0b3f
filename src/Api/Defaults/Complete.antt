-- ===== src/Api/Defaults/Complete.antt =====
-- What a proxy has after the defaults (types.go).
use memcached_operator.Prelude.{String, eq_iff, ◌≢◌, none, arith, All}
use memcached_operator.Api.Rules.{RuleSpec, rule, default_rule, all_services, root_type}
use memcached_operator.Api.Proxy.{MemcachedProxy, apply_defaults}
use memcached_operator.Api.Defaults.Nested.{all_services-default_rule, All-default_service}

pub record IsComplete (p : MemcachedProxy) : Type 0 where
  pub image : p.spec.mc_router.image ≢ ""
  pub port : p.spec.mc_router.port ≢ none
  pub security_context : p.spec.mc_router.security_context ≢ none
  pub stats_root : p.spec.mc_router.stats_root ≢ ""
  pub type : root_type p.spec.rules ≢ ""
  pub namespaces : All (λ s. s.namespace ≢ "") (all_services p.spec.rules)

default_rule-ne-empty : (ns : String) (r : RuleSpec) → root_type (default_rule ns r) ≢ ""
unfolding default_rule
default_rule-ne-empty ns (rule type service children) =
    ground (arith, eq_iff type "", eq_iff "sharded" "")

image-ne-empty : (p : MemcachedProxy) → (apply_defaults p).spec.mc_router.image ≢ ""
unfolding apply_defaults
image-ne-empty p =
    ground (arith, eq_iff p.spec.mc_router.image "", eq_iff "ianmlewis/mcrouter:v0.36.0-2" "")

stats_root-ne-empty : (p : MemcachedProxy) → (apply_defaults p).spec.mc_router.stats_root ≢ ""
unfolding apply_defaults
stats_root-ne-empty p =
    ground (arith, eq_iff p.spec.mc_router.stats_root "", eq_iff "/var/mcrouter/stats" "")

pub port-ne-none : (p : MemcachedProxy) → (apply_defaults p).spec.mc_router.port ≢ none
unfolding apply_defaults
port-ne-none p = ground arith

security_context-ne-none :
    (p : MemcachedProxy) → (apply_defaults p).spec.mc_router.security_context ≢ none
unfolding apply_defaults
security_context-ne-none p = ground arith

namespaces-ne-empty :
    (p : MemcachedProxy)
    → p.meta.namespace ≢ ""
    → All (λ s. s.namespace ≢ "") (all_services (apply_defaults p).spec.rules)
unfolding apply_defaults
namespaces-ne-empty p h =
    rw (all_services-default_rule p.meta.namespace p.spec.rules)
      (All-default_service p.meta.namespace (all_services p.spec.rules) h)

type-ne-empty : (p : MemcachedProxy) → root_type (apply_defaults p).spec.rules ≢ ""
unfolding apply_defaults
type-ne-empty p = default_rule-ne-empty p.meta.namespace p.spec.rules

-- After ApplyDefaults on a proxy that has a namespace, the image, the port, the security context,
-- the stats root and the type of the root rule are set, and every service in the tree of rules
-- has a namespace.
pub apply_defaults-IsComplete :
    (p : MemcachedProxy) → p.meta.namespace ≢ "" → IsComplete (apply_defaults p)
apply_defaults-IsComplete p h = record {
  image = image-ne-empty p;
  port = port-ne-none p;
  security_context = security_context-ne-none p;
  stats_root = stats_root-ne-empty p;
  type = type-ne-empty p;
  namespaces = namespaces-ne-empty p h;
}
