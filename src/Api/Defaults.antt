-- ===== src/Api/Defaults.antt =====
-- What ApplyDefaults does to a whole proxy (types.go): it is complete at the root, it keeps what is set,
-- and it leaves the types of nested rules alone.
pub mod Complete
pub mod Nested
pub mod Fixed
use memcached_operator.Prelude.{
  String, ◌==◌, eq_iff, ◌≡◌, ◌≢◌, refl, ap, Option, none, some, List, [], ◌∷◌, ◌++◌, map, arith,
  All, ℤ, Option-map, if◌then◌else◌,
}
use memcached_operator.Api.Rules.{
  ServiceSpec, RuleSpec, rule, RuleSpecs, nil, cons, default_service, default_rule,
  default_children,
}
use memcached_operator.Api.Proxy.{
  McRouterSpec, MemcachedProxySpec, MemcachedProxy, default_mc_router, default_spec, apply_defaults,
  default_image, default_port, default_stats_root, default_security_context,
}

default_service_idem :
    (ns : String) (s : ServiceSpec)
    → default_service ns (default_service ns s) ≡ default_service ns s
unfolding default_service
default_service_idem ns s = ground (arith, eq_iff s.namespace "", eq_iff ns "")

default_service_option_idem :
    (ns : String) (s : Option ServiceSpec)
    → Option-map (default_service ns) (Option-map (default_service ns) s)
      ≡ Option-map (default_service ns) s
default_service_option_idem ns none = refl
default_service_option_idem ns (some s) = ap some (default_service_idem ns s)

default_children_idem :
    (ns : String) (rs : RuleSpecs)
    → default_children ns (default_children ns rs) ≡ default_children ns rs
unfolding default_rule
default_children_idem ns nil = refl
default_children_idem ns (cons (rule type service children) rs) = rw (
  default_service_option_idem ns service,
  default_children_idem ns children,
  default_children_idem ns rs,
)

-- The type that a rule has after its own ApplyDefaults.
abbrev defaulted_type : String → String
defaulted_type type = if type == "" then "sharded" else type

defaulted_type_idem : (type : String) → defaulted_type (defaulted_type type) ≡ defaulted_type type
defaulted_type_idem type = ground (arith, eq_iff type "")

default_rule_idem :
    (ns : String) (r : RuleSpec) → default_rule ns (default_rule ns r) ≡ default_rule ns r
unfolding default_rule
default_rule_idem ns (rule type service children) = rw (
  defaulted_type_idem type,
  default_service_option_idem ns service,
  default_children_idem ns children,
)

default_mc_router_idem :
    (s : McRouterSpec) → default_mc_router (default_mc_router s) ≡ default_mc_router s
unfolding default_mc_router
default_mc_router_idem s = ground (arith, eq_iff s.image "", eq_iff s.stats_root "")

pub default_spec_idem :
    (ns : String) (s : MemcachedProxySpec) → default_spec ns (default_spec ns s) ≡ default_spec ns s
unfolding default_spec
default_spec_idem ns s = cc (default_rule_idem ns s.rules, default_mc_router_idem s.mc_router)
