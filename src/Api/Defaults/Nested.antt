-- ===== src/Api/Defaults/Nested.antt =====
-- The tree of rules under the defaults: services get a namespace at every depth, and nested rules keep
-- their types, since the loop over Children calls ApplyDefaults on a copy.
use memcached_operator.Prelude.{
  String, eq_iff, ◌≡◌, ◌≢◌, refl, ap, none, some, List, [], ◌∷◌, map, arith, All,
}
use memcached_operator.Api.Rules.{
  ServiceSpec, RuleSpec, rule, RuleSpecs, nil, cons, default_service, default_rule,
  default_children, all_services, all_services_of_children, nested_types, types_of_children,
}
use mathlib.Core.List.{map-append}

all_services_of_children-default :
    (ns : String) (rs : RuleSpecs)
    → all_services_of_children (default_children ns rs)
      ≡ map (default_service ns) (all_services_of_children rs)
unfolding all_services default_rule
all_services_of_children-default ns nil = refl
all_services_of_children-default ns (cons (rule type none children) rs) = rw (
  map-append,
  all_services_of_children-default ns children,
  all_services_of_children-default ns rs,
)
all_services_of_children-default ns (cons (rule type (some s) children) rs) = rw (
  map-append,
  all_services_of_children-default ns children,
  all_services_of_children-default ns rs,
)

pub all_services-default_rule :
    (ns : String) (r : RuleSpec)
    → all_services (default_rule ns r) ≡ map (default_service ns) (all_services r)
unfolding all_services default_rule
all_services-default_rule ns (rule type none children) =
    all_services_of_children-default ns children
all_services-default_rule ns (rule type (some s) children) =
    ap (λ ss. default_service ns s ∷ ss) (all_services_of_children-default ns children)

types_of_children-default :
    (ns : String) (rs : RuleSpecs)
    → types_of_children (default_children ns rs) ≡ types_of_children rs
unfolding nested_types default_rule
types_of_children-default ns nil = refl
types_of_children-default ns (cons (rule type service children) rs) =
    rw (types_of_children-default ns children, types_of_children-default ns rs)

-- ApplyDefaults changes no type below the root, an empty one included.
nested_types-default_rule :
    (ns : String) (r : RuleSpec) → nested_types (default_rule ns r) ≡ nested_types r
unfolding nested_types default_rule
nested_types-default_rule ns (rule type service children) = types_of_children-default ns children

default_service-ne-empty :
    (ns : String) (s : ServiceSpec) → ns ≢ "" → (default_service ns s).namespace ≢ ""
unfolding default_service
default_service-ne-empty ns s h = ground (arith, eq_iff s.namespace "")

pub All-default_service :
    (ns : String) (ss : List ServiceSpec)
    → ns ≢ ""
    → All (λ s. s.namespace ≢ "") (map (default_service ns) ss)
All-default_service ns [] h = tt
All-default_service ns (s ∷ ss) h = (default_service-ne-empty ns s h, All-default_service ns ss h)
