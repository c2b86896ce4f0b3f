-- ===== src/ProxyConfigMap/Routes/Untyped.antt =====
-- Nested rules without a type: the defaults do not reach them, and routeForRule refuses them.
use memcached_operator.Prelude.{
  String, ◌==◌, ◌≡◌, ◌↔◌, refl, Option, none, some, [], ◌∷◌, if◌then◌else◌, Option-map,
}
use memcached_operator.Api.Rules.{
  ServiceSpec, rule, RuleSpecs, nil, cons, default_rule, default_children, default_service,
}
use memcached_operator.Runtime.Effects.{errorf}
use memcached_operator.Runtime.Env.{Libs}
use memcached_operator.Runtime.Sync.{err}
use memcached_operator.ProxyConfigMap.Routes.{Services, route_for_rule}
use memcached_operator.ProxyConfigMap.Routes.Shape.{
  KnownType, replicated, sharded, IsKnown, with_service, with_children, AreKnown, done, also,
}

-- The type of a rule after its own ApplyDefaults.
abbrev pub defaulted : String → String
defaulted type = if type == "" then "sharded" else type

AreKnown-default_children :
    (ns : String) (rs : RuleSpecs) → AreKnown (default_children ns rs) → AreKnown rs
unfolding default_rule
AreKnown-default_children ns nil known = done
AreKnown-default_children ns (cons (rule type none children) rs)
      (also (with_children t known) rest) =
    also (with_children t (AreKnown-default_children ns children known))
      (AreKnown-default_children ns rs rest)
AreKnown-default_children ns (cons (rule type (some s) children) rs) (also (with_service t) rest) =
    also (with_service t) (AreKnown-default_children ns rs rest)

default_children-AreKnown :
    (ns : String) (rs : RuleSpecs) → AreKnown rs → AreKnown (default_children ns rs)
unfolding default_rule
default_children-AreKnown ns nil known = done
default_children-AreKnown ns (cons (rule type none children) rs)
      (also (with_children t known) rest) =
    also (with_children t (default_children-AreKnown ns children known))
      (default_children-AreKnown ns rs rest)
default_children-AreKnown ns (cons (rule type (some s) children) rs) (also (with_service t) rest) =
    also (with_service t) (default_children-AreKnown ns rs rest)

-- For a rule without a service, routeForRule has known types to visit after ApplyDefaults exactly
-- if the type of the rule, with "sharded" in place of an empty one, is known, and its children
-- had known types already before ApplyDefaults.
pub IsKnown-default_rule_iff :
    (ns type : String) (children : RuleSpecs)
    → IsKnown (default_rule ns (rule type none children))
      ↔ (KnownType (defaulted type) × AreKnown children)
unfolding default_rule
IsKnown-default_rule_iff ns type children = (
  λ known. inverted known,
  λ (t, known). with_children t (default_children-AreKnown ns children known),
)
  where
    inverted :
        IsKnown (rule (defaulted type) none (default_children ns children))
        → KnownType (defaulted type) × AreKnown children
    inverted (with_children t known) = (t, AreKnown-default_children ns children known)

-- For a rule without a service whose type is known or empty and whose first child has no type,
-- routeForRule returns the error about an unknown rule type even after ApplyDefaults.
pub route_for_rule-untyped_child :
    (libs : Libs) (ns type : String) (s : Option ServiceSpec) (children rest : RuleSpecs)
    (services : Services)
    → KnownType (defaulted type)
    → (route_for_rule libs
        (default_rule ns (rule type none (cons (rule "" s children) rest)))
        services).0
      ≡ err (errorf "unknown rule type: %q" ("" ∷ []))
unfolding default_rule route_for_rule
route_for_rule-untyped_child libs ns type s children rest services known = untyped _ known
  where
    untyped :
        (t : String)
        → KnownType t
        → (route_for_rule libs
            (rule t none (
              cons
                (rule "" (Option-map (default_service ns) s) (default_children ns children))
                (default_children ns rest)))
            services).0
          ≡ err (errorf "unknown rule type: %q" ("" ∷ []))
    untyped t replicated = refl
    untyped t sharded = refl
