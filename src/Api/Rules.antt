-- ===== src/Api/Rules.antt =====
-- Routing rules: RuleSpec and ServiceSpec of types.go. A rule holds a list of rules, so the list
-- is a type of the same block.
use memcached_operator.Prelude.{
  String, ◌==◌, Option, ℤ, Option-map, if◌then◌else◌, none, some, List, [], ◌∷◌, ◌++◌,
}

-- intstr.IntOrString: `int` is the zero value of its Type.
pub data IntOrString : Type 0 where
  int : ℤ → IntOrString
  str : String → IntOrString

pub record ServiceSpec : Type 0 where
  pub name : String
  pub namespace : String
  pub port : IntOrString

mutual
  pub data RuleSpec : Type 0 where
    rule : (type : String) → Option ServiceSpec → RuleSpecs → RuleSpec

  pub data RuleSpecs : Type 0 where
    nil : RuleSpecs
    cons : RuleSpec → RuleSpecs → RuleSpecs

-- The rule types that the operator knows.
abbrev pub replicated_rule_type : String
replicated_rule_type = "replicated"

abbrev pub sharded_rule_type : String
sharded_rule_type = "sharded"

-- ServiceSpec.ApplyDefaults, given the namespace of the proxy.
unfoldable pub default_service : String → ServiceSpec → ServiceSpec
default_service ns s = record s { namespace = if s.namespace == "" then ns else s.namespace }

-- What a caller sees of a struct after a method was called on a copy of it: its own field `Type`
-- is as before, and what the copy shares by pointer (Service, the array of Children) is changed.
abbrev pub after_copy : RuleSpec → RuleSpec → RuleSpec
after_copy (rule type _ _) (rule _ service children) = rule type service children

-- RuleSpec.ApplyDefaults. The loop variable of `for _, r := range r.Children` is a copy.
unfoldable mutual
  pub default_rule : String → RuleSpec → RuleSpec
  default_rule ns (rule type service children) =
      rule (if type == "" then sharded_rule_type else type)
        (Option-map (default_service ns) service) (default_children ns children)

  pub default_children : String → RuleSpecs → RuleSpecs
  default_children ns nil = nil
  default_children ns (cons r rs) = cons (after_copy r (default_rule ns r)) (default_children ns rs)

-- Every service of the tree of rules, parents first.
unfoldable mutual
  pub all_services : RuleSpec → List ServiceSpec
  all_services (rule type none children) = all_services_of_children children
  all_services (rule type (some s) children) = s ∷ all_services_of_children children

  pub all_services_of_children : RuleSpecs → List ServiceSpec
  all_services_of_children nil = []
  all_services_of_children (cons r rs) = all_services r ++ all_services_of_children rs

-- The type of a rule, and the types of all rules below it.
abbrev pub root_type : RuleSpec → String
root_type (rule type service children) = type

unfoldable mutual
  pub nested_types : RuleSpec → List String
  nested_types (rule type service children) = types_of_children children

  pub types_of_children : RuleSpecs → List String
  types_of_children nil = []
  types_of_children (cons r rs) = root_type r ∷ (nested_types r ++ types_of_children rs)
