-- ===== src/ProxyConfigMap/Routes/Shape.antt =====
-- routeForRule against a description of it: which rules it accepts, the route of an accepted rule, and the
-- services that it collects.
use memcached_operator.Prelude.{
  String, ◌<>◌, ◌==◌, eq_iff, ◌≡◌, ◌↔◌, refl, ap, sym, inl, inr, none, some, List, [], ◌∷◌, ◌++◌,
  if◌then◌else◌, Bool-cases, insert, subst,
}
use memcached_operator.Api.Rules.{
  ServiceSpec, RuleSpec, rule, RuleSpecs, nil, cons, replicated_rule_type, sharded_rule_type,
}
use memcached_operator.Runtime.Effects.{errorf}
use memcached_operator.Runtime.Env.{Libs}
use memcached_operator.Runtime.Sync.{ok, err, panic}
use memcached_operator.ProxyConfigMap.Config.{
  StringOrRoute, string_or_route, no_route, a_route, route, no_policy, a_policy, no_policies,
  policies, Children, more,
}
use memcached_operator.ProxyConfigMap.Routes.{
  Services, pool_name_for_service_spec, Routed, for_children, then_ok, route_for_rule,
  route_for_children,
}

-- A rule type that routeForRule knows.
pub data KnownType : String → Type 0 where
  replicated : KnownType replicated_rule_type
  sharded : KnownType sharded_rule_type

-- The rules that are visited, which stops at a rule with a service, have known types.
mutual
  pub data IsKnown : RuleSpec → Type 0 where
    with_service :
        {type : String} {s : ServiceSpec} {children : RuleSpecs}
        → KnownType type
        → IsKnown (rule type (some s) children)
    with_children :
        {type : String} {children : RuleSpecs}
        → KnownType type
        → AreKnown children
        → IsKnown (rule type none children)

  pub data AreKnown : RuleSpecs → Type 0 where
    done : AreKnown nil
    also : {r : RuleSpec} {rs : RuleSpecs} → IsKnown r → AreKnown rs → AreKnown (cons r rs)

-- The services of the visited rules, in order.
unfoldable mutual
  pub leaf_services : RuleSpec → List ServiceSpec
  leaf_services (rule type (some s) children) = s ∷ []
  leaf_services (rule type none children) = leaf_services_of_children children

  pub leaf_services_of_children : RuleSpecs → List ServiceSpec
  leaf_services_of_children nil = []
  leaf_services_of_children (cons r rs) = leaf_services r ++ leaf_services_of_children rs

-- A call that returned: so did the one before it.
then_ok-ok :
    {A B : Type 0} (r : Routed A) (f : A → Services → Routed B) {b : B}
    → (then_ok r f).0 ≡ ok b
    → (a : A) × (r.0 ≡ ok a) × ((f a r.1).0 ≡ ok b)
then_ok-ok (ok a, services) f h = (a, refl, h)
then_ok-ok (err e, services) f h = cc
then_ok-ok (panic, services) f h = cc

-- The tests on the type of a rule.
abbrev by_type :
    String → Routed StringOrRoute → Routed StringOrRoute → Services → Routed StringOrRoute
by_type type x y services =
    if type == replicated_rule_type
    then x
    else if type == sharded_rule_type
    then y
    else (err (errorf "unknown rule type: %q" (type ∷ [])), services)

known_type :
    (type : String) (x y : Routed StringOrRoute) (services : Services) {child : StringOrRoute}
    → (by_type type x y services).0 ≡ ok child
    → KnownType type
known_type type x y services h = elim (Bool-cases (type == replicated_rule_type)) [
  | inl e ↦ subst KnownType (sym ((eq_iff _ _).0 e)) replicated
  | inr e ↦ elim (Bool-cases (type == sharded_rule_type)) [
    | inl e' ↦ subst KnownType (sym ((eq_iff _ _).0 e')) sharded
    | inr e' ↦ cc (rw (e, e') at h)
  ]
]

either_branch :
    (libs : Libs) (type : String) (f g : Children → StringOrRoute) (r : Routed Children)
    (services : Services) {child : StringOrRoute}
    → (by_type type (for_children libs f r) (for_children libs g r) services).0 ≡ ok child
    → (children : Children) × (r.0 ≡ ok children)
either_branch libs type f g r services h = elim (Bool-cases (type == replicated_rule_type)) [
  | inl e ↦ let (children, e', _) = then_ok-ok r _ (rw e at h) in (children, e')
  | inr e ↦ elim (Bool-cases (type == sharded_rule_type)) [
    | inl e' ↦ let (children, e'', _) = then_ok-ok r _ (rw (e, e') at h) in (children, e'')
    | inr e' ↦ cc (rw (e, e') at h)
  ]
]

-- The routes of mcrouter, written out: a short form, a route of a type with children, and a selector that
-- has a route of its own for deletions.
abbrev short : String → StringOrRoute
short name = string_or_route no_route name

abbrev typed : String → Children → StringOrRoute
typed type children = string_or_route (a_route (route type no_policy no_policies children)) ""

abbrev selecting : (default delete : StringOrRoute) → StringOrRoute
selecting default delete =
    string_or_route
      (a_route (
        route "OperationSelectorRoute" (a_policy default)
          (policies no_policy no_policy (a_policy delete) no_policy) Children.none))
      ""

module _ (libs : Libs) where
  -- A replicated pool gets each operation on all servers, but for deletions.
  abbrev pub of_pool : {type : String} → KnownType type → String → StringOrRoute
  of_pool replicated pool =
      selecting (short ("AllSyncRoute|Pool|" <> pool)) (short ("LatestRoute|Pool|" <> pool))
  of_pool sharded pool = short ("PoolRoute|" <> pool)

  abbrev pub of_children : {type : String} → KnownType type → Children → StringOrRoute
  of_children replicated children =
      selecting (typed "AllSyncRoute" children) (typed "LatestRoute" children)
  of_children sharded children = typed "HashRoute" children

  -- The route that a known rule should have.
  unfoldable mutual
    pub expected_route : {r : RuleSpec} → IsKnown r → StringOrRoute
    expected_route (with_service {s} t) = of_pool t (pool_name_for_service_spec libs s)
    expected_route (with_children t known) = of_children t (expected_children known)

    pub expected_children : {rs : RuleSpecs} → AreKnown rs → Children
    expected_children done = Children.none
    expected_children (also known rest) = more (expected_route known) (expected_children rest)

  -- The services, each under the name of its pool.
  abbrev pub collect : List ServiceSpec → Services → Services
  collect [] services = services
  collect (s ∷ ss) services = collect ss (insert (pool_name_for_service_spec libs s) s services)

  collect-append :
      (ss ts : List ServiceSpec) (services : Services)
      → collect (ss ++ ts) services ≡ collect ts (collect ss services)
  collect-append [] ts services = refl
  collect-append (s ∷ ss) ts services =
      collect-append ss ts (insert (pool_name_for_service_spec libs s) s services)

  mutual
    unfolding route_for_rule expected_route leaf_services

    route_for_rule_lem :
        {r : RuleSpec} (known : IsKnown r) (services : Services)
        → route_for_rule libs r services
          ≡ (ok (expected_route known), collect (leaf_services r) services)
    route_for_rule_lem (with_service replicated) services = refl
    route_for_rule_lem (with_service sharded) services = refl
    route_for_rule_lem (with_children replicated known) services =
        rw (route_for_children_lem known services)
    route_for_rule_lem (with_children sharded known) services =
        rw (route_for_children_lem known services)

    route_for_children_lem :
        {rs : RuleSpecs} (known : AreKnown rs) (services : Services)
        → route_for_children libs rs services
          ≡ (ok (expected_children known), collect (leaf_services_of_children rs) services)
    route_for_children_lem done services = refl
    route_for_children_lem (also {r} {rs} known rest) services = rw (
      route_for_rule_lem known services,
      route_for_children_lem rest (collect (leaf_services r) services),
      collect-append (leaf_services r) (leaf_services_of_children rs) services,
    )

  -- For a rule whose visited rules have known types, routeForRule returns the route that the
  -- recursive description of the tree gives, and its map of services is the given one with the
  -- leaf services inserted in order, each under its pool name.
  pub route_for_rule-known :
      {r : RuleSpec} (known : IsKnown r) (services : Services)
      → route_for_rule libs r services
        ≡ (ok (expected_route known), collect (leaf_services r) services)
  route_for_rule-known known services = route_for_rule_lem known services

  mutual
    unfolding route_for_rule

    route_for_rule-ok :
        (r : RuleSpec) (services : Services) (child : StringOrRoute)
        → (route_for_rule libs r services).0 ≡ ok child
        → IsKnown r
    route_for_rule-ok (rule type (some s) children) services child h =
        with_service (known_type type _ _ _ h)
    route_for_rule-ok (rule type none children) services child h =
        with_children (known_type type _ _ _ h) (
          route_for_children-ok children services
            (either_branch libs type _ _ (route_for_children libs children services) services h).0
            (either_branch libs type _ _ (route_for_children libs children services) services h).1)

    route_for_children-ok :
        (rs : RuleSpecs) (services : Services) (children : Children)
        → (route_for_children libs rs services).0 ≡ ok children
        → AreKnown rs
    route_for_children-ok nil services children h = done
    route_for_children-ok (cons r rs) services children h =
        let (child, first, rest) = then_ok-ok (route_for_rule libs r services) _ h in
        let (more_children, second, _) =
          then_ok-ok (route_for_children libs rs (route_for_rule libs r services).1) _ rest in
        also (route_for_rule-ok r services child first)
          (route_for_children-ok rs (route_for_rule libs r services).1 more_children second)

  -- routeForRule returns a route, whatever services it was given, exactly for the rules of which
  -- every visited rule (all but those below a rule with a service) has the type "replicated" or
  -- "sharded".
  pub route_for_rule_iff :
      (r : RuleSpec) (services : Services)
      → ((child : StringOrRoute) × ((route_for_rule libs r services).0 ≡ ok child)) ↔ IsKnown r
  route_for_rule_iff r services = (
    λ (child, h). route_for_rule-ok r services child h,
    λ known. (
      expected_route known,
      ap (λ (x : Routed StringOrRoute). x.0) (route_for_rule-known known services),
    ),
  )
