-- ===== src/ProxyConfigMap/Routes/Names.antt =====
-- Pool names: poolNameForServiceSpec hashes the name, the namespace and the port in one piece.
use Prim.Native.String.{slice}
use text.Mathlib.TextLemmas.{append_assoc as text_assoc}
use memcached_operator.Prelude.{
  String, ◌<>◌, eq_refl, ◌≡◌, ap, sym, ◌∙◌, none, some, [], ◌∷◌, insert,
}
use memcached_operator.Api.Rules.{ServiceSpec, rule, nil, cons}
use memcached_operator.Operator.Names.{make_name}
use memcached_operator.Runtime.Env.{Libs}
use memcached_operator.ProxyConfigMap.Routes.{
  Routed, port_string, pool_name_for_service_spec, route_for_rule,
}
use memcached_operator.ProxyConfigMap.Config.{StringOrRoute}
use memcached_operator.ProxyConfigMap.Routes.Shape.{
  KnownType, IsKnown, with_service, with_children, done, also, leaf_services, collect,
  route_for_rule-known,
}

module _ (libs : Libs) (s t : ServiceSpec)
    (same_text : s.name <> s.namespace ≡ t.name <> t.namespace) (same_port : s.port ≡ t.port) where
  same_values :
      s.name <> (s.namespace <> (port_string libs s.port <> ""))
      ≡ t.name <> (t.namespace <> (port_string libs t.port <> ""))
  same_values =
      sym (text_assoc s.name s.namespace (port_string libs s.port <> ""))
      ∙ ap (λ (x : String). x <> (port_string libs s.port <> "")) same_text
      ∙ ap (λ port. (t.name <> t.namespace) <> (port_string libs port <> "")) same_port
      ∙ text_assoc t.name t.namespace (port_string libs t.port <> "")

  same_pool_name : pool_name_for_service_spec libs s ≡ pool_name_for_service_spec libs t
  unfolding pool_name_for_service_spec make_name
  same_pool_name = ap (λ (x : String). "" <> libs.to_lower (slice (libs.digest x) 2 7)) same_values

  collect-same : collect libs (s ∷ t ∷ []) [] ≡ (pool_name_for_service_spec libs t, t) ∷ []
  unfolding insert
  collect-same = rw (same_pool_name, eq_refl (pool_name_for_service_spec libs t))

  -- If two services have the same port, and the name and the namespace of each, written after
  -- each other, make the same text, then for a rule of a known type with two children of this
  -- type, one for each service, the map of services that routeForRule fills has a single entry,
  -- for the second service: whatever the hash function is, the two share a pool name and the
  -- first service is lost.
  pub route_for_rule-shared_pool :
      (type : String)
      → KnownType type
      → (route_for_rule libs
          (rule type none (cons (rule type (some s) nil) (cons (rule type (some t) nil) nil)))
          []).1
        ≡ (pool_name_for_service_spec libs t, t) ∷ []
  unfolding leaf_services
  route_for_rule-shared_pool type known =
      let children : IsKnown
          (rule type none (cons (rule type (some s) nil) (cons (rule type (some t) nil) nil))) =
        with_children known (also (with_service known) (also (with_service known) done)) in
      ap (λ (x : Routed StringOrRoute). x.1) (route_for_rule-known libs children []) ∙ collect-same
