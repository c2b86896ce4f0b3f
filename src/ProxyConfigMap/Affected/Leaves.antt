-- ===== src/ProxyConfigMap/Affected/Leaves.antt =====
-- getProxyServiceSpecs against the leaf services of the rules: which endpoints the services refer to.
use memcached_operator.Prelude.{
  String, ◌==◌, ◌≡◌, ◌⊎◌, refl, ap, sym, ◌∙◌, inl, inr, Bool, true, false, ◌||◌, none, some, [],
  ◌∷◌, Bool-cases, exists, exists-append, insert, or-true,
}
use memcached_operator.Api.Rules.{ServiceSpec, RuleSpec, rule, RuleSpecs, nil, cons}
use memcached_operator.Api.Proxy.{MemcachedProxy}
use memcached_operator.ProxyConfigMap.Routes.{Services}
use memcached_operator.ProxyConfigMap.Routes.Shape.{leaf_services, leaf_services_of_children}
use memcached_operator.ProxyConfigMap.Affected.{
  values, insert_all, service_specs_for_rule, service_specs_for_children, get_proxy_service_specs,
}
use memcached_operator.ProxyConfigMap.Affected.Laws.{holds, or_and}

pub or_split : (a b : Bool) → a || b ≡ true → (a ≡ true) ⊎ (b ≡ true)
or_split true b h = inl refl
or_split false b h = inr h

module _ (q : ServiceSpec → Bool) where
  -- Whether some value of a map passes the test.
  abbrev pub some_value : Services → Bool
  some_value m = exists (λ e. q e.1) m

  pub exists-values : (m : Services) → exists q (values m) ≡ some_value m
  exists-values [] = refl
  exists-values ((k, v) ∷ m) = ap (λ b. q v || b) (exists-values m)

  pub holds-some_value : (k : String) (m : Services) → holds q k m ≡ true → some_value m ≡ true
  holds-some_value k ((j, v) ∷ m) h = elim (or_and (j == k) (q v) (holds q k m) h) [
    | inl (_, here) ↦ rw here
    | inr there ↦ rw (holds-some_value k m there) (or-true _)
  ]
  holds-some_value k [] h = cc

  insert-some_value :
      (k : String) (v : ServiceSpec) (m : Services)
      → some_value (insert k v m) ≡ true
      → (q v ≡ true) ⊎ (some_value m ≡ true)
  unfolding insert
  insert-some_value k v [] h = or_split (q v) false h
  insert-some_value k v ((j, w) ∷ m) h = elim (Bool-cases (j == k)) [
    | inl e ↦ elim (or_split (q v) (some_value m) (rw e at h)) [
      | inl here ↦ inl here
      | inr there ↦ inr (rw there (or-true _))
    ]
    | inr e ↦ elim (or_split (q w) (some_value (insert k v m)) (rw e at h)) [
      | inl old ↦ inr (rw old)
      | inr there ↦ elim (insert-some_value k v m there) [
        | inl here ↦ inl here
        | inr older ↦ inr (rw older (or-true _))
      ]
    ]
  ]

  insert_all-some_value :
      (services result : Services)
      → some_value (insert_all services result) ≡ true
      → (some_value services ≡ true) ⊎ (some_value result ≡ true)
  insert_all-some_value [] result h = inr h
  insert_all-some_value ((k, v) ∷ services) result h =
      elim (insert_all-some_value services (insert k v result) h) [
        | inl there ↦ inl (rw there (or-true _))
        | inr e ↦ elim (insert-some_value k v result e) [
          | inl here ↦ inl (rw here)
          | inr old ↦ inr old
        ]
      ]

  mutual
    unfolding service_specs_for_rule leaf_services

    specs_of_rule :
        (r : RuleSpec)
        → some_value (service_specs_for_rule r) ≡ true
        → exists q (leaf_services r) ≡ true
    specs_of_rule (rule type (some s) children) h = h
    specs_of_rule (rule type none children) h = elim (specs_of_children children [] h) [
      | inl e ↦ e
      | inr e ↦ cc
    ]

    specs_of_children :
        (rs : RuleSpecs) (result : Services)
        → some_value (service_specs_for_children rs result) ≡ true
        → (exists q (leaf_services_of_children rs) ≡ true) ⊎ (some_value result ≡ true)
    specs_of_children nil result h = inr h
    specs_of_children (cons r rs) result h =
        let split = exists-append q (leaf_services r) (leaf_services_of_children rs) in
        elim (specs_of_children rs (insert_all (service_specs_for_rule r) result) h) [
          | inl later ↦ inl (split ∙ rw later (or-true _))
          | inr e ↦ elim (insert_all-some_value (service_specs_for_rule r) result e) [
            | inl here ↦ inl (split ∙ rw (specs_of_rule r here))
            | inr old ↦ inr old
          ]
        ]

-- A service that getProxyServiceSpecs returns is one of the leaf services of the rules.
pub get_proxy_service_specs-leaf :
    (q : ServiceSpec → Bool) (p : MemcachedProxy)
    → exists q (get_proxy_service_specs p) ≡ true
    → exists q (leaf_services p.spec.rules) ≡ true
unfolding get_proxy_service_specs
get_proxy_service_specs-leaf q p h =
    specs_of_rule q p.spec.rules (sym (exists-values q (service_specs_for_rule p.spec.rules)) ∙ h)
