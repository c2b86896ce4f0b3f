-- ===== src/ProxyConfigMap/Affected/Keyed.antt =====
-- getProxyServiceSpecs by the keys of its map: a leaf service with a key is found under it.
use mathlib.Core.Bool.{false≢true}
use memcached_operator.Prelude.{
  String, ◌==◌, eq_iff, ◌≡◌, ◌⊎◌, sym, ◌∙◌, inl, inr, Bool, true, false, none, some, List, [], ◌∷◌,
  ◌++◌, Bool-cases, exists, exists-append, insert, All, subst,
}
use memcached_operator.Api.Rules.{ServiceSpec, RuleSpec, rule, RuleSpecs, nil, cons}
use memcached_operator.Api.Proxy.{MemcachedProxy}
use memcached_operator.ProxyConfigMap.Routes.{Services}
use memcached_operator.ProxyConfigMap.Routes.Shape.{leaf_services, leaf_services_of_children}
use memcached_operator.ProxyConfigMap.Affected.{
  insert_all, service_key, service_specs_for_rule, service_specs_for_children,
  get_proxy_service_specs,
}
use memcached_operator.ProxyConfigMap.Affected.Laws.{
  holds, holds-insert_same, holds-insert_other, or_and,
}
use memcached_operator.ProxyConfigMap.Affected.Leaves.{or_split, exists-values, holds-some_value}

All-append : {A : Type 0} (P : A → Type 0) (xs ys : List A) → All P (xs ++ ys) → All P xs × All P ys
All-append P [] ys h = (tt, h)
All-append P (x ∷ xs) ys (px, rest) =
    let (left, right) = All-append P xs ys rest in ((px, left), right)

abbrev pub has_service_key : String → List ServiceSpec → Bool
has_service_key k ss = exists (λ s. service_key s == k) ss

-- `k` is a key, and the services with that key pass the test.
module _ (q : ServiceSpec → Bool) (k : String) where
  abbrev pub Agrees : List ServiceSpec → Type 0
  Agrees ss = All (λ s. service_key s ≡ k → q s ≡ true) ss

  abbrev EntriesAgree : Services → Type 0
  EntriesAgree m = All (λ e. e.0 ≡ k → q e.1 ≡ true) m

  insert-EntriesAgree :
      (j : String) (s : ServiceSpec) (m : Services)
      → (j ≡ k → q s ≡ true)
      → EntriesAgree m
      → EntriesAgree (insert j s m)
  unfolding insert
  insert-EntriesAgree j s [] h hs = (h, tt)
  insert-EntriesAgree j s ((i, t) ∷ m) h hs = elim (Bool-cases (i == j)) [
    | inl e ↦ rw e (h, hs.1)
    | inr e ↦ rw e (hs.0, insert-EntriesAgree j s m h hs.1)
  ]

  insert_all-EntriesAgree :
      (services result : Services)
      → EntriesAgree services
      → EntriesAgree result
      → EntriesAgree (insert_all services result)
  insert_all-EntriesAgree [] result hs old = old
  insert_all-EntriesAgree ((j, s) ∷ services) result (h, hs) old =
      insert_all-EntriesAgree services (insert j s result) hs (insert-EntriesAgree j s result h old)

  insert_all-holds :
      (services result : Services)
      → EntriesAgree services
      → (holds q k services ≡ true) ⊎ (holds q k result ≡ true)
      → holds q k (insert_all services result) ≡ true
  insert_all-holds [] result hs (inr old) = old
  insert_all-holds [] result hs (inl e) = cc
  insert_all-holds ((j, s) ∷ services) result (h, hs) found = elim (Bool-cases (j == k)) [
    | inl e ↦
        let same : j ≡ k = (eq_iff _ _).0 e in
        insert_all-holds services (insert j s result) hs (
          inr (
            subst (λ i. holds q i (insert j s result) ≡ true) same
              (holds-insert_same q j s result (h same))))
    | inr e ↦ insert_all-holds services (insert j s result) hs (elim found [
      | inl there ↦ elim (or_and (j == k) (q s) (holds q k services) there) [
        | inl (same, _) ↦ absurd (false≢true (sym e ∙ same))
        | inr later ↦ inl later
      ]
      | inr old ↦ inr (holds-insert_other q j k s result e ∙ old)
    ])
  ]

  mutual
    unfolding service_specs_for_rule leaf_services

    rule-EntriesAgree :
        (r : RuleSpec) → Agrees (leaf_services r) → EntriesAgree (service_specs_for_rule r)
    rule-EntriesAgree (rule type (some s) children) h = (h.0, tt)
    rule-EntriesAgree (rule type none children) h = children-EntriesAgree children [] h tt

    children-EntriesAgree :
        (rs : RuleSpecs) (result : Services)
        → Agrees (leaf_services_of_children rs)
        → EntriesAgree result
        → EntriesAgree (service_specs_for_children rs result)
    children-EntriesAgree nil result h old = old
    children-EntriesAgree (cons r rs) result h old =
        let (first, rest) = All-append _ (leaf_services r) (leaf_services_of_children rs) h in
        children-EntriesAgree rs (insert_all (service_specs_for_rule r) result) rest (
          insert_all-EntriesAgree (service_specs_for_rule r) result (rule-EntriesAgree r first) old)

  mutual
    unfolding service_specs_for_rule leaf_services

    rule-holds :
        (r : RuleSpec)
        → Agrees (leaf_services r)
        → has_service_key k (leaf_services r) ≡ true
        → holds q k (service_specs_for_rule r) ≡ true
    rule-holds (rule type (some s) children) (h, _) found =
        elim (or_split (service_key s == k) false found) [
          | inl e ↦ rw (e, h ((eq_iff _ _).0 e))
          | inr e ↦ cc
        ]
    rule-holds (rule type none children) h found = children-holds children [] h (inl found)

    children-holds :
        (rs : RuleSpecs) (result : Services)
        → Agrees (leaf_services_of_children rs)
        → (has_service_key k (leaf_services_of_children rs) ≡ true) ⊎ (holds q k result ≡ true)
        → holds q k (service_specs_for_children rs result) ≡ true
    children-holds nil result h (inr old) = old
    children-holds nil result h (inl e) = cc
    children-holds (cons r rs) result h found =
        let (first, rest) = All-append _ (leaf_services r) (leaf_services_of_children rs) h in
        let split =
          exists-append (λ s. service_key s == k) (leaf_services r)
            (leaf_services_of_children rs) in
        let entries = rule-EntriesAgree r first in
        children-holds rs (insert_all (service_specs_for_rule r) result) rest (elim found [
          | inl e ↦
              elim (or_split (has_service_key k (leaf_services r))
                (has_service_key k (leaf_services_of_children rs)) (sym split ∙ e)) [
                  | inl here ↦ inr (
                      insert_all-holds (service_specs_for_rule r) result entries
                        (inl (rule-holds r first here)))
                  | inr later ↦ inl later
                ]
          | inr old ↦ inr (insert_all-holds (service_specs_for_rule r) result entries (inr old))
        ])

-- If a leaf service of the rules has a key, and the leaf services with that key pass a test, then
-- getProxyServiceSpecs returns a service that passes it.
pub get_proxy_service_specs-key :
    (q : ServiceSpec → Bool) (k : String) (p : MemcachedProxy)
    → Agrees q k (leaf_services p.spec.rules)
    → has_service_key k (leaf_services p.spec.rules) ≡ true
    → exists q (get_proxy_service_specs p) ≡ true
unfolding get_proxy_service_specs
get_proxy_service_specs-key q k p agrees found =
    exists-values q (service_specs_for_rule p.spec.rules)
    ∙ holds-some_value q k (service_specs_for_rule p.spec.rules)
        (rule-holds q k p.spec.rules agrees found)
