-- ===== src/ProxyConfigMap/Affected/Laws.antt =====
-- Which proxies a change of endpoints enqueues.
use memcached_operator.Prelude.{
  String, ◌⊎◌, ◌==◌, eq_iff, eq_refl, ◌≡◌, refl, ap, sym, ◌∙◌, inl, inr, Bool, true, false, ◌&&◌,
  ◌||◌, List, [], ◌∷◌, ◌++◌, map, arith, Bool-cases, exists, Dict, insert, or-true, or-false,
}
use memcached_operator.Api.Objects.{Endpoints}
use memcached_operator.Api.Rules.{ServiceSpec}
use memcached_operator.Runtime.Effects.{Effect, queue, add, key}
use memcached_operator.Runtime.Env.{Env}
use memcached_operator.Runtime.Sync.{Cache, Result, ok, err, panic, attempt}
use memcached_operator.ProxyConfigMap.Affected.{
  insert_key, references, affected_keys, enqueue_all, enqueue_affected, add_endpoints,
  get_affected_proxies,
}

-- Membership in a set of keys.
abbrev pub member : String → List String → Bool
member k set = exists (λ j. j == k) set

member-insert_key :
    (j k : String) (set : List String) → member j (insert_key k set) ≡ (k == j) || member j set
unfolding insert_key
member-insert_key j k set = elim (Bool-cases (member k set)) [
  | inl e ↦ elim (Bool-cases (k == j)) [
    | inl same ↦ rw (e, same) (sym (subst_member same) ∙ e)
    | inr differs ↦ rw (e, differs)
  ]
  | inr e ↦ rw e
]
  where
    subst_member : k == j ≡ true → member k set ≡ member j set
    subst_member same = ap (λ i. member i set) ((eq_iff _ _).0 same)

-- Whether some value stored under a key passes a test.
abbrev pub holds : {V : Type 0} → (V → Bool) → String → Dict V → Bool
holds q k m = exists (λ e. (e.0 == k) && q e.1) m

pub or_and : (a b c : Bool) → (a && b) || c ≡ true → ((a ≡ true) × (b ≡ true)) ⊎ (c ≡ true)
or_and true true c h = inl (refl, refl)
or_and true false c h = inr h
or_and false b c h = inr h

module _ {V : Type 0} (q : V → Bool) where
  pub holds-insert_same :
      (k : String) (v : V) (m : Dict V) → q v ≡ true → holds q k (insert k v m) ≡ true
  unfolding insert
  holds-insert_same k v [] h = ground (arith, eq_refl k)
  holds-insert_same k v ((j, w) ∷ m) h =
      ground (arith, eq_refl k, eq_iff j k, holds-insert_same k v m h)

  pub holds-insert_other :
      (k j : String) (v : V) (m : Dict V) → k == j ≡ false → holds q j (insert k v m) ≡ holds q j m
  unfolding insert
  holds-insert_other k j v [] h = ground arith
  holds-insert_other k j v ((i, w) ∷ m) h =
      ground (arith, eq_iff i k, eq_iff i j, eq_iff k j, holds-insert_other k j v m h)

  pub insert-holds :
      (k j : String) (v : V) (m : Dict V)
      → holds q j (insert k v m) ≡ true
      → ((k == j ≡ true) × (q v ≡ true)) ⊎ (holds q j m ≡ true)
  unfolding insert
  insert-holds k j v [] h = or_and (k == j) (q v) false h
  insert-holds k j v ((i, w) ∷ m) h = elim (Bool-cases (i == k)) [
    | inl e ↦ elim (or_and (k == j) (q v) (holds q j m) (rw e at h)) [
      | inl here ↦ inl here
      | inr there ↦ inr (rw there (or-true _))
    ]
    | inr e ↦ elim (or_and (i == j) (q w) (holds q j (insert k v m)) (rw e at h)) [
      | inl (a, b) ↦ inr (rw (a, b))
      | inr there ↦ elim (insert-holds k j v m there) [
        | inl here ↦ inl here
        | inr old ↦ inr (rw old (or-true _))
      ]
    ]
  ]

-- Whether the services stored for a key refer to the endpoints.
abbrev pub affects : Endpoints → String → Dict (List ServiceSpec) → Bool
affects ep k proxy_map = holds (exists (references ep)) k proxy_map

-- The keys of the affected proxies are those already there and those of the map with a service that
-- has the namespace and name of the endpoints.
pub affected_keys_lem :
    (ep : Endpoints) (proxy_map : Dict (List ServiceSpec)) (set : List String) (k : String)
    → member k (affected_keys ep proxy_map set) ≡ member k set || affects ep k proxy_map
unfolding affected_keys
affected_keys_lem ep [] set k = sym (or-false (member k set))
affected_keys_lem ep ((j, specs) ∷ proxy_map) set k =
    elim (Bool-cases (exists (references ep) specs)) [
      | inl e ↦ rw e (
          ground
            (arith, affected_keys_lem ep proxy_map (insert_key j set) k, member-insert_key k j set))
      | inr e ↦ rw e (ground (arith, affected_keys_lem ep proxy_map set k))
    ]

enqueue_all_lem :
    (keys : List String) (c : Cache)
    → enqueue_all keys c
      ≡ record { result = ok tt; cache = c; effects = map (λ k. queue (add (key k))) keys }
unfolding enqueue_all
enqueue_all_lem [] c = refl
enqueue_all_lem (k ∷ keys) c = rw (enqueue_all_lem keys c)

-- What a list of the affected proxies, or the failure to make one, comes to.
abbrev enqueued : Result (List String) → List Effect
enqueued (ok keys) = map (λ k. queue (add (key k))) keys
enqueued (err e) = []
enqueued panic = []

module _ (env : Env) (namespace : String) where
  -- Only a panic of the list of proxies ends in a panic.
  abbrev ended : Result (List String) → Result Unit
  ended (ok keys) = ok tt
  ended (err e) = ok tt
  ended panic = panic

  finish :
      (result : Result (List String)) (cache : Cache) (effects : List Effect) (c : Cache)
      → attempt
          (λ _. record { result = result; cache = cache; effects = effects })
          (enqueue_affected env namespace)
          c
        ≡ record { result = ended result; cache = cache; effects = effects ++ enqueued result }
  finish (ok keys) cache effects c = rw (enqueue_all_lem keys cache)
  finish (err _) cache effects c = refl
  finish panic cache effects c = refl

  -- New endpoints enqueue the affected proxies. If these cannot be found the error is dropped.
  pub add_endpoints_lem :
      (ep : Endpoints) (c : Cache)
      → let r = get_affected_proxies env namespace ep c in
        add_endpoints env namespace ep c ≡ record {
          result = ended r.result;
          cache = r.cache;
          effects = r.effects ++ enqueued r.result;
        }
  unfolding add_endpoints
  add_endpoints_lem ep c =
      let r = get_affected_proxies env namespace ep c in finish r.result r.cache r.effects c
