-- ===== src/ProxyConfigMap/Affected/Enqueued.antt =====
-- Which proxies new endpoints enqueue, in terms of the proxies of the cache.
use mathlib.Core.Bool.{false≢true}
use memcached_operator.Prelude.{
  String, if◌then◌else◌, ◌<>◌, ◌==◌, eq_iff, eq_refl, ◌≡◌, ◌≢◌, ◌↔◌, ◌⊎◌, refl, sym, ◌∙◌, inl, inr,
  true, none, some, List, [], ◌∷◌, map, arith, exists, keep, Dict, insert, or-true, All, Any, subst,
}
use memcached_operator.Api.Objects.{Endpoints}
use memcached_operator.Api.Meta.{ObjectMeta}
use memcached_operator.Api.Rules.{ServiceSpec}
use memcached_operator.Api.Proxy.{MemcachedProxy}
use memcached_operator.Runtime.Effects.{Error, queue, add, key, wrapped}
use memcached_operator.Runtime.Env.{Env, Resource}
use memcached_operator.Runtime.Sync.{Cache, ok, Sync, pure, lift}
use memcached_operator.Runtime.Monad.{pure-bind}
use memcached_operator.Worker.{wrapping}
use memcached_operator.Runtime.Listers.{list_proxies, in_namespace}
use memcached_operator.ProxyConfigMap.Routes.Shape.{leaf_services}
use memcached_operator.ProxyConfigMap.Affected.{
  references, service_key, get_proxy_service_specs, key_or_fail, specs_by_proxy,
  get_all_proxy_service_specs, get_affected_proxies, affected_keys, add_endpoints,
}
use memcached_operator.ProxyConfigMap.Affected.Laws.{
  member, affects, affected_keys_lem, holds-insert_same, holds-insert_other, insert-holds,
  add_endpoints_lem,
}
use memcached_operator.ProxyConfigMap.Affected.Leaves.{get_proxy_service_specs-leaf, or_split}
use memcached_operator.ProxyConfigMap.Affected.Keyed.{
  Agrees, has_service_key, get_proxy_service_specs-key,
}

wrapping-pure :
    {A : Type 0} (f : Error → Error) (m : Sync A) (c : Cache) (a : A)
    → m c ≡ pure a c
    → wrapping f m c ≡ pure a c
wrapping-pure f m c a e = rw e

abbrev key_of : ObjectMeta → String
key_of m = m.namespace <> ("/" <> m.name)

-- What cache.MetaNamespaceKeyFunc documents: <namespace>/<name>, and just <name> where the namespace is
-- empty.
abbrev documented_key : ObjectMeta → String
documented_key m = if m.namespace == "" then m.name else key_of m

abbrev Specs : Type 0
Specs = Dict (List ServiceSpec)

-- What the loop over the proxies makes of the map.
abbrev specs_map : List MemcachedProxy → Specs → Specs
specs_map [] result = result
specs_map (p ∷ ps) result =
    specs_map ps (insert (documented_key p.meta) (get_proxy_service_specs p) result)

-- No two proxies have the same key.
abbrev Unique : List MemcachedProxy → Type 0
Unique [] = Unit
Unique (p ∷ ps) = All (λ q. documented_key q.meta ≢ documented_key p.meta) ps × Unique ps

module _ (ep : Endpoints) where
  -- A proxy refers to the endpoints by a leaf service of its rules.
  abbrev Refers : MemcachedProxy → Type 0
  Refers p = exists (references ep) (leaf_services p.spec.rules) ≡ true

  -- A leaf service with the key of the endpoints has their namespace and name.
  abbrev pub Clear : MemcachedProxy → Type 0
  Clear p = Agrees (references ep) (key_of ep.meta) (leaf_services p.spec.rules)

  same_key : (s : ServiceSpec) → references ep s ≡ true → service_key s == key_of ep.meta ≡ true
  same_key s h = ground (
    arith,
    eq_iff s.namespace ep.meta.namespace,
    eq_iff s.name ep.meta.name,
    eq_refl (key_of ep.meta),
  )

  exists-has_service_key :
      (ss : List ServiceSpec)
      → exists (references ep) ss ≡ true
      → has_service_key (key_of ep.meta) ss ≡ true
  exists-has_service_key [] h = h
  exists-has_service_key (s ∷ ss) h =
      elim (or_split (references ep s) (exists (references ep) ss) h) [
        | inl here ↦ rw (same_key s here)
        | inr there ↦ rw (exists-has_service_key ss there) (or-true _)
      ]

  Refers-specs :
      (p : MemcachedProxy)
      → Clear p
      → Refers p
      → exists (references ep) (get_proxy_service_specs p) ≡ true
  Refers-specs p clear h =
      get_proxy_service_specs-key (references ep) (key_of ep.meta) p clear
        (exists-has_service_key (leaf_services p.spec.rules) h)

  abbrev pub Named : String → MemcachedProxy → Type 0
  Named k p = (documented_key p.meta ≡ k) × Refers p

  specs_map-Named :
      (k : String) (ps : List MemcachedProxy) (m : Specs)
      → affects ep k (specs_map ps m) ≡ true
      → Any (Named k) ps ⊎ (affects ep k m ≡ true)
  specs_map-Named k [] m h = inr h
  specs_map-Named k (p ∷ ps) m h =
      elim (specs_map-Named k ps (insert (documented_key p.meta) (get_proxy_service_specs p) m) h) [
        | inl later ↦ inl (inr later)
        | inr e ↦
            elim (insert-holds (exists (references ep)) (documented_key p.meta) k
              (get_proxy_service_specs p) m e) [
                | inl (same, refers) ↦ inl (
                    inl
                      ((eq_iff _ _).0 same, get_proxy_service_specs-leaf (references ep) p refers))
                | inr old ↦ inr old
              ]
      ]

  specs_map-keeps :
      (k : String) (ps : List MemcachedProxy) (m : Specs)
      → All (λ q. documented_key q.meta ≢ k) ps
      → affects ep k (specs_map ps m) ≡ affects ep k m
  specs_map-keeps k [] m h = refl
  specs_map-keeps k (p ∷ ps) m (differs, h) =
      specs_map-keeps k ps (insert (documented_key p.meta) (get_proxy_service_specs p) m) h
      ∙ holds-insert_other (exists (references ep)) (documented_key p.meta) k
          (get_proxy_service_specs p) m (ground (arith, eq_iff (documented_key p.meta) k))

  Named-specs_map :
      (k : String) (ps : List MemcachedProxy) (m : Specs)
      → Unique ps
      → All Clear ps
      → Any (Named k) ps
      → affects ep k (specs_map ps m) ≡ true
  Named-specs_map k (p ∷ ps) m (differs, unique) (clear, rest) (inr later) =
      Named-specs_map k ps (insert (documented_key p.meta) (get_proxy_service_specs p) m) unique
        rest later
  Named-specs_map k (p ∷ ps) m (differs, unique) (clear, rest) (inl (same, refers)) =
      subst (λ j. affects ep j (specs_map (p ∷ ps) m) ≡ true) same
        (specs_map-keeps (documented_key p.meta) ps
            (insert (documented_key p.meta) (get_proxy_service_specs p) m) differs
          ∙ holds-insert_same (exists (references ep)) (documented_key p.meta)
              (get_proxy_service_specs p) m (Refers-specs p clear refers))
  Named-specs_map k [] m unique clear h = absurd h

module _ (env : Env) (namespace : String)
    (keyed : (m : ObjectMeta) → env.meta_key m ≡ some (documented_key m)) where
  key_or_fail_lem :
      (p : MemcachedProxy) (c : Cache)
      → lift (key_or_fail env namespace p) c ≡ pure (documented_key p.meta) c
  key_or_fail_lem p c = rw (key_or_fail, keyed p.meta)

  specs_by_proxy_lem :
      (ps : List MemcachedProxy) (m : Specs) (c : Cache)
      → specs_by_proxy env namespace ps m c ≡ pure (specs_map ps m) c
  unfolding specs_by_proxy
  specs_by_proxy_lem [] m c = refl
  specs_by_proxy_lem (p ∷ ps) m c =
      pure-bind (lift (key_or_fail env namespace p))
        (λ k. specs_by_proxy env namespace ps (insert k (get_proxy_service_specs p) m)) c
        (documented_key p.meta) (key_or_fail_lem p c)
      ∙ specs_by_proxy_lem ps (insert (documented_key p.meta) (get_proxy_service_specs p) m) c

  abbrev watched : Cache → List MemcachedProxy
  watched c = keep (λ p. in_namespace namespace p.meta) c.proxies

  module _ (ep : Endpoints) (c : Cache) (listed : env.lister_error Resource.proxies ≡ none) where
    abbrev keys : List String
    keys = affected_keys ep (specs_map (watched c) []) []

    specs_lem : get_all_proxy_service_specs env namespace c ≡ pure (specs_map (watched c) []) c
    unfolding get_all_proxy_service_specs list_proxies
    specs_lem = rw (listed, specs_by_proxy_lem (watched c) [] c)

    affected_lem : get_affected_proxies env namespace ep c ≡ pure keys c
    unfolding get_affected_proxies
    affected_lem =
        pure-bind
          (wrapping (wrapped "failed to get services for memcached proxies: %v" "")
            (get_all_proxy_service_specs env namespace))
          (λ proxy_map. pure (affected_keys ep proxy_map [])) c (specs_map (watched c) [])
          (wrapping-pure _ (get_all_proxy_service_specs env namespace) c (specs_map (watched c) [])
            specs_lem)

    -- Suppose the key function gives namespace/name, or just the name where the namespace is
    -- empty, the lister of proxies gives no error, no two watched proxies have the same key, and
    -- every leaf service with the key of the endpoints has their namespace and name. Then
    -- addEndpoints succeeds, changes no cache, and its effects are additions of keys to the
    -- queue, where a key is added exactly if a watched proxy with this key has a leaf service
    -- with the namespace and name of the endpoints.
    pub add_endpoints-enqueues :
        Unique (watched c)
        → All (Clear ep) (watched c)
        → (ks : List String) × (add_endpoints env namespace ep c
            ≡ record { result = ok tt; cache = c; effects = map (λ k. queue (add (key k))) ks })
          × ((k : String) → (member k ks ≡ true) ↔ Any (Named ep k) (watched c))
    add_endpoints-enqueues unique clear = (
      keys,
      add_endpoints_lem env namespace ep c ∙ rw affected_lem,
      λ k.
          let same = affected_keys_lem ep (specs_map (watched c) []) [] k in
          (
            λ h. elim (specs_map-Named ep k (watched c) [] (sym same ∙ h)) [
              | inl found ↦ found
              | inr e ↦ absurd (false≢true e)
            ],
            λ h. same ∙ Named-specs_map ep k (watched c) [] unique clear h,
          ),
    )
