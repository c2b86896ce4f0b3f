-- ===== src/System/Rounds.antt =====
-- Rounds of the worker of the service controller between changes of the informers' cache. A cache
-- may lag behind: each of its proxies is some version that the API server once had.
use memcached_operator.Prelude.{
  String, ◌≡◌, ◌≢◌, ◌⊎◌, refl, inl, inr, List, All, Bool-cases, Option-cases, int_eq, subst, sym,
}
use memcached_operator.Api.Proxy.{MemcachedProxy}
use memcached_operator.Api.Objects.{Service}
use memcached_operator.Runtime.Effects.{Error, not_found, api_error, errorf, wrapped}
use memcached_operator.Runtime.Env.{Env, Resource}
use memcached_operator.Runtime.Sync.{Cache, ok, Sync, pure, fail, lift, or_missing}
use memcached_operator.Runtime.Listers.{named, get_proxy, get_service, store_service, split_or_fail}
use memcached_operator.Operator.Names.{get_proxy_service_name}
use memcached_operator.Runtime.Guarded.{
  Always, ne_panic-Outcome, Guards, bind-Guards, lift-Guards, find-Guards, or_missing-Guards,
}
use memcached_operator.System.Turns.{Turn, turns, Fits, turns-served}
use memcached_operator.ProxyService.{
  create_service, heal_service, sync_proxy, sync_handler, update_service,
}
use memcached_operator.ProxyService.Laws.Handler.{conclude_lem}
use memcached_operator.System.{get_service-cases}
use memcached_operator.Runtime.Listers.Safety.{split-ne-panic}
use memcached_operator.System.Steps.{Reachable, Reachable-safe}

-- A version that a proxy had some time after it was created.
abbrev pub Delivered : MemcachedProxy → Type 0
Delivered p =
    (start : MemcachedProxy) × (start.meta.generation ≢ start.status.observed_generation)
    × Reachable start p

abbrev pub HasDelivered : Cache → Type 0
HasDelivered c = All Delivered c.proxies

-- An action that leaves the proxies of the cache alone.
abbrev Keeps : {A : Type 0} → Sync A → Type 0
Keeps m = (c : Cache) → (m c).cache.proxies ≡ c.proxies

module _ {A : Type 0} (m : Sync A) (missing : Sync Unit) (f : A → Sync Unit) (c : Cache) where
  or_missing-Keeps :
      ((a : A) × (m c ≡ pure a c)) ⊎ ((e : Error) × (m c ≡ fail e c))
      → Keeps missing
      → ((a : A) → Keeps (f a))
      → (or_missing m missing f c).cache.proxies ≡ c.proxies
  or_missing-Keeps (inl (a, e)) h h' = rw e (h' a c)
  or_missing-Keeps (inr (not_found, e)) h h' = rw e (h c)
  or_missing-Keeps (inr (api_error s, e)) h h' = rw e refl
  or_missing-Keeps (inr (errorf s args, e)) h h' = rw e refl
  or_missing-Keeps (inr (wrapped s arg x, e)) h h' = rw e refl

module _ (env : Env) where
  create_service-Keeps : (ns : String) (p : MemcachedProxy) → Keeps (create_service env ns p)
  unfolding create_service
  create_service-Keeps ns p c = elim (Option-cases p.spec.mc_router.port) [
    | inl missing ↦ rw missing refl
    | inr (port, given) ↦ rw (given, conclude_lem) refl
  ]

  heal_service-Keeps :
      (ns : String) (p : MemcachedProxy) (s : Service) → Keeps (heal_service env ns p s)
  unfolding heal_service store_service
  heal_service-Keeps ns p s c = elim (Bool-cases (update_service env p s).1) [
    | inl e ↦ rw (e, conclude_lem) refl
    | inr e ↦ rw e refl
  ]

  sync_proxy-Keeps : (k ns : String) (p : MemcachedProxy) → Keeps (sync_proxy env k ns p)
  unfolding sync_proxy
  sync_proxy-Keeps k ns p c =
      elim (Bool-cases (int_eq p.meta.generation p.status.observed_generation)) [
        | inl e ↦ rw e (
            or_missing-Keeps (get_service env ns (get_proxy_service_name env.libs p.meta))
              (create_service env ns p) (heal_service env ns p) c
              (get_service-cases env ns c (get_proxy_service_name env.libs p.meta))
              (create_service-Keeps ns p) (heal_service-Keeps ns p))
        | inr e ↦ rw e refl
      ]

  sync_proxy-Guards :
      (k ns : String) (p : MemcachedProxy)
      → Delivered p
      → Guards HasDelivered Always (sync_proxy env k ns p)
  sync_proxy-Guards k ns p (start, new, reached) c h = (
    subst (All Delivered) (sym (sync_proxy-Keeps k ns p c)) h,
    ne_panic-Outcome (sync_proxy env k ns p c).result
        (Reachable-safe start p env k ns c new reached),
  )

  get_proxy-Guards : (ns name : String) → Guards HasDelivered Delivered (get_proxy env ns name)
  unfolding get_proxy
  get_proxy-Guards ns name =
      find-Guards HasDelivered Delivered (env.lister_error Resource.proxies) (λ c. c.proxies)
        (λ c h. h) (λ p. named ns name p.meta)

  sync_handler-Guards : (k : String) → Guards HasDelivered Always (sync_handler env k)
  unfolding sync_handler
  sync_handler-Guards k =
      bind-Guards HasDelivered Always Always (lift (split_or_fail env k)) _
        (lift-Guards HasDelivered Always _
          (ne_panic-Outcome (split_or_fail env k) (split-ne-panic env k)))
        (λ parts _.
          or_missing-Guards HasDelivered Delivered Always (get_proxy env parts.0 parts.1) _ _
            (get_proxy-Guards parts.0 parts.1) (λ c h. (h, tt)) (sync_proxy-Guards k parts.0))

-- Suppose each proxy of the cache at the start, and of each cache that the informers deliver
-- later, is a version, perhaps an old one, that the proxy had some time after it was created with
-- a generation that was not observed, where it changes in the way of Reachable-default_spec. Then
-- the worker of the service controller serves all items that its queue gives between the
-- deliveries, and ends without an error or a panic, whatever the items are and whatever the
-- listers and the API server answer in each round.
pub turns-ok :
    (ts : List Turn) (c : Cache)
    → All Delivered c.proxies
    → All (Fits HasDelivered Always) ts
    → (turns sync_handler ts c).result ≡ ok tt
turns-ok = turns-served HasDelivered Always sync_handler (λ env k _. sync_handler-Guards env k)
