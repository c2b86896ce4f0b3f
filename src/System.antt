-- ===== src/System.antt =====
-- How the controllers meet: what the proxy controller settles is what the controller of internal/controller/proxyservice
-- waits for.
pub mod Steps
pub mod Loop
pub mod Rollout
pub mod Convergence
pub mod Launch
pub mod Turns
pub mod Rounds
pub mod Deployments
use memcached_operator.Prelude.{
  String, ◌≡◌, ◌≢◌, refl, ◌⊎◌, inl, inr, Option, none, some, ℤ, Bool-cases, Option-cases, int_eq,
  find_first,
}
use memcached_operator.Api.Proxy.{MemcachedProxy, apply_defaults}
use memcached_operator.Api.Defaults.Complete.{port-ne-none}
use memcached_operator.Api.Objects.{Service}
use memcached_operator.Operator.Names.{get_proxy_service_name}
use memcached_operator.Runtime.Effects.{Error, not_found, api_error, errorf, wrapped}
use memcached_operator.Runtime.Env.{Env, Resource}
use memcached_operator.Runtime.Sync.{Cache, panic, Sync, pure, fail, returned, or_missing}
use memcached_operator.Runtime.Listers.{named, get_service, store_service}
use memcached_operator.Proxy.Laws.{settled}
use memcached_operator.Proxy.{update_status}
use memcached_operator.ProxyService
use memcached_operator.ProxyService.{create_service, heal_service, update_service, conclude}
use memcached_operator.ProxyService.Laws.Handler.{conclude_lem}

returned-ne-panic : (answer : Option Error) → returned answer ≢ panic
returned-ne-panic none h = cc
returned-ne-panic (some e) h = cc

module _ {A : Type 0} (m : Sync A) (missing : Sync Unit) (f : A → Sync Unit) (c : Cache) where
  failing_safe :
      (e : Error)
      → m c ≡ fail e c
      → (missing c).result ≢ panic
      → (or_missing m missing f c).result ≢ panic
  failing_safe not_found h safe = rw h safe
  failing_safe (api_error s) h safe = rw h (λ k. cc)
  failing_safe (errorf s args) h safe = rw h (λ k. cc)
  failing_safe (wrapped s arg e) h safe = rw h (λ k. cc)

  or_missing-safe :
      ((a : A) × (m c ≡ pure a c)) ⊎ ((e : Error) × (m c ≡ fail e c))
      → (missing c).result ≢ panic
      → ((a : A) → (f a c).result ≢ panic)
      → (or_missing m missing f c).result ≢ panic
  or_missing-safe (inl (a, h)) safe safe' = rw h (safe' a)
  or_missing-safe (inr (e, h)) safe safe' = failing_safe e h safe

module _ (env : Env) (ns : String) (c : Cache) where
  pub get_service-cases :
      (name : String)
      → ((s : Service) × (get_service env ns name c ≡ pure s c))
        ⊎ ((e : Error) × (get_service env ns name c ≡ fail e c))
  unfolding get_service
  get_service-cases name = elim (Option-cases (env.lister_error Resource.services)) [
    | inl listed ↦ elim (Option-cases (find_first (λ s. named ns name s.meta) c.services)) [
      | inl missing ↦ inr (not_found, rw (listed, missing))
      | inr (s, found) ↦ inl (s, rw (listed, found))
    ]
    | inr (e, failed) ↦ inr (e, rw failed)
  ]

  create_service-safe :
      (p : MemcachedProxy) (port : ℤ)
      → p.spec.mc_router.port ≡ some port
      → (create_service env ns p c).result ≢ panic
  unfolding create_service
  create_service-safe p port h = rw (h, conclude_lem) (returned-ne-panic _)

  heal_service-safe :
      (p : MemcachedProxy) (s : Service) → (heal_service env ns p s c).result ≢ panic
  unfolding heal_service store_service
  heal_service-safe p s = elim (Bool-cases (update_service env p s).1) [
    | inl e ↦ rw (e, conclude_lem) (returned-ne-panic _)
    | inr e ↦ rw e (λ h. cc)
  ]

  -- A sync of a service does not panic if the proxy has a port.
  pub sync_proxy-safe :
      (k : String) (p : MemcachedProxy) (port : ℤ)
      → p.spec.mc_router.port ≡ some port
      → (ProxyService.sync_proxy env k ns p c).result ≢ panic
  unfolding ProxyService.sync_proxy
  sync_proxy-safe k p port h =
      elim (Bool-cases (int_eq p.meta.generation p.status.observed_generation)) [
        | inl e ↦ rw e (
            or_missing-safe (get_service env ns (get_proxy_service_name env.libs p.meta))
              (create_service env ns p) (heal_service env ns p) c
              (get_service-cases (get_proxy_service_name env.libs p.meta))
              (create_service-safe p port h) (heal_service-safe p))
        | inr e ↦ rw e (λ k'. cc)
      ]
