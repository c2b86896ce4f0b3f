-- ===== src/ProxyService/Laws.antt =====
-- The service controller: what it creates, what it heals, and when it does nothing.
pub mod Handler
use memcached_operator.Prelude.{
  String, ◌≡◌, ◌≢◌, ◌↔◌, refl, ap, sym, ◌∙◌, inl, inr, Bool, true, false, not, Option, none, some,
  List, [], ◌∷◌, arith, ℤ, lookup, same_map, same_map_iff, if◌then◌else◌, Bool-cases, int_eq,
  find_first, int_eq_iff,
}
use memcached_operator.Api.Proxy.{MemcachedProxy}
use memcached_operator.Api.Objects.{Service}
use memcached_operator.Operator.Names.{get_proxy_service_name, get_proxy_service_selector}
use memcached_operator.Runtime.Effects.{Error, Effect, Verb, create, update, key, add_rate_limited}
use memcached_operator.Runtime.Env.{Env, Resource}
use memcached_operator.Runtime.Sync.{Cache, Result, ok, err, panic, Run, Sync, pure}
use memcached_operator.Runtime.Listers.{named, replace, get_service, store_service}
use memcached_operator.Runtime.Stores.{find-replace}
use memcached_operator.ProxyService.{
  record_service_event, update_service, new_service, create_service, heal_service, sync_proxy,
}

module _ (env : Env) (p : MemcachedProxy) where
  abbrev desired : Service → Service
  desired s = record s { selector = get_proxy_service_selector env.libs p.meta }

  -- updateService reports no change exactly if the selector of the Service has the same value as
  -- the desired selector at every key.
  pub update_service_iff :
      (s : Service)
      → ((update_service env p s).1 ≡ false) ↔ (
          (k : String)
          → lookup k s.selector ≡ lookup k (get_proxy_service_selector env.libs p.meta))
  unfolding update_service
  update_service_iff s =
      (λ h. (same_map_iff _ _).0 (ground arith), λ h. rw ((same_map_iff _ _).1 h))

  -- Afterwards the selector is the desired one at every key, and nothing else has changed.
  update_service-selector :
      (s : Service) (k : String)
      → (lookup k (update_service env p s).0.selector
          ≡ lookup k (get_proxy_service_selector env.libs p.meta))
        × (desired (update_service env p s).0 ≡ desired s)
  unfolding update_service
  update_service-selector s k = elim (Bool-cases (same_map s.selector (desired s).selector)) [
    | inl same ↦ (rw same ((same_map_iff _ _).0 same k), rw same)
    | inr differs ↦ (rw differs, rw differs)
  ]

  same_map_self : (s : Service) → same_map (desired s).selector (desired s).selector ≡ true
  same_map_self s = (same_map_iff (desired s).selector (desired s).selector).1 (λ k. refl)

  -- On a Service that updateService has left, it changes nothing and reports no change.
  pub update_service_idem :
      (s : Service)
      → update_service env p (update_service env p s).0 ≡ ((update_service env p s).0, false)
  unfolding update_service
  update_service_idem s = elim (Bool-cases (same_map s.selector (desired s).selector)) [
    | inl same ↦ rw (same, same)
    | inr differs ↦ rw (differs, same_map_self s)
  ]

  pub update_service-new_service :
      (ns : String) (port : ℤ)
      → update_service env p (new_service env ns p port) ≡ (new_service env ns p port, false)
  unfolding update_service new_service
  update_service-new_service ns port = rw (same_map_self (new_service env ns p port))
