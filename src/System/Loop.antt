-- ===== src/System/Loop.antt =====
-- The workers of the proxy controller and of the config map controller: no item, no answer of the API
-- server and no error of a lister stops them.
use memcached_operator.Prelude.{String, ◌≡◌, ◌&&◌, inl, inr, List, Bool-cases}
use memcached_operator.Api.Proxy.{MemcachedProxy, apply_defaults}
use memcached_operator.Api.Equality.{same_spec, same_status}
use memcached_operator.Runtime.Effects.{Item}
use memcached_operator.Runtime.Env.{Env}
use memcached_operator.Runtime.Sync.{Cache, ok, pure, lift, check}
use memcached_operator.Runtime.Listers.{get_proxy, split_or_fail}
use memcached_operator.Runtime.Listers.Safety.{get_proxy-IsSafe, split-ne-panic}
use memcached_operator.Runtime.Safety.{
  IsSafe, bind-IsSafe, or_missing-IsSafe, wrapping-IsSafe, check-IsSafe,
}
use memcached_operator.Worker.Laws.{worker-ok}
use memcached_operator.Proxy
use memcached_operator.Proxy.{update_status, sync_proxy, sync_handler}
use memcached_operator.ProxyConfigMap.Handler
use memcached_operator.ProxyConfigMap.Handler.Safety.{config_map_worker-ok}

module _ (env : Env) where
  sync_proxy-IsSafe : (k : String) (p : MemcachedProxy) → IsSafe (sync_proxy env k p)
  unfolding sync_proxy
  sync_proxy-IsSafe k p =
      let written = update_status (apply_defaults p) in
      elim (Bool-cases (same_spec p.spec written.spec && same_status p.status written.status)) [
        | inl same ↦ rw same (λ c h. cc)
        | inr differs ↦
            rw differs
              (λ c. wrapping-IsSafe _ (check (env.on_update_proxy written).1) (check-IsSafe _) c)
      ]

  sync_handler-IsSafe : (k : String) → IsSafe (sync_handler env k)
  unfolding sync_handler
  sync_handler-IsSafe k =
      bind-IsSafe (lift (split_or_fail env k)) _ (λ c. split-ne-panic env k)
        (λ parts.
          or_missing-IsSafe (get_proxy env parts.0 parts.1) (pure tt) (sync_proxy env k)
            (get_proxy-IsSafe env parts.0 parts.1) (λ c h. cc) (sync_proxy-IsSafe k))

  -- The workers of the proxy controller and of the config map controller handle every item that
  -- their queues give and end without an error or a panic, whatever the items, the caches, the
  -- errors of the listers and the answers of the API server are.
  pub workers-ok :
      (items items' : List Item) (c c' : Cache)
      → ((Proxy.worker env items c).result ≡ ok tt)
        × ((Handler.worker env items' c').result ≡ ok tt)
  unfolding Proxy.worker
  workers-ok items items' c c' =
      (worker-ok (sync_handler env) items c sync_handler-IsSafe, config_map_worker-ok env items' c')
