-- ===== src/Proxy.antt =====
-- The proxy controller, internal/controller/proxy/controller.go: it writes the default values and the
-- observed generation of a MemcachedProxy.
pub mod Laws
use memcached_operator.Prelude.{
  String, Bool, true, false, ◌&&◌, Option, none, some, List, if◌then◌else◌,
}
use memcached_operator.Api.Meta.{ObjectMeta}
use memcached_operator.Api.Proxy.{MemcachedProxy, apply_defaults}
use memcached_operator.Api.Equality.{same_spec, same_status}
use memcached_operator.Runtime.Effects.{Error, errorf, wrapped, update_proxy, Item}
use memcached_operator.Runtime.Env.{Env}
use memcached_operator.Runtime.Sync.{
  Result, ok, err, Sync, ◌>>=◌, ◌>>◌, pure, fail, lift, emit, check, or_missing,
}
use memcached_operator.Runtime.Listers.{split_or_fail, get_proxy}
use memcached_operator.Worker
use memcached_operator.Worker.{Notice, Change, wrapping}

unfoldable pub update_status : MemcachedProxy → MemcachedProxy
update_status p = record p { status = record { observed_generation = p.meta.generation } }

module _ (env : Env) where
  -- The part of syncHandler that has found the proxy.
  unfoldable pub sync_proxy : String → MemcachedProxy → Sync Unit
  unfolding update_status
  sync_proxy key p =
      let p_copy = update_status (apply_defaults p) in
      if same_spec p.spec p_copy.spec && same_status p.status p_copy.status then pure tt else (do
        emit (update_proxy p_copy.meta.namespace p_copy)
        wrapping (wrapped "failed to update %q: %v" key) (check (env.on_update_proxy p_copy).1))

  unfoldable pub sync_handler : String → Sync Unit
  unfolding sync_proxy
  sync_handler key = do
    parts ← lift (split_or_fail env key)
    or_missing (get_proxy env parts.0 parts.1) (pure tt) (sync_proxy key)

  -- The handler that New registers.
  unfoldable pub on_proxy : Change ObjectMeta → Sync Unit
  on_proxy = Worker.on_proxy env

  unfoldable pub process_work_item : Item → Sync Unit
  process_work_item = Worker.process_work_item sync_handler

  unfoldable pub worker : List Item → Sync Unit
  worker = Worker.worker sync_handler
