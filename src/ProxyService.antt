-- ===== src/ProxyService.antt =====
-- The proxy service controller, internal/controller/proxyservice/ (controller.go, event.go): it keeps
-- the Service through which clients reach the proxy.
pub mod Laws
use memcached_operator.Prelude.{
  String, Bool, true, false, not, Option, none, some, List, [], ◌∷◌, ℤ, int_eq, same_map,
  if◌then◌else◌,
}
use memcached_operator.Api.Meta.{ObjectMeta, blank_meta}
use memcached_operator.Api.Rules.{IntOrString}
use memcached_operator.Api.Proxy.{MemcachedProxy}
use memcached_operator.Api.Objects.{Service}
use memcached_operator.Operator.Names.{get_proxy_service_name, get_proxy_service_selector}
use memcached_operator.Operator.Owners.{new_proxy_owner_ref}
use memcached_operator.Runtime.Effects.{
  Error, Effect, normal, warning, Arg, Verb, create, update, lower, title, Item, key,
  add_rate_limited,
}
use memcached_operator.Runtime.Env.{Env}
use memcached_operator.Runtime.Sync.{
  Result, ok, err, panic, Sync, ◌>>=◌, ◌>>◌, pure, fail, lift, emit, or_missing,
}
use memcached_operator.Runtime.Listers.{split_or_fail, get_proxy, get_service, store_service}
use memcached_operator.Worker
use memcached_operator.Worker.{Change}
use Prim.Native.String.{◌++◌ as ◌<>◌}

-- recordEvent, with the name of the object if there is one.
unfoldable pub record_event : Verb → ObjectMeta → String → Option String → Option Error → Effect
record_event verb p kind none none =
    Effect.event p normal ("Successful" <> title verb) "%s new %s for MemcachedProxy %q successful"
      (Arg.str (lower verb) ∷ Arg.str kind ∷ Arg.str p.name ∷ [])
record_event verb p kind (some obj_name) none =
    Effect.event p normal ("Successful" <> title verb) "%s %s %q for MemcachedProxy %q successful"
      (Arg.str (lower verb) ∷ Arg.str kind ∷ Arg.str obj_name ∷ Arg.str p.name ∷ [])
record_event verb p kind none (some e) =
    Effect.event p warning ("Failed" <> title verb)
      "%s new %s for MemcachedProxy %q failed error: %s"
      (Arg.str (lower verb) ∷ Arg.str kind ∷ Arg.str p.name ∷ Arg.err e ∷ [])
record_event verb p kind (some obj_name) (some e) =
    Effect.event p warning ("Failed" <> title verb)
      "%s %s %q for MemcachedProxy %q failed error: %s"
      (Arg.str (lower verb) ∷ Arg.str kind ∷ Arg.str obj_name ∷ Arg.str p.name ∷ Arg.err e ∷ [])

unfoldable pub record_service_event : Verb → ObjectMeta → Service → Option Error → Effect
unfolding record_event
record_service_event verb p s e = record_event verb p "Service" (some s.meta.name) e

-- What follows a call of the API: its event, and its error.
abbrev pub conclude : (Option Error → Effect) → Option Error → Sync Unit
conclude event_of none = emit (event_of none)
conclude event_of (some e) = do emit (event_of (some e)); fail e

-- `*p`
abbrev pub deref : {A : Type 0} → Option A → Result A
deref none = panic
deref (some a) = ok a

module _ (env : Env) where
  -- updateService: the service through the pointer afterwards, and whether it was changed.
  unfoldable pub update_service : MemcachedProxy → Service → Service × Bool
  update_service p s =
      let desired_selector = get_proxy_service_selector env.libs p.meta in
      if not (same_map s.selector desired_selector)
      then (record s { selector = desired_selector }, true)
      else (s, false)

  -- The service that syncHandler creates, given the port of the proxy.
  unfoldable pub new_service : String → MemcachedProxy → ℤ → Service
  new_service ns p port = record {
    meta = record blank_meta {
      name = get_proxy_service_name env.libs p.meta;
      namespace = ns;
      owner_references = new_proxy_owner_ref p.meta ∷ [];
    };
    selector = get_proxy_service_selector env.libs p.meta;
    type = "ClusterIP";
    ports =
        record {
          name = "mcrouter";
          protocol = "TCP";
          port = port;
          target_port = IntOrString.int port;
        }
        ∷ [];
  }

  unfoldable pub create_service : String → MemcachedProxy → Sync Unit
  unfolding new_service record_service_event
  create_service ns p = do
    port ← lift (deref p.spec.mc_router.port)
    let s = new_service ns p port
    emit (Effect.create_service ns s)
    conclude (record_service_event create p.meta s) (env.on_create_service s).1

  -- Compares the service with the desired one and heals it. The write of updateService is to the cache.
  unfoldable pub heal_service : String → MemcachedProxy → Service → Sync Unit
  unfolding update_service record_service_event
  heal_service ns p s =
      let (s', changed) = update_service p s in
      if changed
      then (do
        store_service s'
        emit (Effect.update_service ns s')
        conclude (record_service_event update p.meta s') (env.on_update_service s').1)
      else pure tt

  -- The part of syncHandler that has found the proxy.
  unfoldable pub sync_proxy : String → String → MemcachedProxy → Sync Unit
  unfolding create_service heal_service
  sync_proxy k ns p =
      if not (int_eq p.meta.generation p.status.observed_generation)
      then emit (Effect.queue (add_rate_limited (key k)))
      else or_missing (get_service env ns (get_proxy_service_name env.libs p.meta))
          (create_service ns p) (heal_service ns p)

  unfoldable pub sync_handler : String → Sync Unit
  unfolding sync_proxy
  sync_handler k = do
    parts ← lift (split_or_fail env k)
    or_missing (get_proxy env parts.0 parts.1) (pure tt) (sync_proxy k parts.0)

  -- The handlers that New registers.
  unfoldable pub on_proxy : Change ObjectMeta → Sync Unit
  on_proxy = Worker.on_proxy env

  unfoldable pub on_service : Change ObjectMeta → Sync Unit
  on_service = Worker.on_owned

  unfoldable pub process_work_item : Item → Sync Unit
  process_work_item = Worker.process_work_item sync_handler

  unfoldable pub worker : List Item → Sync Unit
  worker = Worker.worker sync_handler
