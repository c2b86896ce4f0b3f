-- ===== src/Worker.antt =====
-- The parts that the four controllers have in common, each in its own controller.go: the event handlers
-- that fill the work queue (enqueue, enqueueOwned, the handlers that New registers), and the worker
-- that empties it (worker, processWorkItem).
pub mod Laws
use memcached_operator.Prelude.{
  String, ◌<>◌, ◌==◌, ◌&&◌, Option, none, some, List, [], ◌∷◌, ◌++◌, if◌then◌else◌,
}
use memcached_operator.Api.Meta.{ObjectMeta, get_controller_of}
use memcached_operator.Operator.Owners.{scheme_group_version}
use memcached_operator.Runtime.Effects.{
  Error, errorf, wrapped, Effect, Item, key, other, add, add_rate_limited, forget, done,
}
use memcached_operator.Runtime.Effects
use memcached_operator.Runtime.Env.{Env}
use memcached_operator.Runtime.Sync.{
  Result, ok, err, panic, Run, Sync, ◌>>=◌, ◌>>◌, pure, fail, panics, emit,
}

-- What an informer hands to a handler: an object, or a cache.DeletedFinalStateUnknown with the key and
-- perhaps the last known state, or a value of another type.
pub data Notice (A : Type 0) : Type 0 where
  object : A → Notice A
  tombstone : (key : String) → Option A → Notice A
  unknown : Notice A

-- The events of cache.ResourceEventHandlerFuncs.
pub data Change (A : Type 0) : Type 0 where
  added : Notice A → Change A
  updated : (old new : Notice A) → Change A
  deleted : Notice A → Change A

abbrev pub enqueue_key : String → Sync Unit
enqueue_key k = emit (Effect.queue (add (key k)))

abbrev enqueue_if : Option String → Sync Unit
enqueue_if none = pure tt
enqueue_if (some k) = enqueue_key k

module _ (env : Env) where
  -- cache.DeletionHandlingMetaNamespaceKeyFunc
  abbrev pub key_func : Notice ObjectMeta → Option String
  key_func (object m) = env.meta_key m
  key_func (tombstone k _) = some k
  key_func unknown = none

  unfoldable pub enqueue : Notice ObjectMeta → Sync Unit
  enqueue obj = enqueue_if (key_func obj)

-- The key of the proxy that controls an object.
abbrev pub owner_key : ObjectMeta → Option String
owner_key o = elim (get_controller_of o) [
  | none ↦ none
  | some owner ↦
      if owner.api_version == scheme_group_version && owner.kind == "MemcachedProxy"
      then some (o.namespace <> ("/" <> owner.name))
      else none
]

unfoldable enqueue_owned : Notice ObjectMeta → Sync Unit
enqueue_owned (object o) = enqueue_if (owner_key o)
enqueue_owned (tombstone _ _) = pure tt
enqueue_owned unknown = pure tt

-- The handler of proxies.
unfoldable pub on_proxy : Env → Change ObjectMeta → Sync Unit
unfolding enqueue
on_proxy env (added obj) = enqueue env obj
on_proxy env (updated old new) = enqueue env new
on_proxy env (deleted obj) = enqueue env obj

-- The handler of objects that a proxy may control.
unfoldable pub on_owned : Change ObjectMeta → Sync Unit
unfolding enqueue_owned
on_owned (added obj) = enqueue_owned obj
on_owned (updated old new) = do enqueue_owned old; enqueue_owned new
on_owned (deleted obj) = enqueue_owned obj

-- `defer`: the effect comes last, also after an error or a panic.
abbrev deferred : {A : Type 0} → Effect → Sync A → Sync A
deferred e m c = let r = m c in record r { effects = r.effects ++ e ∷ [] }

-- `if err := …; err != nil { return … }` with a new error.
abbrev pub rethrow : {A : Type 0} → (Error → Error) → Result A → Result A
rethrow f (ok a) = ok a
rethrow f (err e) = err (f e)
rethrow f panic = panic

abbrev pub wrapping : {A : Type 0} → (Error → Error) → Sync A → Sync A
wrapping f m c = let r = m c in record r { result = rethrow f r.result }

-- A handler of errors: the error goes no further.
abbrev handle_error : Result Unit → Sync Unit → Sync Unit
handle_error (ok a) recover = pure tt
handle_error (err e) recover = recover
handle_error panic recover = panics

abbrev on_error : Sync Unit → Sync Unit → Sync Unit
on_error m recover c =
    let r = m c in
    let next = handle_error r.result recover r.cache in
    record next { effects = r.effects ++ next.effects }

module _ (sync_handler : String → Sync Unit) where
  unfoldable pub process_work_item : Item → Sync Unit
  process_work_item (key k) = deferred (Effect.queue (done (key k))) (do
    wrapping (wrapped "error syncing %q: %s" k) (sync_handler k)
    emit (Effect.queue (forget (key k))))
  process_work_item other = deferred (Effect.queue (done other)) (do
    emit (Effect.queue (forget other))
    fail (errorf "expected string in workqueue but got %#v" ("" ∷ [])))

  -- One round of the loop of worker, on the item that the queue gave.
  unfoldable pub work : Item → Sync Unit
  unfolding process_work_item
  work obj = on_error (process_work_item obj) (emit (Effect.queue (add_rate_limited obj)))

  -- The loop of worker, on the items that the queue gives until it is shut down.
  unfoldable pub worker : List Item → Sync Unit
  unfolding work
  worker [] = pure tt
  worker (obj ∷ rest) = do work obj; worker rest
