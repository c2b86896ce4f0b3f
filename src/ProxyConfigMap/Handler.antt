-- ===== src/ProxyConfigMap/Handler.antt =====
-- The controller's handlers: configMapForProxy, reuseConfigMap and syncHandler of controller.go, the
-- events of event.go, and what New registers.
pub mod Laws
pub mod Safety
pub mod Reuse
use memcached_operator.Prelude.{
  String, ◌<>◌, not, Option, none, some, List, [], ◌∷◌, int_eq, if◌then◌else◌,
}
use memcached_operator.Api.Meta.{ObjectMeta, blank_meta}
use memcached_operator.Api.Proxy.{MemcachedProxy}
use memcached_operator.Api.Objects.{ConfigMap, Deployment, Endpoints}
use memcached_operator.Operator.Names.{make_name}
use memcached_operator.Operator.Owners.{new_proxy_owner_ref}
use memcached_operator.Operator.Lookup.{get_deployments_for_proxy, get_config_maps_for_proxy}
use memcached_operator.Runtime.Effects.{
  Error, errorf, wrapped, Effect, normal, warning, Arg, Verb, create, update, lower, title, Item,
  key, add_rate_limited, add_after,
}
use memcached_operator.Runtime.Env.{Env, Answer}
use memcached_operator.Runtime.Sync.{
  Result, ok, err, panic, Sync, ◌>>=◌, ◌>>◌, pure, fail, panics, lift, emit, or_missing, attempt,
}
use memcached_operator.Runtime.Listers.{split_or_fail, get_proxy, get_config_map, store_config_map}
use memcached_operator.Worker
use memcached_operator.Worker.{Change, wrapping}
use memcached_operator.ProxyConfigMap.Config.{config_json}
use memcached_operator.ProxyConfigMap.Pools.{config_for_proxy}
use memcached_operator.ProxyConfigMap.Owners.{reused, apply_owner_ref_to_cm}
use memcached_operator.ProxyConfigMap.Affected

-- recordEvent, with the name of the object if there is one.
unfoldable pub record_event : Verb → ObjectMeta → String → Option String → Option Error → Effect
record_event verb p kind none none =
    Effect.event p normal ("Successful" <> title verb) "%s %s for MemcachedProxy %q successful"
      (Arg.str (lower verb) ∷ Arg.str kind ∷ Arg.str p.name ∷ [])
record_event verb p kind (some obj_name) none =
    Effect.event p normal ("Successful" <> title verb) "%s %s %q for MemcachedProxy %q successful"
      (Arg.str (lower verb) ∷ Arg.str kind ∷ Arg.str obj_name ∷ Arg.str p.name ∷ [])
record_event verb p kind none (some e) =
    Effect.event p warning ("Failed" <> title verb) "%s %s for MemcachedProxy %q failed error: %s"
      (Arg.str (lower verb) ∷ Arg.str kind ∷ Arg.str p.name ∷ Arg.err e ∷ [])
record_event verb p kind (some obj_name) (some e) =
    Effect.event p warning ("Failed" <> title verb)
      "%s %s %q for MemcachedProxy %q failed error: %s"
      (Arg.str (lower verb) ∷ Arg.str kind ∷ Arg.str obj_name ∷ Arg.str p.name ∷ Arg.err e ∷ [])

unfoldable pub record_config_map_event : Verb → ObjectMeta → ConfigMap → Option Error → Effect
unfolding record_event
record_config_map_event verb p cm e = record_event verb p "ConfigMap" (some cm.meta.name) e

-- What follows a call of the API: the event, about the object that came back, and the error.
abbrev pub conclude : (Error → Error) → Verb → ObjectMeta → Answer ConfigMap → Sync Unit
conclude f verb p (cm, none) = emit (record_config_map_event verb p cm none)
conclude f verb p (cm, some e) = do emit (record_config_map_event verb p cm (some e)); fail (f e)

module _ (env : Env) where
  -- The ConfigMap for a rendered configuration.
  unfoldable pub new_config_map : MemcachedProxy → String → ConfigMap
  new_config_map p config = record {
    meta = record blank_meta {
      name = make_name env.libs (p.meta.name <> "-config-") (p.meta.name ∷ config ∷ []);
      namespace = p.meta.namespace;
      owner_references = new_proxy_owner_ref p.meta ∷ [];
    };
    values = ("config.json", config) ∷ [];
  }

  unfoldable pub config_map_for_proxy : MemcachedProxy → Sync ConfigMap
  config_map_for_proxy p = do
    config ←
        wrapping (wrapped "failed to create mcrouter config: %v" "") (config_for_proxy env p.spec)
    pure (new_config_map p (env.marshal (config_json config)))

  abbrev pub update_config_map : (Error → Error) → ObjectMeta → ConfigMap → Sync Unit
  update_config_map f p cm = do
    emit (Effect.update_config_map cm.meta.namespace cm)
    conclude f update p (env.on_update_config_map cm)

  abbrev pub reuse_with : ObjectMeta → ConfigMap → Option Deployment → Sync Unit
  reuse_with p cm none =
      fail (errorf "No deployment found for \"%s/%s\"" (p.namespace ∷ p.name ∷ []))
  reuse_with p cm (some d) = do
    store_config_map (reused p d cm)
    update_config_map
        (wrapped "failed to update configmaps for \"%s\": %v" (p.namespace <> ("/" <> p.name))) p
        (reused p d cm)

  unfoldable pub reuse_config_map : ObjectMeta → ConfigMap → Sync Unit
  reuse_config_map p cm = do found ← get_deployments_for_proxy env p; reuse_with p cm found.0

  unfoldable pub create_config_map : String → String → ObjectMeta → ConfigMap → Sync Unit
  create_config_map k ns p cm_new = do
    emit (Effect.create_config_map ns cm_new)
    conclude (λ e. e) create p (env.on_create_config_map cm_new)
    emit (Effect.queue (add_rate_limited (key k)))

  -- No config map is controlled by the proxy: one is created or reused.
  abbrev pub create_or_reuse : String → String → MemcachedProxy → Result ConfigMap → Sync Unit
  create_or_reuse k ns p (ok cm_new) =
      or_missing (get_config_map env p.meta.namespace cm_new.meta.name)
        (create_config_map k ns p.meta cm_new) (reuse_config_map p.meta)
  create_or_reuse k ns p (err e) = do
    emit (record_event create p.meta "ConfigMap" none (some e))
    fail e
  create_or_reuse k ns p panic = panics

  abbrev pub update_applied : String → ObjectMeta → Option ConfigMap → Sync Unit
  update_applied k p none = emit (Effect.queue (add_after (key k) 1))
  update_applied k p (some cm) = do
    update_config_map (wrapped "failed to update configmaps for %q: %v" k) p cm
    emit (Effect.queue (add_rate_limited (key k)))

  -- The switch on the number of config maps that the proxy controls.
  unfoldable pub sync_config_maps : String → String → MemcachedProxy → List ConfigMap → Sync Unit
  sync_config_maps k ns p [] = attempt (config_map_for_proxy p) (create_or_reuse k ns p)
  sync_config_maps k ns p (cm ∷ []) = do
    applied ←
        wrapping (wrapped "failed to apply ownerrefs to configmap for %q: %v" k)
          (apply_owner_ref_to_cm env p.meta cm)
    update_applied k p.meta applied
  sync_config_maps k ns p (_ ∷ _ ∷ _) = pure tt

  -- The part of syncHandler that has found the proxy.
  unfoldable pub sync_proxy : String → String → MemcachedProxy → Sync Unit
  sync_proxy k ns p =
      if not (int_eq p.meta.generation p.status.observed_generation)
      then emit (Effect.queue (add_rate_limited (key k)))
      else (do
        cm_list ←
            wrapping (wrapped "failed to get configmaps for %q: %v" k)
              (get_config_maps_for_proxy env p.meta)
        sync_config_maps k ns p cm_list)

  unfoldable pub sync_handler : String → Sync Unit
  unfolding sync_proxy
  sync_handler k = do
    parts ← lift (split_or_fail env k)
    or_missing (get_proxy env parts.0 parts.1) (pure tt) (sync_proxy k parts.0)

  -- The handlers that New registers.
  unfoldable pub on_proxy : Change ObjectMeta → Sync Unit
  on_proxy = Worker.on_proxy env

  unfoldable pub on_deployment : Change ObjectMeta → Sync Unit
  on_deployment = Worker.on_owned

  unfoldable pub on_endpoints : String → Change Endpoints → Sync Unit
  on_endpoints = Affected.on_endpoints env

  unfoldable pub process_work_item : Item → Sync Unit
  process_work_item = Worker.process_work_item sync_handler

  unfoldable pub worker : List Item → Sync Unit
  worker = Worker.worker sync_handler
