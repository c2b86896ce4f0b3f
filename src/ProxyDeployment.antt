-- ===== src/ProxyDeployment.antt =====
-- The proxy deployment controller, internal/controller/proxydeployment/ (controller.go, event.go): it
-- runs mcrouter with the newest ConfigMap.
pub mod Template
pub mod Laws
use memcached_operator.Prelude.{
  String, ◌<>◌, ◌==◌, Bool, true, false, not, Option, none, some, List, [], ◌∷◌, int_eq,
  if◌then◌else◌,
}
use memcached_operator.Api.Meta.{ObjectMeta}
use memcached_operator.Api.Proxy.{MemcachedProxy}
use memcached_operator.Api.Objects.{
  ConfigMap, Volume, VolumeSource, config_map, empty_dir, other_source, Deployment,
}
use memcached_operator.Operator.Lookup.{get_deployments_for_proxy, get_config_map_for_proxy}
use memcached_operator.Runtime.Effects.{
  Error, errorf, wrapped, Effect, normal, warning, Arg, Item, key, add_rate_limited,
}
use memcached_operator.Runtime.Env.{Env, Answer}
use memcached_operator.Runtime.Sync.{
  Result, ok, err, panic, Sync, ◌>>=◌, ◌>>◌, pure, fail, lift, emit, check, or_missing,
}
use memcached_operator.Runtime.Listers.{split_or_fail, get_proxy, store_deployment}
use memcached_operator.Worker
use memcached_operator.Worker.{Change}
use Template.{deployment_for_proxy}

abbrev pub full_name : ObjectMeta → String
full_name m = m.namespace <> ("/" <> m.name)

-- What follows a call of the API: the event of the object that came back, or of the error, which is
-- returned with the same text.
abbrev pub conclude :
    ObjectMeta
    → (reason format : String) → (failed_reason failed_format : String) → ObjectMeta × Option Error
    → Sync Unit
conclude p reason format failed_reason failed_format (result, none) =
    emit (Effect.event p normal reason format (Arg.str (full_name result) ∷ []))
conclude p reason format failed_reason failed_format (result, some e) = do
  emit (Effect.event p warning failed_reason failed_format (Arg.str (full_name p) ∷ Arg.err e ∷ []))
  fail (wrapped failed_format (full_name p) e)

-- The loop over the volumes: a write through the ConfigMap pointer of each volume named "config",
-- which panics if the pointer is nil.
unfoldable pub set_config_source : String → VolumeSource → Result VolumeSource
set_config_source name (config_map _) = ok (config_map name)
set_config_source name empty_dir = panic
set_config_source name other_source = panic

abbrev pub map_result : {A B : Type 0} → (A → B) → Result A → Result B
map_result f (ok a) = ok (f a)
map_result f (err e) = err e
map_result f panic = panic

-- The volumes after a round of the loop and the rounds that follow, and how the loop ended. A panic leaves
-- the volumes of the rounds before it changed, since they are written in place.
abbrev next_volume :
    Result Volume → Volume → List Volume → Result Unit × List Volume → Result Unit × List Volume
next_volume (ok x) v vs rest = (rest.0, x ∷ rest.1)
next_volume (err e) v vs rest = (err e, v ∷ vs)
next_volume panic v vs rest = (panic, v ∷ vs)

unfoldable pub set_config_volume : String → Volume → Result Volume
unfolding set_config_source
set_config_volume name v =
    if v.name == "config"
    then map_result (λ source. record v { source = source }) (set_config_source name v.source)
    else ok v

unfoldable pub set_config_volumes : String → List Volume → Result Unit × List Volume
unfolding set_config_volume
set_config_volumes name [] = (ok tt, [])
set_config_volumes name (v ∷ vs) =
    next_volume (set_config_volume name v) v vs (set_config_volumes name vs)

module _ (env : Env) where
  unfoldable pub create_deployment : MemcachedProxy → Sync Unit
  create_deployment p = do
    d ← deployment_for_proxy env p
    emit (Effect.create_deployment p.meta.namespace d)
    let answer = env.on_create_deployment d
    conclude p.meta "MemcachedProxyDeploymentCreated" "deployment %q created"
        "MemcachedProxyDeploymentCreateError" "failed to create deployment for %q: %v"
        (answer.0.meta, answer.1)

  -- What follows the loop over the volumes, which has written the deployment in the cache.
  abbrev pub apply_written : MemcachedProxy → Deployment → Result Unit × List Volume → Sync Unit
  apply_written p d written = do
    let d' = record d { template = record d.template { volumes = written.1 } }
    store_deployment d'
    lift written.0
    emit (Effect.update_deployment d.meta.namespace d')
    let answer = env.on_update_deployment d'
    conclude p.meta "MemcachedProxyDeploymentUpdated" "deployment %q updated"
        "MemcachedProxyDeploymentUpdateError" "failed to update deployment for %q: %v"
        (answer.0.meta, answer.1)

  -- The deployment refers to the config map with the given name afterwards.
  unfoldable pub apply_config_map : MemcachedProxy → Deployment → ConfigMap → Sync Unit
  apply_config_map p d cm = apply_written p d (set_config_volumes cm.meta.name d.template.volumes)

  abbrev update_with : MemcachedProxy → Deployment → Option ConfigMap → Sync Unit
  update_with p d none = pure tt
  update_with p d (some cm) = apply_config_map p d cm

  unfoldable pub update_deployment : MemcachedProxy → Deployment → Sync Unit
  update_deployment p d = do cm ← get_config_map_for_proxy env p.meta; update_with p d cm

  unfoldable pub delete_deployments : MemcachedProxy → List Deployment → Sync Unit
  delete_deployments p [] = pure tt
  delete_deployments p (d ∷ d_list) = do
    emit (Effect.delete_deployment d.meta.namespace d.meta.name)
    check (env.on_delete_deployment d.meta.namespace d.meta.name)
    emit (
        Effect.event p.meta warning "MemcachedProxyDeploymentDelete" "deleted deployment %q"
          (Arg.str (full_name d.meta) ∷ []))
    delete_deployments p d_list

  abbrev pub create_or_update : MemcachedProxy → Option Deployment → Sync Unit
  create_or_update p none = create_deployment p
  create_or_update p (some d) = update_deployment p d

  -- `if len(dList) > 0 { … dList[1:] … }`
  unfoldable pub clean_up : String → MemcachedProxy → List Deployment → Sync Unit
  clean_up k p [] = pure tt
  clean_up k p (_ ∷ older) = do
    delete_deployments p older
    fail (errorf "Found multiple deployments for %q. Requeueing..." (k ∷ []))

  -- The part of syncHandler that has found the proxy.
  unfoldable pub sync_proxy : String → MemcachedProxy → Sync Unit
  sync_proxy k p =
      if not (int_eq p.meta.generation p.status.observed_generation)
      then emit (Effect.queue (add_rate_limited (key k)))
      else (do
        found ← get_deployments_for_proxy env p.meta
        create_or_update p found.0
        clean_up k p found.1)

  unfoldable pub sync_handler : String → Sync Unit
  unfolding sync_proxy
  sync_handler k = do
    parts ← lift (split_or_fail env k)
    or_missing (get_proxy env parts.0 parts.1) (pure tt) (sync_proxy k)

  -- The handlers that New registers.
  unfoldable pub on_proxy : Change ObjectMeta → Sync Unit
  on_proxy = Worker.on_proxy env

  unfoldable pub on_config_map : Change ObjectMeta → Sync Unit
  on_config_map = Worker.on_owned

  unfoldable pub on_deployment : Change ObjectMeta → Sync Unit
  on_deployment = Worker.on_owned

  unfoldable pub process_work_item : Item → Sync Unit
  process_work_item = Worker.process_work_item sync_handler

  unfoldable pub worker : List Item → Sync Unit
  worker = Worker.worker sync_handler
