-- ===== src/ProxyConfigMap/Handler/Safety.antt =====
-- The actions of the config map controller, internal/controller/proxyconfigmap/controller.go, and panics.
use memcached_operator.Prelude.{
  String, ◌≡◌, ◌≢◌, refl, inl, inr, Option, none, some, List, [], ◌∷◌, Bool-cases, int_eq,
}
use memcached_operator.Api.Meta.{ObjectMeta}
use memcached_operator.Api.Proxy.{MemcachedProxy}
use memcached_operator.Api.Objects.{ConfigMap, Deployment}
use memcached_operator.Operator.Lookup.{get_deployments_for_proxy, get_config_maps_for_proxy}
use memcached_operator.Runtime.Effects.{Error, wrapped, Verb, create, update, Item}
use memcached_operator.Runtime.Env.{Env, Answer}
use memcached_operator.Runtime.Sync.{Cache, Result, ok, err, panic, pure, lift}
use memcached_operator.Runtime.Listers.{get_proxy, get_config_map, split_or_fail, store_config_map}
use memcached_operator.Runtime.Listers.Safety.{
  get_proxy-IsSafe, get_config_map-IsSafe, split-ne-panic,
}
use memcached_operator.Operator.Lookup.Safety.{get_deployments-IsSafe, get_config_maps-IsSafe}
use memcached_operator.Runtime.Safety.{
  IsSafe, bind-IsSafe, or_missing-IsSafe, attempt-IsSafe, wrapping-IsSafe,
}
use memcached_operator.Worker.{wrapping}
use memcached_operator.Worker.Laws.{worker-ok}
use memcached_operator.ProxyConfigMap.Pools.{config_for_proxy}
use memcached_operator.ProxyConfigMap.Owners.{reused, apply_owner_ref_to_cm}
use memcached_operator.ProxyConfigMap.Handler.{
  config_map_for_proxy, reuse_config_map, create_config_map, sync_config_maps, sync_proxy,
  sync_handler, worker, conclude, reuse_with, create_or_reuse, update_applied, update_config_map,
}
use memcached_operator.ProxyConfigMap.Pools.Safety.{config_for_proxy-IsSafe}
use memcached_operator.ProxyConfigMap.Owners.Safety.{apply_owner_ref_to_cm-IsSafe}

module _ (env : Env) where
  config_map_for_proxy-IsSafe : (p : MemcachedProxy) → IsSafe (config_map_for_proxy env p)
  unfolding config_map_for_proxy
  config_map_for_proxy-IsSafe p =
      bind-IsSafe
        (wrapping (wrapped "failed to create mcrouter config: %v" "") (config_for_proxy env p.spec))
        _ (wrapping-IsSafe _ (config_for_proxy env p.spec) (config_for_proxy-IsSafe env p.spec))
        (λ config c h. cc)

  conclude-IsSafe :
      (f : Error → Error) (verb : Verb) (p : ObjectMeta) (answer : Answer ConfigMap)
      → IsSafe (conclude f verb p answer)
  conclude-IsSafe f verb p (cm, none) c h = cc
  conclude-IsSafe f verb p (cm, some e) c h = cc

  reuse_with-IsSafe :
      (p : ObjectMeta) (cm : ConfigMap) (d : Option Deployment) → IsSafe (reuse_with env p cm d)
  unfolding store_config_map
  reuse_with-IsSafe p cm none c = λ h. cc
  reuse_with-IsSafe p cm (some d) c =
      conclude-IsSafe _ update p (env.on_update_config_map (reused p d cm)) _

  reuse_config_map-IsSafe : (p : ObjectMeta) (cm : ConfigMap) → IsSafe (reuse_config_map env p cm)
  unfolding reuse_config_map
  reuse_config_map-IsSafe p cm =
      bind-IsSafe (get_deployments_for_proxy env p) _ (get_deployments-IsSafe env p)
        (λ ds. reuse_with-IsSafe p cm ds.0)

  create_config_map-IsSafe :
      (k ns : String) (p : ObjectMeta) (cm : ConfigMap) → IsSafe (create_config_map env k ns p cm)
  unfolding create_config_map
  create_config_map-IsSafe k ns p cm c =
      bind-IsSafe (conclude (λ e. e) create p (env.on_create_config_map cm)) _
        (conclude-IsSafe (λ e. e) create p (env.on_create_config_map cm)) (λ u c h. cc) c

  create_or_reuse-IsSafe :
      (k ns : String) (p : MemcachedProxy) (r : Result ConfigMap)
      → r ≢ panic
      → IsSafe (create_or_reuse env k ns p r)
  create_or_reuse-IsSafe k ns p (ok cm) h =
      or_missing-IsSafe (get_config_map env p.meta.namespace cm.meta.name) _ _
        (get_config_map-IsSafe env p.meta.namespace cm.meta.name)
        (create_config_map-IsSafe k ns p.meta cm) (reuse_config_map-IsSafe p.meta)
  create_or_reuse-IsSafe k ns p (err e) h = λ c k. cc
  create_or_reuse-IsSafe k ns p panic h = absurd (h refl)

  update_config_map-IsSafe :
      (f : Error → Error) (p : ObjectMeta) (cm : ConfigMap) → IsSafe (update_config_map env f p cm)
  update_config_map-IsSafe f p cm c = conclude-IsSafe f update p (env.on_update_config_map cm) c

  update_applied-IsSafe :
      (k : String) (p : ObjectMeta) (cm : Option ConfigMap) → IsSafe (update_applied env k p cm)
  update_applied-IsSafe k p none = λ c h. cc
  update_applied-IsSafe k p (some cm) =
      bind-IsSafe (update_config_map env (wrapped "failed to update configmaps for %q: %v" k) p cm)
        _ (update_config_map-IsSafe _ p cm) (λ u c h. cc)

  sync_config_maps-IsSafe :
      (k ns : String) (p : MemcachedProxy) (cms : List ConfigMap)
      → IsSafe (sync_config_maps env k ns p cms)
  unfolding sync_config_maps
  sync_config_maps-IsSafe k ns p [] =
      attempt-IsSafe (config_map_for_proxy env p) (create_or_reuse env k ns p)
        (config_map_for_proxy-IsSafe p) (create_or_reuse-IsSafe k ns p)
  sync_config_maps-IsSafe k ns p (cm ∷ []) =
      let f = wrapped "failed to apply ownerrefs to configmap for %q: %v" k in
      bind-IsSafe (wrapping f (apply_owner_ref_to_cm env p.meta cm)) _
        (wrapping-IsSafe f (apply_owner_ref_to_cm env p.meta cm)
          (apply_owner_ref_to_cm-IsSafe env p.meta cm))
        (update_applied-IsSafe k p.meta)
  sync_config_maps-IsSafe k ns p (_ ∷ _ ∷ _) = λ c h. cc

  sync_proxy-IsSafe : (k ns : String) (p : MemcachedProxy) → IsSafe (sync_proxy env k ns p)
  unfolding sync_proxy
  sync_proxy-IsSafe k ns p =
      let f = wrapped "failed to get configmaps for %q: %v" k in
      elim (Bool-cases (int_eq p.meta.generation p.status.observed_generation)) [
        | inl e ↦ rw e (
            bind-IsSafe (wrapping f (get_config_maps_for_proxy env p.meta)) _
              (wrapping-IsSafe f (get_config_maps_for_proxy env p.meta)
                (get_config_maps-IsSafe env p.meta))
              (sync_config_maps-IsSafe k ns p))
        | inr e ↦ rw e (λ c h. cc)
      ]

  sync_handler-IsSafe : (k : String) → IsSafe (sync_handler env k)
  unfolding sync_handler
  sync_handler-IsSafe k =
      bind-IsSafe (lift (split_or_fail env k)) _ (λ c. split-ne-panic env k)
        (λ parts.
          or_missing-IsSafe (get_proxy env parts.0 parts.1) (pure tt) (sync_proxy env k parts.0)
            (get_proxy-IsSafe env parts.0 parts.1) (λ c h. cc) (sync_proxy-IsSafe k parts.0))

  pub config_map_worker-ok : (items : List Item) (c : Cache) → (worker env items c).result ≡ ok tt
  unfolding worker
  config_map_worker-ok items c = worker-ok (sync_handler env) items c sync_handler-IsSafe
