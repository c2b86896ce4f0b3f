-- ===== src/ProxyDeployment/Laws/Guarded.antt =====
-- syncHandler of the deployment controller on a cache in which each volume named "config" of a
-- deployment has a ConfigMap source.
use memcached_operator.Prelude.{
  subst, sym, String, ◌≡◌, ◌≢◌, refl, inl, inr, Option, none, some, List, [], ◌∷◌, All, Bool-cases,
  int_eq, int_eq_iff, keep, ℤ, All-keep, All-perm,
}
use memcached_operator.Api.Meta.{ObjectMeta, is_controlled_by}
use memcached_operator.Api.Proxy.{MemcachedProxy}
use memcached_operator.Api.Objects.{ConfigMap, Deployment}
use memcached_operator.Operator.Lookup.{
  get_deployments_for_proxy, get_config_maps_for_proxy, get_config_map_for_proxy, single, on_list,
  split_first, newer,
}
use memcached_operator.Operator.Lookup.Newest.{SortsSlice, newer-IsStrictWeak, all_found}
use memcached_operator.Runtime.Effects.{Error}
use memcached_operator.Runtime.Env.{Env, Resource}
use memcached_operator.Runtime.Sync.{Cache, Result, ok, err, panic, lift, check}
use memcached_operator.Runtime.Listers.{
  replace, in_namespace, list_deployments, list_config_maps, store_deployment,
}
use memcached_operator.Runtime.Guarded.{
  Good, Always, Outcome, Guards, bind-Guards, check-Guards, lift-Guards, list-Guards,
}
use memcached_operator.ProxyDeployment.{
  apply_written, conclude, apply_config_map, create_deployment, update_deployment, update_with,
  delete_deployments, clean_up, create_or_update, sync_proxy,
}
use memcached_operator.ProxyDeployment.Template.{deployment_for_proxy, required, deref}
use memcached_operator.ProxyDeployment.Laws.Volumes.{set_config_volumes_lem}
use memcached_operator.ProxyDeployment.Laws.Sources.{
  IsSourced, IsSourced-IsProp, pointed_to, map-pointed, All-replace, all_found-split_first,
}

module _ (Q : MemcachedProxy → Type 0) where
  -- The proxies of the cache have a property, and each volume named "config" of its deployments has
  -- a ConfigMap source.
  abbrev pub IsSound : Cache → Type 0
  IsSound c = All Q c.proxies × All IsSourced c.deployments

  conclude-Guards :
      (p : ObjectMeta) (a b x y : String) (answer : ObjectMeta × Option Error)
      → Guards IsSound Always (conclude p a b x y answer)
  conclude-Guards p a b x y (result, none) c h = (h, tt)
  conclude-Guards p a b x y (result, some e) c h = (h, tt)

  module _ (env : Env) where
    get_config_maps-Guards :
        (p : ObjectMeta) → Guards IsSound Always (get_config_maps_for_proxy env p)
    unfolding get_config_maps_for_proxy list_config_maps
    get_config_maps-Guards p =
        bind-Guards IsSound Always Always (list_config_maps env p.namespace) _
          (list-Guards IsSound Always (env.lister_error Resource.config_maps) _ (λ c h. tt))
          (λ l _ c h. (h, tt))

    single-Outcome : (p : ObjectMeta) (cms : List ConfigMap) → Outcome Always (single p cms)
    single-Outcome p [] = tt
    single-Outcome p (cm ∷ []) = tt
    single-Outcome p (cm ∷ cm' ∷ cms) = tt

    get_config_map-Guards :
        (p : ObjectMeta) → Guards IsSound Always (get_config_map_for_proxy env p)
    unfolding get_config_map_for_proxy
    get_config_map-Guards p =
        bind-Guards IsSound Always Always (get_config_maps_for_proxy env p) _
          (get_config_maps-Guards p)
          (λ cms _. lift-Guards IsSound Always (single p cms) (single-Outcome p cms))

    apply_config_map-Guards :
        (p : MemcachedProxy) (d : Deployment) (cm : ConfigMap)
        → IsSourced d
        → Guards IsSound Always (apply_config_map env p d cm)
    unfolding apply_config_map store_deployment
    apply_config_map-Guards p d cm h c (proxies, deployments) =
        let answer = env.on_update_deployment (pointed_to cm.meta.name d) in
        subst (λ loop. Good IsSound Always (apply_written env p d loop c))
          (sym (set_config_volumes_lem cm.meta.name d.template.volumes h))
          (conclude-Guards p.meta "MemcachedProxyDeploymentUpdated" "deployment %q updated"
            "MemcachedProxyDeploymentUpdateError" "failed to update deployment for %q: %v"
            (answer.0.meta, answer.1)
            (record c {
              deployments = replace (λ x. x.meta) (pointed_to cm.meta.name d) c.deployments;
            })
            (
              proxies,
              All-replace (pointed_to cm.meta.name d) c.deployments
                  (map-pointed cm.meta.name d.template.volumes) deployments,
            ))

    update_with-Guards :
        (p : MemcachedProxy) (d : Deployment) (cm : Option ConfigMap)
        → IsSourced d
        → Guards IsSound Always (update_with env p d cm)
    update_with-Guards p d none h = λ c k. (k, tt)
    update_with-Guards p d (some cm) h = apply_config_map-Guards p d cm h

    update_deployment-Guards :
        (p : MemcachedProxy) (d : Deployment)
        → IsSourced d
        → Guards IsSound Always (update_deployment env p d)
    unfolding update_deployment
    update_deployment-Guards p d h =
        bind-Guards IsSound Always Always (get_config_map_for_proxy env p.meta) _
          (get_config_map-Guards p.meta) (λ cm _. update_with-Guards p d cm h)

    required-Outcome : (p : ObjectMeta) (cm : Option ConfigMap) → Outcome Always (required p cm)
    required-Outcome p none = tt
    required-Outcome p (some cm) = tt

    deref-Outcome : (port : Option ℤ) → port ≢ none → Outcome Always (deref port)
    deref-Outcome none h = absurd (h refl)
    deref-Outcome (some a) h = tt

    deployment_for_proxy-Guards :
        (p : MemcachedProxy)
        → p.spec.mc_router.port ≢ none
        → Guards IsSound Always (deployment_for_proxy env p)
    unfolding deployment_for_proxy
    deployment_for_proxy-Guards p h =
        bind-Guards IsSound Always Always (get_config_map_for_proxy env p.meta) _
          (get_config_map-Guards p.meta)
          (λ cm _.
            bind-Guards IsSound Always Always (lift (required p.meta cm)) _
              (lift-Guards IsSound Always (required p.meta cm) (required-Outcome p.meta cm))
              (λ m _.
                bind-Guards IsSound Always Always (lift (deref p.spec.mc_router.port)) _
                  (lift-Guards IsSound Always (deref p.spec.mc_router.port)
                    (deref-Outcome p.spec.mc_router.port h))
                  (λ port _ c k. (k, tt))))

    create_deployment-Guards :
        (p : MemcachedProxy)
        → p.spec.mc_router.port ≢ none
        → Guards IsSound Always (create_deployment env p)
    unfolding create_deployment
    create_deployment-Guards p h =
        bind-Guards IsSound Always Always (deployment_for_proxy env p) _
          (deployment_for_proxy-Guards p h)
          (λ d _ c k.
            let answer = env.on_create_deployment d in
            conclude-Guards p.meta _ _ _ _ (answer.0.meta, answer.1) c k)

    delete_deployments-Guards :
        (p : MemcachedProxy) (ds : List Deployment)
        → Guards IsSound Always (delete_deployments env p ds)
    unfolding delete_deployments
    delete_deployments-Guards p [] c h = (h, tt)
    delete_deployments-Guards p (d ∷ ds) c h =
        bind-Guards IsSound Always Always
          (check (env.on_delete_deployment d.meta.namespace d.meta.name)) _
          (check-Guards IsSound (env.on_delete_deployment d.meta.namespace d.meta.name))
          (λ u _ c' h'. delete_deployments-Guards p ds c' h') c h

    clean_up-Guards :
        (k : String) (p : MemcachedProxy) (ds : List Deployment)
        → Guards IsSound Always (clean_up env k p ds)
    unfolding clean_up
    clean_up-Guards k p [] = λ c h. (h, tt)
    clean_up-Guards k p (d ∷ ds) =
        bind-Guards IsSound Always Always (delete_deployments env p ds) _
          (delete_deployments-Guards p ds) (λ u _ c h. (h, tt))

    create_or_update-Guards :
        (p : MemcachedProxy) (found : Option Deployment × List Deployment)
        → p.spec.mc_router.port ≢ none
        → All IsSourced (all_found found)
        → Guards IsSound Always (create_or_update env p found.0)
    create_or_update-Guards p (none, ds) h k = create_deployment-Guards p h
    create_or_update-Guards p (some d, ds) h k = update_deployment-Guards p d k.0

    module _ (sorts : SortsSlice env.sort_slice) where
      sorted_found :
          (p : ObjectMeta) (ds : List Deployment)
          → All IsSourced ds
          → All IsSourced (
              all_found
                (split_first (env.sort_slice newer (keep (λ d. is_controlled_by d.meta p) ds))))
      sorted_found p ds h = all_found-split_first _ (
          All-perm IsSourced IsSourced-IsProp _ _
            (sorts.perm newer (keep (λ d. is_controlled_by d.meta p) ds) newer-IsStrictWeak)
            (All-keep IsSourced _ ds h))

      on_list-Outcome :
          (p : ObjectMeta) (r : Result (List Deployment))
          → Outcome (All IsSourced) r
          → Outcome
              (λ found. All IsSourced (all_found found))
              (on_list
                (λ ds.
                  split_first (env.sort_slice newer (keep (λ d. is_controlled_by d.meta p) ds)))
                r)
      on_list-Outcome p (ok ds) h = sorted_found p ds h
      on_list-Outcome p (err e) h = tt
      on_list-Outcome p panic h = h

      list_deployments-Guards :
          (ns : String) → Guards IsSound (All IsSourced) (list_deployments env ns)
      unfolding list_deployments
      list_deployments-Guards ns =
          list-Guards IsSound (All IsSourced) (env.lister_error Resource.deployments) _
            (λ c h. All-keep IsSourced (λ d. in_namespace ns d.meta) c.deployments h.1)

      get_deployments-Guards :
          (p : ObjectMeta)
          → Guards IsSound
              (λ found. All IsSourced (all_found found))
              (get_deployments_for_proxy env p)
      unfolding get_deployments_for_proxy
      get_deployments-Guards p c h =
          let (kept, listed) = list_deployments-Guards p.namespace c h in
          (kept, on_list-Outcome p _ listed)

      -- A sync on such a cache leaves one, and does not panic, if the proxy has a port where its
      -- generation is observed.
      pub sync_proxy-Guards :
          (k : String) (p : MemcachedProxy)
          → (p.meta.generation ≡ p.status.observed_generation → p.spec.mc_router.port ≢ none)
          → Guards IsSound Always (sync_proxy env k p)
      unfolding sync_proxy
      sync_proxy-Guards k p h =
          elim (Bool-cases (int_eq p.meta.generation p.status.observed_generation)) [
            | inl e ↦ rw e (
                bind-Guards IsSound (λ found. All IsSourced (all_found found)) Always
                  (get_deployments_for_proxy env p.meta) _ (get_deployments-Guards p.meta)
                  (λ found sourced.
                    bind-Guards IsSound Always Always (create_or_update env p found.0) _
                      (create_or_update-Guards p found (h ((int_eq_iff _ _).0 e)) sourced)
                      (λ u _. clean_up-Guards k p found.1)))
            | inr e ↦ rw e (λ c k'. (k', tt))
          ]
