-- ===== src/ProxyConfigMap/Handler/Reuse.antt =====
-- reuseConfigMap: what it sends for the latest config map, and for an older one.
use memcached_operator.Prelude.{
  ◌<>◌, ◌==◌, eq_refl, ◌≡◌, refl, ◌∙◌, true, false, or-true, Option, none, some, List, [], ◌∷◌,
  exists, exists-append, ◌⊎◌, inl, inr, Bool-cases,
}
use memcached_operator.Api.Meta.{ObjectMeta, new_controller_ref}
use memcached_operator.Api.Objects.{ConfigMap, Deployment}
use memcached_operator.Operator.Lookup.{get_deployments_for_proxy}
use memcached_operator.Operator.Owners.{is_owned_by, memcached_proxy_type}
use memcached_operator.Runtime.Effects.{Error, wrapped, Effect, update}
use memcached_operator.Runtime.Env.{Env}
use memcached_operator.Runtime.Sync.{Cache, pure}
use memcached_operator.Runtime.Listers.{replace, store_config_map}
use memcached_operator.Runtime.Monad.{pure-bind}
use memcached_operator.ProxyConfigMap.Owners.{reused, is_latest}
use memcached_operator.ProxyConfigMap.Handler.{
  reuse_config_map, reuse_with, record_config_map_event,
}
use memcached_operator.ProxyConfigMap.Handler.Laws.{failed_with}

module _ (p : ObjectMeta) (d : Deployment) (cm : ConfigMap) where
  reused-latest : is_latest d cm ≡ true → reused p d cm ≡ cm
  unfolding reused
  reused-latest h = rw h

  reused-older : is_latest d cm ≡ false → is_owned_by (reused p d cm).meta p ≡ true
  unfolding reused is_owned_by new_controller_ref
  reused-older h = rw h (
      exists-append (λ ref. ref.uid == p.uid) cm.meta.owner_references
        (new_controller_ref p memcached_proxy_type ∷ [])
      ∙ rw (eq_refl p.uid, or-true (exists (λ ref. ref.uid == p.uid) cm.meta.owner_references)))

module _ (env : Env) (p : ObjectMeta) (cm : ConfigMap) (d : Deployment) (c : Cache) where
  abbrev pub with_reused : Cache
  with_reused = record c { config_maps = replace (λ x. x.meta) (reused p d cm) c.config_maps }

  sent_cases :
      (back : ConfigMap) (answer : Option Error)
      → env.on_update_config_map (reused p d cm) ≡ (back, answer)
      → reuse_with env p cm (some d) c ≡ record {
        result =
            failed_with
              (wrapped "failed to update configmaps for \"%s\": %v"
                (p.namespace <> ("/" <> p.name)))
              answer;
        cache = with_reused;
        effects =
            Effect.update_config_map (reused p d cm).meta.namespace (reused p d cm)
            ∷ record_config_map_event update p back answer
            ∷ [];
      }
  unfolding store_config_map
  sent_cases back none h = rw h
  sent_cases back (some e) h = rw h

  -- If the proxy has a deployment, the only API call of reuseConfigMap updates the config map,
  -- whether or not it is the latest, after it was written to the cache; an event with the answer
  -- follows and an error of the API server is returned. Either the deployment refers to the
  -- config map, and it is sent unchanged, or the deployment does not, and what is sent is owned
  -- by the proxy.
  pub reuse_config_map_lem :
      (others : List Deployment)
      → get_deployments_for_proxy env p c ≡ pure (some d, others) c
      → let (back, answer) = env.on_update_config_map (reused p d cm) in
        (reuse_config_map env p cm c ≡ record {
          result =
              failed_with
                (wrapped "failed to update configmaps for \"%s\": %v"
                  (p.namespace <> ("/" <> p.name)))
                answer;
          cache = with_reused;
          effects =
              Effect.update_config_map (reused p d cm).meta.namespace (reused p d cm)
              ∷ record_config_map_event update p back answer
              ∷ [];
        })
        × (((is_latest d cm ≡ true) × (reused p d cm ≡ cm))
            ⊎ ((is_latest d cm ≡ false) × (is_owned_by (reused p d cm).meta p ≡ true)))
  unfolding reuse_config_map
  reuse_config_map_lem others found =
      let (back, answer) = env.on_update_config_map (reused p d cm) in
      (
        pure-bind (get_deployments_for_proxy env p) (λ found. reuse_with env p cm found.0) c
              (some d, others) found
            ∙ sent_cases back answer refl,
        elim (Bool-cases (is_latest d cm)) [
          | inl h ↦ inl (h, reused-latest p d cm h)
          | inr h ↦ inr (h, reused-older p d cm h)
        ],
      )
