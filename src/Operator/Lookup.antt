-- ===== src/Operator/Lookup.antt =====
-- The objects that belong to a proxy: internal/controller/operator.go.
pub mod Newest
pub mod Safety
use memcached_operator.Prelude.{◌<>◌, Bool, Option, none, some, List, [], ◌∷◌, ltb, keep}
use memcached_operator.Api.Meta.{ObjectMeta, is_controlled_by}
use memcached_operator.Api.Objects.{ConfigMap, Deployment}
use memcached_operator.Runtime.Effects.{errorf}
use memcached_operator.Runtime.Env.{Env}
use memcached_operator.Runtime.Sync.{Result, ok, err, panic, Sync, ◌>>=◌, pure, lift}
use memcached_operator.Runtime.Listers.{list_deployments, list_config_maps}

-- The test of sort.Slice: the creation of the second is before that of the first.
abbrev pub newer : Deployment → Deployment → Bool
newer a b = ltb b.meta.creation_timestamp a.meta.creation_timestamp

-- `return result[0], result[1:]`, and nothing if there is no element.
abbrev pub split_first : List Deployment → Option Deployment × List Deployment
split_first [] = (none, [])
split_first (d ∷ ds) = (some d, ds)

-- An error of the lister is not returned: then there are no deployments.
abbrev pub on_list :
    (List Deployment → Option Deployment × List Deployment)
    → Result (List Deployment)
    → Result (Option Deployment × List Deployment)
on_list f (ok d_list) = ok (f d_list)
on_list f (err e) = ok (none, [])
on_list f panic = panic

-- At most one config map may be controlled by the proxy.
abbrev pub single : ObjectMeta → List ConfigMap → Result (Option ConfigMap)
single p [] = ok none
single p (cm ∷ []) = ok (some cm)
single p (_ ∷ _ ∷ _) =
    err (errorf "found multiple configmaps for %q" ((p.namespace <> "/" <> p.name) ∷ []))

module _ (env : Env) where
  unfoldable pub get_deployments_for_proxy : ObjectMeta → Sync (Option Deployment × List Deployment)
  get_deployments_for_proxy p c =
      let listed = list_deployments env p.namespace c in
      record {
        result =
            on_list
              (λ d_list.
                split_first (env.sort_slice newer (keep (λ d. is_controlled_by d.meta p) d_list)))
              listed.result;
        cache = listed.cache;
        effects = listed.effects;
      }

  unfoldable pub get_config_maps_for_proxy : ObjectMeta → Sync (List ConfigMap)
  get_config_maps_for_proxy p = do
    cm_list ← list_config_maps env p.namespace
    pure (keep (λ cm. is_controlled_by cm.meta p) cm_list)

  unfoldable pub get_config_map_for_proxy : ObjectMeta → Sync (Option ConfigMap)
  unfolding get_config_maps_for_proxy
  get_config_map_for_proxy p = do cm_list ← get_config_maps_for_proxy p; lift (single p cm_list)
