-- ===== src/Tests/Deployments.antt =====
-- The deployment controller on a proxy with one, two and three deployments.
use mathlib.Core.List.{Perm}
use memcached_operator.Prelude.{◌≡◌, refl, Option, none, some, List, [], ◌∷◌, ◌++◌, ℤ, All}
use memcached_operator.Api.Meta.{is_controlled_by}
use memcached_operator.Api.Objects.{Deployment, Volume, empty_dir, config_map}
use memcached_operator.Operator.Lookup.{get_deployments_for_proxy, get_config_map_for_proxy}
use memcached_operator.Operator.Lookup.Newest.{
  all_found, controlled, NewestFirst, get_deployments_for_proxy-newest,
}
use memcached_operator.Runtime.Effects.{Effect, Arg, normal, errorf}
use memcached_operator.Runtime.Sync.{Cache, ok, err, pure}
use memcached_operator.Runtime.Listers.{list_deployments, list_config_maps}
use memcached_operator.ProxyService.{new_service}
use memcached_operator.ProxyDeployment.{create_deployment, update_deployment, sync_proxy}
use memcached_operator.ProxyDeployment.Template.{new_deployment}
use memcached_operator.ProxyDeployment.Laws.Volumes.{HasSource}
use memcached_operator.ProxyDeployment.Laws.Wiring.{IsWired, new_deployment-IsWired}
use memcached_operator.ProxyDeployment.Laws.Handler.{
  redirected, with_deployment, sync_proxy-creates_on_error, update_deployment-redirects,
}
use memcached_operator.ProxyDeployment.Laws.CleanUp.{
  deletions, found_multiple, sync_proxy-multiple, sync_proxy-stuck,
}
use memcached_operator.Tests.Data.{
  env, blind, conflict, proxy_meta, ready, cm, template, deployment, empty_cache,
}
use memcached_operator.Tests.Sorting.{insertion_sort-SortsSlice}

-- Three deployments, the newest in the middle.
abbrev three : Cache
three = record empty_cache {
  deployments = deployment "second" 5 ∷ deployment "newest" 9 ∷ deployment "oldest" 2 ∷ [];
}

abbrev two : Cache
two = record empty_cache { deployments = deployment "second" 5 ∷ deployment "newest" 9 ∷ [] }

abbrev with_map : Cache
with_map = record two { config_maps = cm ∷ [] }

found_three :
    get_deployments_for_proxy env proxy_meta three
    ≡ pure (some (deployment "newest" 9), deployment "second" 5 ∷ deployment "oldest" 2 ∷ []) three
unfolding get_deployments_for_proxy list_deployments is_controlled_by
found_three = refl

found_two :
    get_deployments_for_proxy env proxy_meta two
    ≡ pure (some (deployment "newest" 9), deployment "second" 5 ∷ []) two
unfolding get_deployments_for_proxy list_deployments is_controlled_by
found_two = refl

no_map_two : get_config_map_for_proxy env proxy_meta two ≡ pure none two
unfolding get_config_map_for_proxy list_config_maps
no_map_two = refl

one_map : get_config_map_for_proxy env proxy_meta with_map ≡ pure (some cm) with_map
unfolding get_config_map_for_proxy list_config_maps is_controlled_by
one_map = refl

updated_three : (update_deployment env ready (deployment "newest" 9) three).result ≡ ok tt
unfolding update_deployment get_config_map_for_proxy list_config_maps
updated_three = refl

pub sources : All HasSource template.volumes
sources = ((λ e. refl), ((λ e. cc), tt))

get_deployments_for_proxy-newest_example :
    (found : Option Deployment × List Deployment) × (get_deployments_for_proxy env proxy_meta three
      ≡ pure found three)
    × Perm (all_found found) (controlled proxy_meta three)
    × NewestFirst found
get_deployments_for_proxy-newest_example =
    get_deployments_for_proxy-newest env proxy_meta three insertion_sort-SortsSlice refl

new_deployment-IsWired_example :
    IsWired ready cm
      (new_deployment env.libs ready (ℤ.pos 11211) cm)
      (new_service env "default" ready (ℤ.pos 11211))
new_deployment-IsWired_example = new_deployment-IsWired env ready (ℤ.pos 11211) cm

update_deployment-redirects_example :
    update_deployment env ready (deployment "newest" 9) with_map ≡ record {
      result = ok tt;
      cache =
          with_deployment env ready
            (deployment "newest" 9)
            with_map
            (redirected env ready (deployment "newest" 9) with_map cm);
      effects =
          Effect.update_deployment "default"
            (redirected env ready (deployment "newest" 9) with_map cm)
          ∷ Effect.event proxy_meta normal "MemcachedProxyDeploymentUpdated" "deployment %q updated"
              (Arg.str "default/newest" ∷ [])
          ∷ [];
    }
update_deployment-redirects_example =
    update_deployment-redirects env ready (deployment "newest" 9) with_map cm one_map sources

sync_proxy-multiple_example : sync_proxy env "p" ready three ≡ record {
  result = err (found_multiple env ready "p");
  cache = (update_deployment env ready (deployment "newest" 9) three).cache;
  effects =
      (update_deployment env ready (deployment "newest" 9) three).effects
      ++ deletions env ready (deployment "oldest" 2 ∷ []);
}
sync_proxy-multiple_example =
    sync_proxy-multiple env ready "p" three (deployment "newest" 9) (deployment "second" 5)
      (deployment "oldest" 2 ∷ []) refl found_three updated_three (refl, tt)

sync_proxy-stuck_example : sync_proxy env "p" ready two ≡ record {
  result = err (errorf "Found multiple deployments for %q. Requeueing..." ("p" ∷ []));
  cache = two;
  effects = [];
}
sync_proxy-stuck_example =
    sync_proxy-stuck env ready "p" two (deployment "newest" 9) (deployment "second" 5) refl
      found_two no_map_two

sync_proxy-creates_on_error_example :
    sync_proxy blind "p" ready two ≡ create_deployment blind ready two
sync_proxy-creates_on_error_example =
    sync_proxy-creates_on_error blind "p" ready two refl conflict refl

-- The user has put a directory in place of the config map of the second volume "config".
abbrev kept_volume : Volume
kept_volume = record { name = "config"; source = config_map "old" }

abbrev emptied : Volume
emptied = record { name = "config"; source = empty_dir }

abbrev repointed : Deployment
repointed = record (deployment "d" 1) {
  template = record template { volumes = kept_volume ∷ emptied ∷ [] };
}
