-- ===== src/ProxyDeployment/Laws/CleanUp.antt =====
-- What a sync does about more than one deployment: deleteDeployments, and `dList[1:]` in syncHandler.
use memcached_operator.Prelude.{
  String, ◌≡◌, refl, ap, ◌∙◌, ◌++◌, append-nil, none, some, List, [], ◌∷◌, All,
}
use memcached_operator.Api.Proxy.{MemcachedProxy}
use memcached_operator.Api.Objects.{Deployment}
use memcached_operator.Operator.Lookup.{get_deployments_for_proxy, get_config_map_for_proxy}
use memcached_operator.Runtime.Effects.{Error, errorf, Effect, warning, Arg}
use memcached_operator.Runtime.Env.{Env}
use memcached_operator.Runtime.Sync.{Cache, Result, ok, err, Run, Sync, ◌>>◌, pure}
use memcached_operator.ProxyDeployment.{
  full_name, update_deployment, delete_deployments, clean_up, sync_proxy,
}
use memcached_operator.ProxyDeployment.Laws.Handler.{sync_proxy-found, update_deployment-idle}

module _ (env : Env) (p : MemcachedProxy) where
  -- The API server deletes a deployment.
  abbrev Deletes : Deployment → Type 0
  Deletes d = env.on_delete_deployment d.meta.namespace d.meta.name ≡ none

  -- For each deployment the call and its event.
  abbrev pub deletions : List Deployment → List Effect
  deletions [] = []
  deletions (d ∷ ds) =
      Effect.delete_deployment d.meta.namespace d.meta.name
      ∷ Effect.event p.meta warning "MemcachedProxyDeploymentDelete" "deleted deployment %q"
          (Arg.str (full_name d.meta) ∷ [])
      ∷ deletions ds

  -- If the API server deletes every deployment of a list, deleteDeployments succeeds, leaves the
  -- cache as it is, and calls Delete for each deployment, in order and each followed by an event.
  delete_deployments_lem :
      (ds : List Deployment) (c : Cache)
      → All Deletes ds
      → delete_deployments env p ds c ≡ record { result = ok tt; cache = c; effects = deletions ds }
  unfolding delete_deployments
  delete_deployments_lem [] c h = refl
  delete_deployments_lem (d ∷ ds) c h = rw (h.0, delete_deployments_lem ds c h.1)

  -- If the API server deletes the deployments before a given one and refuses to delete that one,
  -- deleteDeployments returns the error of the API server: the deployments before have been
  -- deleted, each with an event, Delete has been called for the given one without an event, and
  -- the later ones are not touched.
  delete_deployments-error :
      (before : List Deployment) (d : Deployment) (later : List Deployment) (e : Error) (c : Cache)
      → All Deletes before
      → env.on_delete_deployment d.meta.namespace d.meta.name ≡ some e
      → delete_deployments env p (before ++ d ∷ later) c ≡ record {
        result = err e;
        cache = c;
        effects = deletions before ++ Effect.delete_deployment d.meta.namespace d.meta.name ∷ [];
      }
  unfolding delete_deployments
  delete_deployments-error [] d later e c h failed = rw failed
  delete_deployments-error (x ∷ before) d later e c h failed =
      rw (h.0, delete_deployments-error before d later e c h.1 failed)

  -- What is returned after several deployments were found.
  abbrev pub found_multiple : String → Error
  found_multiple k = errorf "Found multiple deployments for %q. Requeueing..." (k ∷ [])

  clean_up_lem :
      (k : String) (second : Deployment) (older : List Deployment) (c : Cache)
      → All Deletes older
      → clean_up env k p (second ∷ older) c
        ≡ record { result = err (found_multiple k); cache = c; effects = deletions older }
  unfolding clean_up
  clean_up_lem k second older c h = rw (delete_deployments_lem older c h, append-nil)

  then-clean_up :
      (k : String) (second : Deployment) (older : List Deployment) (c : Cache) (m : Sync Unit)
      (result : Result Unit) (cache : Cache) (effects : List Effect)
      → All Deletes older
      → m c ≡ record { result = result; cache = cache; effects = effects }
      → result ≡ ok tt
      → (m >> clean_up env k p (second ∷ older)) c ≡ record {
        result = err (found_multiple k);
        cache = cache;
        effects = effects ++ deletions older;
      }
  then-clean_up k second older c m result cache effects h e good =
      rw (e, good, clean_up_lem k second older cache h)

  -- For a proxy whose generation is observed, with several deployments of which the newest is
  -- updated without an error and those older than the second newest can be deleted, syncHandler
  -- updates the newest and deletes those older than the second newest, in order and each with an
  -- event, and returns the error about multiple deployments. The second newest is not deleted.
  pub sync_proxy-multiple :
      (k : String) (c : Cache) (newest second : Deployment) (older : List Deployment)
      → p.meta.generation ≡ p.status.observed_generation
      → get_deployments_for_proxy env p.meta c ≡ pure (some newest, second ∷ older) c
      → (update_deployment env p newest c).result ≡ ok tt
      → All Deletes older
      → sync_proxy env k p c ≡ record {
        result = err (found_multiple k);
        cache = (update_deployment env p newest c).cache;
        effects = (update_deployment env p newest c).effects ++ deletions older;
      }
  sync_proxy-multiple k c newest second older observed found updated h =
      sync_proxy-found env k p c observed (some newest, second ∷ older) found
      ∙ then-clean_up k second older c (update_deployment env p newest)
          (update_deployment env p newest c).result (update_deployment env p newest c).cache
          (update_deployment env p newest c).effects h refl updated

  -- For a proxy whose generation is observed, with exactly two deployments and no new config map,
  -- syncHandler deletes nothing: it has no effect, leaves the cache as it is and returns the
  -- error about multiple deployments.
  pub sync_proxy-stuck :
      (k : String) (c : Cache) (newest second : Deployment)
      → p.meta.generation ≡ p.status.observed_generation
      → get_deployments_for_proxy env p.meta c ≡ pure (some newest, second ∷ []) c
      → get_config_map_for_proxy env p.meta c ≡ pure none c
      → sync_proxy env k p c ≡ record { result = err (found_multiple k); cache = c; effects = [] }
  sync_proxy-stuck k c newest second observed found idle =
      let same = update_deployment-idle env p newest c idle in
      sync_proxy-multiple k c newest second [] observed found (ap (λ (r : Run Unit). r.result) same)
        tt
      ∙ rw same
