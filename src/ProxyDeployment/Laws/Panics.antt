-- ===== src/ProxyDeployment/Laws/Panics.antt =====
-- updateDeployment on a deployment whose volume "config" has another source than a ConfigMap.
use memcached_operator.Prelude.{String, ◌≡◌, false, List, ◌∷◌, ◌++◌, map, All}
use memcached_operator.Api.Proxy.{MemcachedProxy}
use memcached_operator.Api.Objects.{Deployment, Volume}
use memcached_operator.Runtime.Env.{Env}
use memcached_operator.Runtime.Sync.{Cache}
use memcached_operator.ProxyDeployment.Laws.Volumes.{pointed, HasSource, has_config_map}
use memcached_operator.ProxyDeployment.Laws.Handler.{with_deployment}

-- A volume named "config" whose ConfigMap pointer is nil.
abbrev pub LacksSource : Volume → Type 0
LacksSource v = (v.name ≡ "config") × (has_config_map v.source ≡ false)

-- The first volume that lacks its source, with the volumes before it and after it.
abbrev pub StopsAt : List Volume → List Volume → Volume → List Volume → Type 0
StopsAt vs xs v ys = (vs ≡ xs ++ v ∷ ys) × All HasSource xs × LacksSource v

abbrev Stops : List Volume → Type 0
Stops vs = (xs : List Volume) × (v : Volume) × (ys : List Volume) × StopsAt vs xs v ys

module _ (env : Env) (p : MemcachedProxy) (d : Deployment) (c : Cache) where
  -- The cache after the loop has stopped there, for a config map with the given name.
  abbrev pub stopped : String → List Volume → Volume → List Volume → Cache
  stopped name xs v ys =
      with_deployment env p d c
        (record d { template = record d.template { volumes = map (pointed name) xs ++ v ∷ ys } })
