-- ===== src/Runtime/Listers.antt =====
-- The listers, which read the informers' cache: internal/client/listers/ianlewis/v1alpha1/memcachedproxy.go,
-- and those of client-go, which are generated from the same template.
pub mod Safety
use memcached_operator.Prelude.{
  String, ◌==◌, Bool, ◌&&◌, ◌||◌, Option, none, some, List, [], ◌∷◌, if◌then◌else◌, keep,
  find_first,
}
use memcached_operator.Api.Meta.{ObjectMeta}
use memcached_operator.Api.Proxy.{MemcachedProxy}
use memcached_operator.Api.Objects.{Service, ConfigMap, Deployment, ReplicaSet, Endpoints}
use memcached_operator.Runtime.Effects.{errorf, not_found}
use memcached_operator.Runtime.Env.{Env, Resource}
use memcached_operator.Runtime.Sync.{Result, ok, err, Sync, ◌>>=◌, ◌>>◌, check, gets, lift, modify}

-- The index of an informer finds an object by the key <namespace>/<name>.
abbrev pub named : String → String → ObjectMeta → Bool
named namespace name m = m.namespace == namespace && m.name == name

-- The index by namespace; metav1.NamespaceAll is "".
abbrev pub in_namespace : String → ObjectMeta → Bool
in_namespace namespace m = namespace == "" || m.namespace == namespace

abbrev pub found : {A : Type 0} → Option A → Result A
found none = err not_found
found (some a) = ok a

-- `ns, name, err := cache.SplitMetaNamespaceKey(key)`
abbrev pub split_or_fail : Env → String → Result (String × String)
split_or_fail env key = elim (env.split_key key) [
  | none ↦ err (errorf "invalid resource key: %s" (key ∷ []))
  | some parts ↦ ok parts
]

module _ (env : Env) where
  -- s.MemcachedProxies(namespace).Get(name)
  unfoldable pub get_proxy : String → String → Sync MemcachedProxy
  get_proxy namespace name = do
    check (env.lister_error Resource.proxies)
    found_proxy ← gets (λ c. find_first (λ p. named namespace name p.meta) c.proxies)
    lift (found found_proxy)

  -- s.MemcachedProxies(namespace).List(labels.Everything())
  unfoldable pub list_proxies : String → Sync (List MemcachedProxy)
  list_proxies namespace = do
    check (env.lister_error Resource.proxies)
    gets (λ c. keep (λ p. in_namespace namespace p.meta) c.proxies)

  unfoldable pub get_config_map : String → String → Sync ConfigMap
  get_config_map namespace name = do
    check (env.lister_error Resource.config_maps)
    found_map ← gets (λ c. find_first (λ m. named namespace name m.meta) c.config_maps)
    lift (found found_map)

  unfoldable pub list_config_maps : String → Sync (List ConfigMap)
  list_config_maps namespace = do
    check (env.lister_error Resource.config_maps)
    gets (λ c. keep (λ m. in_namespace namespace m.meta) c.config_maps)

  unfoldable pub list_deployments : String → Sync (List Deployment)
  list_deployments namespace = do
    check (env.lister_error Resource.deployments)
    gets (λ c. keep (λ d. in_namespace namespace d.meta) c.deployments)

  -- The replica sets whose labels a selector accepts.
  unfoldable pub list_replica_sets : String → (ObjectMeta → Bool) → Sync (List ReplicaSet)
  list_replica_sets namespace selects = do
    check (env.lister_error Resource.replica_sets)
    gets (λ c. keep (λ r. in_namespace namespace r.meta && selects r.meta) c.replica_sets)

  unfoldable pub get_service : String → String → Sync Service
  get_service namespace name = do
    check (env.lister_error Resource.services)
    found_service ← gets (λ c. find_first (λ s. named namespace name s.meta) c.services)
    lift (found found_service)

  unfoldable pub get_endpoints : String → String → Sync Endpoints
  get_endpoints namespace name = do
    check (env.lister_error Resource.endpoints)
    found_endpoints ← gets (λ c. find_first (λ e. named namespace name e.meta) c.endpoints)
    lift (found found_endpoints)

-- A write through a pointer that a lister returned changes the object in the cache.
module _ {A : Type 0} (meta : A → ObjectMeta) (a : A) where
  abbrev pub replace : List A → List A
  replace [] = []
  replace (x ∷ xs) = (if named (meta a).namespace (meta a).name (meta x) then a else x) ∷ replace xs

unfoldable pub store_service : Service → Sync Unit
store_service s = modify (λ c. record c { services = replace (λ x. x.meta) s c.services })

unfoldable pub store_config_map : ConfigMap → Sync Unit
store_config_map m = modify (λ c. record c { config_maps = replace (λ x. x.meta) m c.config_maps })

unfoldable pub store_deployment : Deployment → Sync Unit
store_deployment d = modify (λ c. record c { deployments = replace (λ x. x.meta) d c.deployments })
