-- ===== src/ProxyConfigMap/Affected.antt =====
-- Endpoints that change, and the proxies that they affect: endpoints.go.
pub mod Laws
pub mod Enqueued
pub mod Leaves
pub mod Keyed
use native.Mathlib.Decide.{ℕ_discrete}
use memcached_operator.Prelude.{
  String, ◌<>◌, ◌==◌, Bool, not, ◌&&◌, none, some, List, [], ◌∷◌, Dict, insert, exists, decided,
  String-discrete, if◌then◌else◌,
}
use memcached_operator.Api.Rules.{ServiceSpec, RuleSpec, rule, RuleSpecs, nil, cons}
use memcached_operator.Api.Proxy.{MemcachedProxy}
use memcached_operator.Api.Objects.{EndpointSubset, Endpoints}
use memcached_operator.Runtime.Effects.{errorf, wrapped}
use memcached_operator.Runtime.Env.{Env}
use memcached_operator.Runtime.Sync.{
  Result, ok, err, panic, attempt, Sync, ◌>>=◌, ◌>>◌, pure, panics, lift,
}
use memcached_operator.Runtime.Listers.{list_proxies}
use memcached_operator.Worker.{
  Notice, object, tombstone, unknown, Change, added, updated, deleted, enqueue_key, wrapping,
}
use memcached_operator.ProxyConfigMap.Routes.{Services}

-- `for k, spec := range services { result[k] = spec }`
abbrev pub insert_all : Services → Services → Services
insert_all [] result = result
insert_all ((k, spec) ∷ services) result = insert_all services (insert k spec result)

abbrev pub service_key : ServiceSpec → String
service_key s = s.namespace <> ("/" <> s.name)

-- The services of a rule; those of its children go into the map that is returned.
unfoldable mutual
  pub service_specs_for_rule : RuleSpec → Services
  service_specs_for_rule (rule type (some s) children) = (service_key s, s) ∷ []
  service_specs_for_rule (rule type none children) = service_specs_for_children children []

  -- The loop over r.Children.
  pub service_specs_for_children : RuleSpecs → Services → Services
  service_specs_for_children nil result = result
  service_specs_for_children (cons r rs) result =
      service_specs_for_children rs (insert_all (service_specs_for_rule r) result)

abbrev pub values : {V : Type 0} → Dict V → List V
values [] = []
values ((k, v) ∷ m) = v ∷ values m

unfoldable pub get_proxy_service_specs : MemcachedProxy → List ServiceSpec
unfolding service_specs_for_rule
get_proxy_service_specs p = values (service_specs_for_rule p.spec.rules)

-- sets.String: a list with no text twice.
unfoldable pub insert_key : String → List String → List String
insert_key k set = if exists (λ j. j == k) set then set else k ∷ set

abbrev pub references : Endpoints → ServiceSpec → Bool
references ep s = s.namespace == ep.meta.namespace && s.name == ep.meta.name

-- The loops over the map of proxies to services.
unfoldable pub affected_keys : Endpoints → Dict (List ServiceSpec) → List String → List String
unfolding insert_key
affected_keys ep [] set = set
affected_keys ep ((k, specs) ∷ proxy_map) set =
    affected_keys ep proxy_map (if exists (references ep) specs then insert_key k set else set)

unfoldable pub enqueue_all : List String → Sync Unit
enqueue_all [] = pure tt
enqueue_all (k ∷ keys) = do enqueue_key k; enqueue_all keys

abbrev Subsets-discrete : Discrete (List EndpointSubset)
Subsets-discrete = hlevel (ℕ_discrete, String-discrete)

-- reflect.DeepEqual of the subsets.
abbrev same_subsets : List EndpointSubset → List EndpointSubset → Bool
same_subsets a b = decided (Subsets-discrete a b)

-- `namespace` is the namespace that the controller watches.
module _ (env : Env) (namespace : String) where
  abbrev pub key_or_fail : MemcachedProxy → Result String
  key_or_fail p = elim (env.meta_key p.meta) [
    | none ↦ err (
        errorf "failed to get key for proxy: %q: %v"
          ((p.meta.namespace <> ("/" <> p.meta.name)) ∷ []))
    | some k ↦ ok k
  ]

  -- The loop over the proxies.
  unfoldable pub specs_by_proxy :
      List MemcachedProxy → Dict (List ServiceSpec) → Sync (Dict (List ServiceSpec))
  specs_by_proxy [] result = pure result
  specs_by_proxy (p ∷ ps) result = do
    k ← lift (key_or_fail p)
    specs_by_proxy ps (insert k (get_proxy_service_specs p) result)

  unfoldable pub get_all_proxy_service_specs : Sync (Dict (List ServiceSpec))
  unfolding specs_by_proxy
  get_all_proxy_service_specs = do
    proxies ←
        wrapping (λ e. errorf "failed to get memcached proxies for namespace %q" (namespace ∷ []))
          (list_proxies env namespace)
    specs_by_proxy proxies []

  unfoldable pub get_affected_proxies : Endpoints → Sync (List String)
  unfolding get_all_proxy_service_specs affected_keys
  get_affected_proxies ep = do
    proxy_map ←
        wrapping (wrapped "failed to get services for memcached proxies: %v" "")
          get_all_proxy_service_specs
    pure (affected_keys ep proxy_map [])

  -- An error is only logged.
  abbrev pub enqueue_affected : Result (List String) → Sync Unit
  enqueue_affected (ok keys) = enqueue_all keys
  enqueue_affected (err e) = pure tt
  enqueue_affected panic = panics

  unfoldable pub add_endpoints : Endpoints → Sync Unit
  unfolding get_affected_proxies enqueue_all
  add_endpoints ep = attempt (get_affected_proxies ep) enqueue_affected

  unfoldable update_endpoints : Endpoints → Endpoints → Sync Unit
  unfolding add_endpoints
  update_endpoints old_endpoints new_endpoints =
      if old_endpoints.meta.resource_version == new_endpoints.meta.resource_version
      then pure tt
      else if not (same_subsets old_endpoints.subsets new_endpoints.subsets)
      then add_endpoints new_endpoints
      else pure tt

  unfoldable delete_endpoints : Notice Endpoints → Sync Unit
  unfolding add_endpoints
  delete_endpoints (object ep) = add_endpoints ep
  delete_endpoints (tombstone _ (some ep)) = add_endpoints ep
  delete_endpoints (tombstone _ none) = pure tt
  delete_endpoints unknown = pure tt

  -- The handler that New registers. The type assertions of addEndpoints and updateEndpoints panic at
  -- a value of another type.
  unfoldable pub on_endpoints : Change Endpoints → Sync Unit
  unfolding update_endpoints delete_endpoints
  on_endpoints (added (object ep)) = add_endpoints ep
  on_endpoints (added _) = panics
  on_endpoints (updated (object old) (object new)) = update_endpoints old new
  on_endpoints (updated _ _) = panics
  on_endpoints (deleted obj) = delete_endpoints obj
