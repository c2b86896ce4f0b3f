-- ===== src/Tests/Data.antt =====
-- A small cluster: libraries, API servers, and the objects of one proxy.
use memcached_operator.Prelude.{
  ℕ, String, ◌<>◌, ◌==◌, Bool, true, Option, none, some, List, [], ◌∷◌, ℤ, same_map, if◌then◌else◌,
}
use memcached_operator.Api.Meta.{ObjectMeta, OwnerReference, blank_meta}
use memcached_operator.Api.Rules.{IntOrString, ServiceSpec, RuleSpec, rule, nil, cons}
use memcached_operator.Api.Proxy.{MemcachedProxy, McRouterSpec}
use memcached_operator.Api.Objects.{
  ConfigMap, Service, EndpointPort, EndpointAddress, EndpointSubset, Endpoints, config_map,
  empty_dir, PodTemplateSpec, Deployment, ReplicaSet,
}
use memcached_operator.Runtime.Effects.{Error, api_error}
use memcached_operator.Runtime.Env.{Libs, Env, Resource}
use memcached_operator.Runtime.Sync.{Cache}

-- An insertion sort that moves an element behind those that do not come after it.
abbrev pub insert_sorted : {A : Type 0} → (A → A → Bool) → A → List A → List A
insert_sorted less x [] = x ∷ []
insert_sorted less x (y ∷ ys) =
    let rest = insert_sorted less x ys in if less x y then x ∷ y ∷ ys else y ∷ rest

abbrev pub insertion_sort : {A : Type 0} → (A → A → Bool) → List A → List A
insertion_sort less [] = []
insertion_sort less (x ∷ xs) = insert_sorted less x (insertion_sort less xs)

abbrev pub libs : Libs
libs = record {
  digest = λ s. "00" <> (s <> "00000");
  to_lower = λ s. s;
  print_int = λ n. "11211";
  marshal = λ j. "{}";
  split_key = λ k. some ("default", k);
  meta_key = λ m. some (if m.namespace == "" then m.name else m.namespace <> ("/" <> m.name));
  as_selector = λ labels. some (same_map labels);
  semantic_equal = λ t u. same_map t.labels u.labels;
  sort_slice = insertion_sort;
}

-- An API server that accepts everything, and answers with what it was given.
abbrev pub env : Env
env = record {
  libs = libs;
  lister_error = λ r. none;
  on_create_service = λ s. (s, none);
  on_update_service = λ s. (s, none);
  on_create_config_map = λ m. (m, none);
  on_update_config_map = λ m. (m, none);
  on_create_deployment = λ d. (d, none);
  on_update_deployment = λ d. (d, none);
  on_delete_deployment = λ ns name. none;
  on_update_proxy = λ p. (p, none);
}

abbrev pub conflict : Error
conflict = api_error "conflict"

-- One that refuses updates of services and proxies, and the deletion of the deployment "old".
abbrev pub refusing : Env
refusing = record env {
  on_update_service = λ s. (s, some conflict);
  on_delete_deployment = λ ns name. if name == "old" then some conflict else none;
  on_update_proxy = λ p. (p, some conflict);
}

abbrev no_deployments : Resource → Option Error
no_deployments Resource.deployments = some conflict
no_deployments _ = none

-- One where deployments cannot be listed.
abbrev pub blind : Env
blind = record env { lister_error = no_deployments }

abbrev pub service_a : ServiceSpec
service_a = record { name = "a"; namespace = "default"; port = IntOrString.int (ℤ.pos 1) }

abbrev pub rules : RuleSpec
rules = rule "sharded" none (cons (rule "replicated" (some service_a) nil) nil)

abbrev blank_mc_router : McRouterSpec
blank_mc_router = record {
  image = "";
  resources = record { limits = []; requests = [] };
  port = none;
  security_context = none;
  stats_root = "";
}

abbrev pub proxy_meta : ObjectMeta
proxy_meta = record blank_meta {
  name = "p";
  namespace = "default";
  uid = "u";
  generation = ℤ.pos 1;
}

-- A proxy that was just created.
abbrev pub draft : MemcachedProxy
draft = record {
  meta = proxy_meta;
  spec = record { rules = rules; mc_router = blank_mc_router };
  status = record { observed_generation = ℤ.pos 0 };
}

-- A proxy whose generation has been observed.
abbrev pub ready : MemcachedProxy
ready = record {
  meta = proxy_meta;
  spec = record { rules = rules; mc_router = record blank_mc_router { port = some (ℤ.pos 11211) } };
  status = record { observed_generation = ℤ.pos 1 };
}

abbrev proxy_ref : OwnerReference
proxy_ref = record {
  api_version = "ianlewis.org/v1alpha1";
  kind = "MemcachedProxy";
  name = "p";
  uid = "u";
  controller = some true;
  block_owner_deletion = some true;
}

abbrev pub owned : String → ObjectMeta
owned name = record blank_meta {
  name = name;
  namespace = "default";
  owner_references = proxy_ref ∷ [];
}

abbrev pub cm : ConfigMap
cm = record { meta = owned "p-config"; values = [] }

-- A service whose selector somebody changed.
abbrev pub stray : Service
stray = record {
  meta = owned "p-memcached-p0000";
  selector = ("mcrouter", "other") ∷ [];
  type = "ClusterIP";
  ports = [];
}

abbrev pub template : PodTemplateSpec
template = record {
  labels = ("memcached-operator", "true") ∷ [];
  containers = [];
  volumes =
      record { name = "config"; source = config_map "old-config" }
      ∷ record { name = "stats"; source = empty_dir }
      ∷ [];
}

abbrev pub deployment : String → ℕ → Deployment
deployment name t = record {
  meta = record (owned name) { creation_timestamp = t };
  replicas = none;
  selector = template.labels;
  template = template;
}

abbrev pub rs : ReplicaSet
rs = record {
  meta = record blank_meta {
    name = "p-rs";
    namespace = "default";
    uid = "r";
    labels = template.labels;
  };
  template = template;
}

abbrev pub service_for_a : Service
service_for_a = record {
  meta = record blank_meta { name = "a"; namespace = "default" };
  selector = [];
  type = "ClusterIP";
  ports =
      record {
        name = "memcached";
        protocol = "TCP";
        port = ℤ.pos 1;
        target_port = IntOrString.int (ℤ.pos 2);
      }
      ∷ [];
}

abbrev endpoint_port : EndpointPort
endpoint_port = record { name = "memcached"; port = ℤ.pos 2; protocol = "TCP" }

abbrev address : String → EndpointAddress
address ip = record { ip = ip; hostname = ""; node_name = none; target_ref = none }

abbrev pub subset : EndpointSubset
subset = record {
  addresses = address "10.0.0.1" ∷ address "10.0.0.2" ∷ [];
  not_ready_addresses = address "10.0.0.3" ∷ [];
  ports = endpoint_port ∷ [];
}

abbrev pub endpoints_a : Endpoints
endpoints_a = record {
  meta = record blank_meta { name = "a"; namespace = "default" };
  subsets = subset ∷ [];
}

abbrev pub empty_cache : Cache
empty_cache = record {
  proxies = [];
  config_maps = [];
  deployments = [];
  replica_sets = [];
  services = [];
  endpoints = [];
}

-- What the controllers find before they have done anything for the proxy.
abbrev pub fresh : Cache
fresh = record empty_cache {
  proxies = ready ∷ [];
  services = service_for_a ∷ [];
  endpoints = endpoints_a ∷ [];
}
