-- ===== src/Runtime/Env.antt =====
-- What is not under the program's control: its libraries, and how the API server answers.
use memcached_operator.Prelude.{String, Bool, Option, List, Dict, ℤ}
use memcached_operator.Api.Meta.{ObjectMeta}
use memcached_operator.Api.Proxy.{MemcachedProxy}
use memcached_operator.Api.Objects.{Service, ConfigMap, Deployment, PodTemplateSpec}
use memcached_operator.Runtime.Json.{Json}
use memcached_operator.Runtime.Effects.{Error}

pub record Libs : Type 0 where
  -- hex.EncodeToString of the SHA-1 sum
  pub digest : String → String
  -- strings.ToLower
  pub to_lower : String → String
  -- fmt.Sprint of an integer, strconv.Itoa
  pub print_int : ℤ → String
  -- json.Marshal of a document, without its error, which no document of these types gives
  pub marshal : Json → String
  -- cache.SplitMetaNamespaceKey
  pub split_key : String → Option (String × String)
  -- cache.MetaNamespaceKeyFunc
  pub meta_key : ObjectMeta → Option String
  -- metav1.LabelSelectorAsSelector, with labels.Selector as a test of labels
  pub as_selector : Dict String → Option (Dict String → Bool)
  -- apiequality.Semantic.DeepEqual
  pub semantic_equal : PodTemplateSpec → PodTemplateSpec → Bool
  -- sort.Slice, given the test that its `less` makes of two elements
  pub sort_slice : (Deployment → Deployment → Bool) → List Deployment → List Deployment

-- The informers of the operator.
pub data Resource : Type 0 where
  proxies config_maps deployments replica_sets services endpoints : Resource

-- A call of the API returns an object and perhaps an error.
abbrev pub Answer : Type 0 → Type 0
Answer A = A × Option Error

pub record Env : Type 0 where
  pub libs : Libs
  pub open libs use *
  -- An error of the lister of a resource, other than "not found".
  pub lister_error : Resource → Option Error
  pub on_create_service : Service → Answer Service
  pub on_update_service : Service → Answer Service
  pub on_create_config_map : ConfigMap → Answer ConfigMap
  pub on_update_config_map : ConfigMap → Answer ConfigMap
  pub on_create_deployment : Deployment → Answer Deployment
  pub on_update_deployment : Deployment → Answer Deployment
  pub on_delete_deployment : (namespace name : String) → Option Error
  pub on_update_proxy : MemcachedProxy → Answer MemcachedProxy
