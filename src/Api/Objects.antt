-- ===== src/Api/Objects.antt =====
-- The fields of the Kubernetes objects (k8s.io/api) that the controllers read, write or compare.
use memcached_operator.Prelude.{String, Option, List, Dict, ℤ}
use memcached_operator.Api.Meta.{ObjectMeta}
use memcached_operator.Api.Rules.{IntOrString}
use memcached_operator.Api.Proxy.{SecurityContext}

pub record ConfigMap : Type 0 where
  pub meta : ObjectMeta
  pub values : Dict String

pub record ServicePort : Type 0 where
  pub name : String
  pub protocol : String
  pub port : ℤ
  pub target_port : IntOrString

pub record Service : Type 0 where
  pub meta : ObjectMeta
  pub selector : Dict String
  pub type : String
  pub ports : List ServicePort

pub record EndpointPort : Type 0 where
  pub name : String
  pub port : ℤ
  pub protocol : String

pub record ObjectReference : Type 0 where
  pub kind : String
  pub namespace : String
  pub name : String
  pub uid : String
  pub api_version : String
  pub resource_version : String
  pub field_path : String

pub record EndpointAddress : Type 0 where
  pub ip : String
  pub hostname : String
  pub node_name : Option String
  pub target_ref : Option ObjectReference

pub record EndpointSubset : Type 0 where
  pub addresses : List EndpointAddress
  pub not_ready_addresses : List EndpointAddress
  pub ports : List EndpointPort

pub record Endpoints : Type 0 where
  pub meta : ObjectMeta
  pub subsets : List EndpointSubset

-- A volume's source: a ConfigMap by its name, or an empty directory.
pub data VolumeSource : Type 0 where
  config_map : String → VolumeSource
  empty_dir : VolumeSource
  other_source : VolumeSource

pub record Volume : Type 0 where
  pub name : String
  pub source : VolumeSource

pub record VolumeMount : Type 0 where
  pub name : String
  pub mount_path : String

pub record ContainerPort : Type 0 where
  pub name : String
  pub container_port : ℤ

pub record Container : Type 0 where
  pub name : String
  pub image : String
  pub command : List String
  pub args : List String
  pub ports : List ContainerPort
  pub volume_mounts : List VolumeMount
  pub security_context : Option SecurityContext

pub record PodTemplateSpec : Type 0 where
  pub labels : Dict String
  pub containers : List Container
  pub volumes : List Volume

pub record Deployment : Type 0 where
  pub meta : ObjectMeta
  pub replicas : Option ℤ
  pub selector : Dict String
  pub template : PodTemplateSpec

pub record ReplicaSet : Type 0 where
  pub meta : ObjectMeta
  pub template : PodTemplateSpec
