-- ===== src/Runtime/Effects.antt =====
-- What a controller does to the world outside its memory, and the errors that it returns.
-- Logging is left out.
use memcached_operator.Prelude.{ℕ, String, List}
use memcached_operator.Api.Meta.{ObjectMeta}
use memcached_operator.Api.Proxy.{MemcachedProxy}
use memcached_operator.Api.Objects.{Service, ConfigMap, Deployment}

-- `not_found` is what errors.IsNotFound accepts. `errorf` is fmt.Errorf with a format and the texts
-- put into it, `wrapped` one that also shows the error that it was made of.
pub data Error : Type 0 where
  not_found : Error
  api_error : String → Error
  errorf : (format : String) → List String → Error
  wrapped : (format arg : String) → Error → Error

-- An item of a work queue, which holds values of any type.
pub data Item : Type 0 where
  key : String → Item
  other : Item

-- Calls of workqueue.RateLimitingInterface.
pub data QueueOp : Type 0 where
  add : Item → QueueOp
  add_rate_limited : Item → QueueOp
  add_after : Item → (seconds : ℕ) → QueueOp
  forget : Item → QueueOp
  done : Item → QueueOp

pub data EventType : Type 0 where
  normal warning : EventType

-- An argument of fmt.Sprintf.
pub data Arg : Type 0 where
  str : String → Arg
  err : Error → Arg

-- Calls that leave the process, in the order in which they are made.
pub data Effect : Type 0 where
  queue : QueueOp → Effect
  create_service : (namespace : String) → Service → Effect
  update_service : (namespace : String) → Service → Effect
  create_config_map : (namespace : String) → ConfigMap → Effect
  update_config_map : (namespace : String) → ConfigMap → Effect
  create_deployment : (namespace : String) → Deployment → Effect
  update_deployment : (namespace : String) → Deployment → Effect
  delete_deployment : (namespace name : String) → Effect
  update_proxy : (namespace : String) → MemcachedProxy → Effect
  event : ObjectMeta → EventType → (reason format : String) → List Arg → Effect

-- The verbs of the events, in lower case and in title case (strings.ToLower, strings.Title).
pub data Verb : Type 0 where
  create update : Verb

abbrev pub lower : Verb → String
lower create = "create"
lower update = "update"

abbrev pub title : Verb → String
title create = "Create"
title update = "Update"
