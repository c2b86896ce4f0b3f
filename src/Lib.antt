-- ===== src/Lib.antt =====
-- A model of the memcached operator: the controllers under internal/controller/, the MemcachedProxy
-- types under internal/apis/ianlewis.org/v1alpha1/, and what they share. The operator watches
-- MemcachedProxy objects and keeps a Service, a Deployment of mcrouter and ConfigMaps with the
-- configuration of mcrouter for each of them.
--
-- Parts and files:
--   Api             types.go: the types and ApplyDefaults (Rules, Proxy), the Kubernetes objects (Meta,
--                   Objects), reflect.DeepEqual (Equality), the laws of the defaults (Defaults)
--   Operator        names.go, meta.go, operator.go and internal/util/ownerref/ownerref.go
--   Worker          enqueue, enqueueOwned, the event handlers, worker and processWorkItem, which
--                   are the same in the controller.go of the four controllers
--   Proxy           proxy/controller.go: defaults and the observed generation
--   ProxyService    proxyservice/controller.go and event.go: the Service
--   ProxyDeployment proxydeployment/controller.go and event.go: the Deployment
--   ProxyConfigMap  proxyconfigmap/: Config, Routes and Pools for config.go, with a
--                   reader of the documents (Config/Reader), Affected for endpoints.go,
--                   Owners and Handler for controller.go and event.go
--   Memory          zz_generated.deepcopy.go and ApplyDefaults on a memory with addresses (Copy, Defaults), what
--                   the memory at an address stands for (Shape, Frame), and how syncHandler of the proxy
--                   controller uses them (Handler)
--   Informers       internal/client/informers/externalversions/factory.go: which informers are made and started
--   Main            main.go: flags, registered controllers and informers, the handlers of a change
--   System          what the controllers guarantee to each other: a proxy over time (Steps), the loops of
--                   two workers (Loop), rounds of a worker between changes of the cache (Turns; Rounds for
--                   the service controller, Deployments for the deployment controller), what one sync
--                   leaves to the next (Rollout), a new proxy and its Service from the first sync to
--                   the last (Convergence), the first Deployment of a proxy (Launch)
--   Runtime         what the controllers run on; Prelude: shared lemmas; Tests: runs and examples
--
-- The controllers do not call each other. They meet in the objects: the proxy controller writes
-- Status.ObservedGeneration, and the others wait until it is the generation; the config map controller
-- creates a ConfigMap that the proxy controls, the deployment controller points the Deployment to it, and
-- once a ReplicaSet uses the ConfigMap the config map controller makes that its owner.
--
-- A handler is an action (Runtime/Sync): a function of the informers' cache whose result is a value, an
-- error or a panic, with the cache afterwards and the effects in order: calls of the API, events, calls of
-- the work queue. Listers give pointers into the cache, so a write through such a pointer changes the cache,
-- which the model keeps (store_service, store_config_map, store_deployment). syncHandler is sync_handler; the
-- part that has found the proxy is sync_proxy. A function of the source has its name in snake_case.
--
-- Parameters (Runtime/Env): SHA-1 with hex encoding, strings.ToLower, fmt.Sprint of a number, json.Marshal of
-- a document, the key functions of client-go, label selectors, Semantic.DeepEqual, sort.Slice, the errors of
-- listers, and the answer of the API server to each call. Owner references follow
-- vendor/k8s.io/apimachinery/pkg/apis/meta/v1/controller_ref.go.
--
-- The handlers work on values: a struct with its pointers is a tree (Option for a pointer, RuleSpecs for a slice
-- of rules). Memory justifies this for DeepCopy and ApplyDefaults: there a struct is at an address, a slice is
-- the address of its array, and two structs may share what they point to. A copy of a proxy and its defaults
-- are then run as commands that allocate, read and write.
--
-- All functions are total. Loops over slices and the recursion over rules are structural, and the worker's
-- loop is a function of the items that the queue gives, so the only fuel is that of the copies on memory, where
-- the number of rules is enough. A map is an association list:
-- Go visits a map in any order, the model in the order of the list. Numbers of ports are integers, and a creation time is a number of nanoseconds.
--
-- Not modelled: logging, goroutines and the interleaving of workers, fields of Kubernetes objects
-- that no controller reads or writes, generated clients, DeepCopy of lists, signals and the
-- construction of clients in main.go, and the test client.
mod Prelude
pub mod Api
pub mod Runtime
pub mod Operator
pub mod Worker
pub mod Proxy
pub mod ProxyService
pub mod ProxyDeployment
pub mod ProxyConfigMap
pub mod Main
pub mod Informers
pub mod Memory
pub mod System
mod Tests
