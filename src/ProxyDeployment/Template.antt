-- ===== src/ProxyDeployment/Template.antt =====
-- The Deployment that the controller creates: deploymentForProxy.
use memcached_operator.Prelude.{◌<>◌, Option, none, some, [], ◌∷◌, ℤ}
use memcached_operator.Api.Meta.{ObjectMeta, blank_meta}
use memcached_operator.Api.Proxy.{MemcachedProxy}
use memcached_operator.Api.Objects.{ConfigMap, Container, config_map, empty_dir, Deployment}
use memcached_operator.Operator.Names.{get_proxy_service_selector}
use memcached_operator.Operator.Owners.{new_proxy_owner_ref}
use memcached_operator.Operator.Lookup.{get_config_map_for_proxy}
use memcached_operator.Runtime.Effects.{errorf}
use memcached_operator.Runtime.Env.{Env, Libs}
use memcached_operator.Runtime.Sync.{Result, ok, err, panic, Sync, ◌>>=◌, pure, lift}

abbrev pub deref : {A : Type 0} → Option A → Result A
deref none = panic
deref (some a) = ok a

-- `if cm == nil { return nil, … }`
abbrev pub required : ObjectMeta → Option ConfigMap → Result ConfigMap
required p none = err (errorf "no configmap for %q" ((p.namespace <> ("/" <> p.name)) ∷ []))
required p (some cm) = ok cm

module _ (libs : Libs) where
  open libs use {print_int}

  unfoldable mcrouter_container : MemcachedProxy → ℤ → Container
  mcrouter_container p port = record {
    name = "mcrouter";
    image = p.spec.mc_router.image;
    command = "mcrouter" ∷ [];
    args =
        "-p"
        ∷ print_int port
        ∷ "--config-file=/etc/mcrouter/config.json"
        ∷ "--asynclog-disable"
        ∷ ("--stats-root=" <> p.spec.mc_router.stats_root)
        ∷ [];
    ports = record { name = "mcrouter"; container_port = port } ∷ [];
    volume_mounts =
        record { name = "config"; mount_path = "/etc/mcrouter" }
        ∷ record { name = "stats"; mount_path = p.spec.mc_router.stats_root }
        ∷ [];
    security_context = p.spec.mc_router.security_context;
  }

  -- The Deployment, given the port of the proxy and the config map.
  unfoldable pub new_deployment : MemcachedProxy → ℤ → ConfigMap → Deployment
  unfolding mcrouter_container
  new_deployment p port cm = record {
    meta = record blank_meta {
      generate_name = p.meta.name <> "-mcrouter-";
      namespace = p.meta.namespace;
      owner_references = new_proxy_owner_ref p.meta ∷ [];
    };
    replicas = some (ℤ.pos 1);
    selector = get_proxy_service_selector libs p.meta;
    template = record {
      labels = get_proxy_service_selector libs p.meta;
      containers = mcrouter_container p port ∷ [];
      volumes =
          record { name = "config"; source = config_map cm.meta.name }
          ∷ record { name = "stats"; source = empty_dir }
          ∷ [];
    };
  }

unfoldable pub deployment_for_proxy : Env → MemcachedProxy → Sync Deployment
unfolding new_deployment
deployment_for_proxy env p = do
  found ← get_config_map_for_proxy env p.meta
  cm ← lift (required p.meta found)
  port ← lift (deref p.spec.mc_router.port)
  pure (new_deployment env.libs p port cm)
