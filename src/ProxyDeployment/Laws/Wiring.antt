-- ===== src/ProxyDeployment/Laws/Wiring.antt =====
-- How the parts of a new Deployment, and the Service beside it, fit together.
use memcached_operator.Prelude.{◌==◌, eq_refl, ◌≡◌, refl, true, List, [], ◌∷◌, map, All, ℤ, exists}
use memcached_operator.Api.Meta.{is_controlled_by}
use memcached_operator.Api.Rules.{IntOrString}
use memcached_operator.Api.Proxy.{MemcachedProxy}
use memcached_operator.Api.Objects.{
  ConfigMap, ContainerPort, ServicePort, Service, Volume, VolumeMount, Deployment,
}
use memcached_operator.Operator.Owners.{new_proxy_owner_ref}
use memcached_operator.Runtime.Env.{Env}
use memcached_operator.ProxyDeployment.Template.{new_deployment}
use memcached_operator.ProxyConfigMap.Owners.{is_latest}
use memcached_operator.ProxyService.{new_service}

-- A mount finds its volume by name.
abbrev Mounted : List Volume → VolumeMount → Type 0
Mounted vs m = exists (λ v. v.name == m.name) vs ≡ true

-- What Kubernetes needs to route clients to the pods of the deployment, and to roll out a config map.
pub record IsWired (p : MemcachedProxy) (cm : ConfigMap) (d : Deployment) (s : Service)
    : Type 0 where
  -- the selector of the deployment accepts its own pods
  pub selects : d.selector ≡ d.template.labels
  -- so does the selector of the service
  pub routes : s.selector ≡ d.template.labels
  -- the service forwards to a port that a container opens
  pub forwards :
      map (λ (x : ServicePort). x.target_port) s.ports
      ≡ map
          (λ (x : ContainerPort). IntOrString.int x.container_port)
          (elim d.template.containers [ [] ↦ [] | c ∷ cs ↦ c.ports ])
  -- both belong to the proxy
  pub owned : is_controlled_by d.meta p.meta ≡ true
  pub service_owned : is_controlled_by s.meta p.meta ≡ true
  -- the deployment refers to the config map, and each mount to a volume
  pub latest : is_latest d cm ≡ true
  pub mounts : All (λ c. All (Mounted d.template.volumes) c.volume_mounts) d.template.containers

-- The Deployment and the Service that are created for a proxy with the same port fit together:
-- the selectors of both accept the labels of the pods, the Service forwards to a port that the
-- container opens, both are controlled by the proxy, the Deployment refers to the config map that
-- it was made for, and each mount of its container has a volume.
pub new_deployment-IsWired :
    (env : Env) (p : MemcachedProxy) (port : ℤ) (cm : ConfigMap)
    → IsWired p cm (new_deployment env.libs p port cm) (new_service env p.meta.namespace p port)
unfolding new_deployment new_service is_controlled_by new_proxy_owner_ref is_latest
new_deployment-IsWired env p port cm = record {
  selects = refl;
  routes = refl;
  forwards = refl;
  owned = eq_refl p.meta.uid;
  service_owned = eq_refl p.meta.uid;
  latest = rw (eq_refl cm.meta.name);
  mounts = ((refl, (refl, tt)), tt);
}
