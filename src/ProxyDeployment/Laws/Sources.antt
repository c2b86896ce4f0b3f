-- ===== src/ProxyDeployment/Laws/Sources.antt =====
-- Deployments in which each volume named "config" has a ConfigMap source.
use memcached_operator.Prelude.{
  String, ◌==◌, eq_iff, refl, inl, inr, true, List, [], ◌∷◌, map, All, Bool-cases, All-IsProp,
}
use mathlib.Core.Bool.{Bool-set}
use memcached_operator.Api.Objects.{Deployment, Volume}
use memcached_operator.Operator.Lookup.{split_first}
use memcached_operator.Operator.Lookup.Newest.{all_found}
use memcached_operator.Runtime.Listers.{replace, named}
use memcached_operator.ProxyDeployment.Laws.Volumes.{pointed, HasSource, has_config_map}

-- Each volume named "config" of the deployment has a ConfigMap source.
abbrev pub IsSourced : Deployment → Type 0
IsSourced d = All HasSource d.template.volumes

HasSource-IsProp : (v : Volume) → IsProp (HasSource v)
HasSource-IsProp v h k = λ i e. Bool-set (has_config_map v.source) true (h e) (k e) i

pub IsSourced-IsProp : (d : Deployment) → IsProp (IsSourced d)
IsSourced-IsProp d = All-IsProp HasSource HasSource-IsProp d.template.volumes

HasSource-pointed : (name : String) (v : Volume) → HasSource (pointed name v)
HasSource-pointed name v = elim (Bool-cases (v.name == "config")) [
  | inl e ↦ rw e (λ h. refl)
  | inr e ↦ rw e (λ h. absurd (cc ((eq_iff _ _).1 h, e)))
]

-- The deployment with its volumes named "config" pointed to a config map.
abbrev pub pointed_to : String → Deployment → Deployment
pointed_to name d = record d {
  template = record d.template { volumes = map (pointed name) d.template.volumes };
}

pub map-pointed : (name : String) (vs : List Volume) → All HasSource (map (pointed name) vs)
map-pointed name [] = tt
map-pointed name (v ∷ vs) = (HasSource-pointed name v, map-pointed name vs)

pub All-replace :
    (d : Deployment) (ds : List Deployment)
    → IsSourced d
    → All IsSourced ds
    → All IsSourced (replace (λ x. x.meta) d ds)
All-replace d [] h hs = tt
All-replace d (x ∷ xs) h (h', hs) = elim (Bool-cases (named d.meta.namespace d.meta.name x.meta)) [
  | inl e ↦ rw e (h, All-replace d xs h hs)
  | inr e ↦ rw e (h', All-replace d xs h hs)
]

pub all_found-split_first :
    (ds : List Deployment) → All IsSourced ds → All IsSourced (all_found (split_first ds))
all_found-split_first [] h = tt
all_found-split_first (d ∷ ds) h = h
