-- ===== src/ProxyDeployment/Laws/Volumes.antt =====
-- The loop over the volumes of a deployment.
use memcached_operator.Prelude.{
  String, ◌==◌, eq_iff, eq_refl, ◌≡◌, refl, Bool, true, false, inl, inr, List, [], ◌∷◌, ◌++◌, map,
  All, Any, Bool-cases, if◌then◌else◌, exists, or-true,
}
use memcached_operator.Api.Objects.{
  ConfigMap, Volume, VolumeSource, config_map, empty_dir, other_source, Deployment,
}
use memcached_operator.Runtime.Sync.{ok, panic}
use memcached_operator.ProxyDeployment.{
  set_config_source, set_config_volume, map_result, set_config_volumes,
}
use memcached_operator.ProxyConfigMap.Owners.{is_latest, source_is}

-- The volume that refers to a config map, if it is the volume "config".
abbrev pub pointed : String → Volume → Volume
pointed name v = if v.name == "config" then record v { source = config_map name } else v

-- The ConfigMap pointer of a source is not nil.
abbrev pub has_config_map : VolumeSource → Bool
has_config_map (config_map _) = true
has_config_map empty_dir = false
has_config_map other_source = false

abbrev pub HasSource : Volume → Type 0
HasSource v = v.name ≡ "config" → has_config_map v.source ≡ true

set_config_source_lem :
    (name : String) (source : VolumeSource)
    → has_config_map source ≡ true
    → set_config_source name source ≡ ok (config_map name)
unfolding set_config_source
set_config_source_lem name (config_map n) h = refl
set_config_source_lem name empty_dir h = cc
set_config_source_lem name other_source h = cc

set_config_volume_lem :
    (name : String) (v : Volume) → HasSource v → set_config_volume name v ≡ ok (pointed name v)
unfolding set_config_volume
set_config_volume_lem name v h = elim (Bool-cases (v.name == "config")) [
  | inl e ↦ rw (e, set_config_source_lem name v.source (h ((eq_iff _ _).0 e)))
  | inr e ↦ rw e
]

-- If each volume named "config" has a ConfigMap source, the loop of updateDeployment over the
-- volumes ends well: exactly the volumes named "config" refer to the given config map, and the
-- others are as they were.
pub set_config_volumes_lem :
    (name : String) (vs : List Volume)
    → All HasSource vs
    → set_config_volumes name vs ≡ (ok tt, map (pointed name) vs)
unfolding set_config_volumes
set_config_volumes_lem name [] h = refl
set_config_volumes_lem name (v ∷ vs) h =
    rw (set_config_volume_lem name v h.0, set_config_volumes_lem name vs h.1)

set_config_volume-panic :
    (name : String) (v : Volume)
    → v.name ≡ "config"
    → has_config_map v.source ≡ false
    → set_config_volume name v ≡ panic
unfolding set_config_volume
set_config_volume-panic name v e h = rw ((eq_iff _ _).1 e) (no_source v.source h)
  where
    no_source :
        (source : VolumeSource)
        → has_config_map source ≡ false
        → map_result (λ x. record v { source = x }) (set_config_source name source) ≡ panic
    no_source (config_map n) h' = cc
    no_source empty_dir h' = refl
    no_source other_source h' = refl

-- At the first volume named "config" that has no ConfigMap source the loop panics; the volumes
-- before it are written by then, and those after it are as they were.
pub set_config_volumes-panic :
    (name : String) (xs : List Volume) (v : Volume) (ys : List Volume)
    → All HasSource xs
    → v.name ≡ "config"
    → has_config_map v.source ≡ false
    → set_config_volumes name (xs ++ v ∷ ys) ≡ (panic, map (pointed name) xs ++ v ∷ ys)
unfolding set_config_volumes
set_config_volumes-panic name [] v ys hs e h = rw (set_config_volume-panic name v e h)
set_config_volumes-panic name (x ∷ xs) v ys (first, hs) e h =
    rw (set_config_volume_lem name x first, set_config_volumes-panic name xs v ys hs e h)

-- A deployment with a volume named "config" refers to a config map, in the sense of the test in
-- reuseConfigMap, after its config volumes were pointed to it.
pub is_latest-pointed :
    (d : Deployment) (cm : ConfigMap)
    → Any (λ v. v.name ≡ "config") d.template.volumes
    → is_latest
        (record d {
          template = record d.template { volumes = map (pointed cm.meta.name) d.template.volumes };
        })
        cm
      ≡ true
unfolding is_latest
is_latest-pointed d cm h = points d.template.volumes h
  where
    points :
        (vs : List Volume)
        → Any (λ v. v.name ≡ "config") vs
        → exists (λ v. source_is cm.meta.name v.source) (map (pointed cm.meta.name) vs) ≡ true
    points [] k = absurd k
    points (v ∷ vs) (inl e) = rw ((eq_iff _ _).1 e, eq_refl cm.meta.name)
    points (v ∷ vs) (inr k) =
        rw (points vs k, or-true (source_is cm.meta.name (pointed cm.meta.name v).source))
