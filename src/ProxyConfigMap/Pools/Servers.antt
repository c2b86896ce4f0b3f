-- ===== src/ProxyConfigMap/Pools/Servers.antt =====
-- Which port of a service and which servers a pool has.
use memcached_operator.Prelude.{
  String, ◌<>◌, eq_iff, int_eq_iff, ◌&&◌, ◌≡◌, ◌↔◌, ◌⊎◌, refl, inl, inr, true, false, Bool, Option,
  none, some, List, [], ◌∷◌, map, if◌then◌else◌, Bool-cases, All, Any, Any-append, Any-append_left,
  Any-append_right, Any-map, map-Any,
}
use memcached_operator.Api.Rules.{IntOrString, int, str, ServiceSpec}
use memcached_operator.Api.Objects.{
  Service, Endpoints, ServicePort, EndpointPort, EndpointAddress, EndpointSubset,
}
use memcached_operator.Runtime.Effects.{Error, errorf}
use memcached_operator.Runtime.Env.{Env}
use memcached_operator.Runtime.Sync.{Cache, pure, fail}
use memcached_operator.Runtime.Listers.{get_service, get_endpoints}
use memcached_operator.ProxyConfigMap.Config.{Pool}
use memcached_operator.ProxyConfigMap.Routes.{port_string}
use memcached_operator.ProxyConfigMap.Pools.{
  is_port, service_port, port_matches, server, servers_of_subset, servers_of, pool_for_service,
}

-- A TCP port with the number or the name of the target port.
abbrev IsTarget : IntOrString → EndpointPort → Type 0
IsTarget (int n) e = (e.protocol ≡ "TCP") × (e.port ≡ n)
IsTarget (str t) e = (e.protocol ≡ "TCP") × (e.name ≡ t)

and_iff : {P Q : Type 0} (a b : Bool) → (a ≡ true) ↔ P → (b ≡ true) ↔ Q → (a && b ≡ true) ↔ (P × Q)
and_iff true b h h' = (λ e. (h.0 refl, h'.0 e), λ (p, q). h'.1 q)
and_iff false b h h' = (λ e. cc, λ (p, q). cc (h.1 p))

port_matches_iff :
    (target : IntOrString) (e : EndpointPort) → (port_matches e target ≡ true) ↔ IsTarget target e
unfolding port_matches
port_matches_iff (int n) e = and_iff _ _ (eq_iff e.protocol "TCP") (int_eq_iff e.port n)
port_matches_iff (str t) e = and_iff _ _ (eq_iff e.protocol "TCP") (eq_iff e.name t)

module _ (env : Env) (target : IntOrString) (x : String) where
  -- An endpoint port serves an address of its subset under the text `x`.
  abbrev Serves : List EndpointAddress → EndpointPort → Type 0
  Serves addresses eport =
      IsTarget target eport
      × Any (λ (a : EndpointAddress). a.ip <> (":" <> env.print_int eport.port) ≡ x) addresses

  abbrev Listed : List String → Type 0
  Listed ys = Any (λ y. y ≡ x) ys

  servers_of_subset_sound :
      (addresses : List EndpointAddress) (eports : List EndpointPort)
      → Listed (servers_of_subset env target addresses eports)
      → Any (Serves addresses) eports
  unfolding servers_of_subset
  servers_of_subset_sound addresses [] h = absurd h
  servers_of_subset_sound addresses (e ∷ es) h = elim (Bool-cases (port_matches e target)) [
    | inl m ↦ elim (Any-append (λ y. y ≡ x) (map (server env e) addresses) _ (rw m at h)) [
      | inl here ↦
          inl ((port_matches_iff target e).0 m, Any-map (λ y. y ≡ x) (server env e) addresses here)
      | inr later ↦ inr (servers_of_subset_sound addresses es later)
    ]
    | inr m ↦ inr (servers_of_subset_sound addresses es (rw m at h))
  ]

  servers_of_subset_complete :
      (addresses : List EndpointAddress) (eports : List EndpointPort)
      → Any (Serves addresses) eports
      → Listed (servers_of_subset env target addresses eports)
  unfolding servers_of_subset
  servers_of_subset_complete addresses [] h = absurd h
  servers_of_subset_complete addresses (e ∷ es) (inl (m, here)) =
      rw ((port_matches_iff target e).1 m) (
        Any-append_left (λ y. y ≡ x) (map (server env e) addresses) _
          (map-Any (λ y. y ≡ x) (server env e) addresses here))
  servers_of_subset_complete addresses (e ∷ es) (inr later) =
      Any-append_right (λ y. y ≡ x)
        (if port_matches e target then map (server env e) addresses else []) _
        (servers_of_subset_complete addresses es later)

  abbrev pub SubsetServes : EndpointSubset → Type 0
  SubsetServes subset = Any (Serves subset.addresses) subset.ports

  servers_of_sound :
      (subsets : List EndpointSubset)
      → Listed (servers_of env target subsets)
      → Any SubsetServes subsets
  unfolding servers_of
  servers_of_sound [] h = absurd h
  servers_of_sound (s ∷ ss) h =
      elim (Any-append (λ y. y ≡ x) (servers_of_subset env target s.addresses s.ports) _ h) [
        | inl here ↦ inl (servers_of_subset_sound s.addresses s.ports here)
        | inr later ↦ inr (servers_of_sound ss later)
      ]

  servers_of_complete :
      (subsets : List EndpointSubset)
      → Any SubsetServes subsets
      → Listed (servers_of env target subsets)
  unfolding servers_of
  servers_of_complete [] h = absurd h
  servers_of_complete (s ∷ ss) (inl here) =
      Any-append_left (λ y. y ≡ x) (servers_of_subset env target s.addresses s.ports) _
        (servers_of_subset_complete s.addresses s.ports here)
  servers_of_complete (s ∷ ss) (inr later) =
      Any-append_right (λ y. y ≡ x) (servers_of_subset env target s.addresses s.ports) _
        (servers_of_complete ss later)

  servers_of_iff :
      (subsets : List EndpointSubset)
      → Listed (servers_of env target subsets) ↔ Any SubsetServes subsets
  servers_of_iff subsets = (servers_of_sound subsets, servers_of_complete subsets)

-- The port that a rule names, by its number or its name.
abbrev IsWanted : IntOrString → ServicePort → Type 0
IsWanted (int n) p = p.port ≡ n
IsWanted (str t) p = p.name ≡ t

is_port_iff :
    (wanted : IntOrString) (p : ServicePort) → (is_port wanted p ≡ true) ↔ IsWanted wanted p
is_port_iff (int n) p = int_eq_iff p.port n
is_port_iff (str t) p = eq_iff p.name t

module _ (wanted : IntOrString) where
  abbrev pub Unwanted : List ServicePort → Type 0
  Unwanted ps = All (λ p. ¬ IsWanted wanted p) ps

  -- No port after it is wanted.
  abbrev pub IsLastWanted : ServicePort → List ServicePort → Type 0
  IsLastWanted p [] = ⊥
  IsLastWanted p (q ∷ qs) = ((p ≡ q) × IsWanted wanted q × Unwanted qs) ⊎ IsLastWanted p qs

  not-IsWanted : (p : ServicePort) → is_port wanted p ≡ false → ¬ IsWanted wanted p
  not-IsWanted p h k = cc ((is_port_iff wanted p).1 k, h)

  service_port-from :
      (start : Option ServicePort) (ps : List ServicePort)
      → ((service_port wanted start ps ≡ start) × Unwanted ps)
        ⊎ ((p : ServicePort) × (service_port wanted start ps ≡ some p) × IsLastWanted p ps)
  unfolding service_port
  service_port-from start [] = inl (refl, tt)
  service_port-from start (q ∷ qs) = elim (Bool-cases (is_port wanted q)) [
    | inl m ↦ elim (service_port-from (some q) qs) [
      | inl (e, missed) ↦ inr (q, (rw m e), inl (refl, (is_port_iff wanted q).0 m, missed))
      | inr (p, e, last) ↦ inr (p, (rw m e), inr last)
    ]
    | inr m ↦ elim (service_port-from start qs) [
      | inl (e, missed) ↦ inl ((rw m e), (not-IsWanted q m, missed))
      | inr (p, e, last) ↦ inr (p, (rw m e), inr last)
    ]
  ]

-- The error for a port that the Service does not have.
abbrev pub no_port : Env → ServiceSpec → Error
no_port env s =
    errorf "failed to find port %q for service %q"
      (port_string env.libs s.port ∷ (s.namespace <> ("/" <> s.name)) ∷ [])

-- If the listers find the Service of a rule and the Endpoints with the name of the Service, then
-- poolForService either returns the error that the port is not found, and the Service has no port
-- with the number or the name in the rule; or it returns a pool, by the last such port, in which
-- a text is among the servers exactly if it is the IP and the port number, with a colon between
-- them, of a ready address and a TCP port of one subset, where that port has the number or the
-- name of the target port.
pub pool_for_service-cases :
    (env : Env) (s : ServiceSpec) (c : Cache) (svc : Service) (ep : Endpoints)
    → get_service env s.namespace s.name c ≡ pure svc c
    → get_endpoints env svc.meta.namespace svc.meta.name c ≡ pure ep c
    → ((pool_for_service env s c ≡ fail (no_port env s) c) × Unwanted s.port svc.ports)
      ⊎ ((p : ServicePort) × (pool : Pool) × (pool_for_service env s c ≡ pure pool c)
          × IsLastWanted s.port p svc.ports
          × ((x : String)
              → Any (λ y. y ≡ x) pool.servers ↔ Any (SubsetServes env p.target_port x) ep.subsets))
unfolding pool_for_service
pool_for_service-cases env s c svc ep found listed =
    elim (service_port-from s.port none svc.ports) [
      | inl (e, missed) ↦ inl (rw (found, e) refl, missed)
      | inr (p, e, last) ↦ inr (
        p,
        (record { servers = servers_of env p.target_port ep.subsets }),
        (rw (found, e, listed) refl),
        last,
        (λ x. servers_of_iff env p.target_port x ep.subsets),
      )
    ]
