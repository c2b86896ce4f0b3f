-- ===== src/ProxyConfigMap/Config/RoundTrip.antt =====
-- A reader of the written configuration finds the route and the pools that were written.
use Prim.Native.Nat.{Ordering}
use Prim.Native.String.{compare}
use package.text.Mathlib.TextPositions.{compare_refl}
use memcached_operator.Prelude.{
  String, ◌==◌, eq_iff, ◌≡◌, ◌≢◌, ◌∙◌, refl, ap, Dict, List, lookup, if◌then◌else◌, ◌∷◌, [], Option,
  some, Bool-cases, false, ◌⊎◌, inl, inr, arith,
}
use memcached_operator.Runtime.Json.{Json, Items, nil, cons, Members, text, object, end, member}
use memcached_operator.ProxyConfigMap.Config.{
  StringOrRoute, string_or_route, no_route, a_route, Route, route, PolicyPtr, no_policy, a_policy,
  PoliciesPtr, no_policies, policies, Children, more, Pool, McRouterConfig, optional_policy,
  optional_policies, optional_items, string_or_route_json, route_json, policy_json, policies_json,
  children_json, pools_json, insert_by_key, texts_json, servers_json, optional_members, config_json,
}
use memcached_operator.ProxyConfigMap.Config.Reader.{
  read_string_or_route, read_policy, read_policies, read_operations, read_items, read_route,
  read_pools, read_members, read_config, read_pool, texts_of,
}

-- A StringOrRoute has a text that is not empty or a route, and not both, and no policy for "get".
unfoldable mutual
  pub IsProper : StringOrRoute → Type 0
  IsProper (string_or_route no_route s) = s ≢ ""
  IsProper (string_or_route (a_route r) s) = (s ≡ "") × IsProperRoute r

  pub IsProperRoute : Route → Type 0
  IsProperRoute (route type default_policy operation_policies children) =
      IsProperPolicy default_policy × ArePolicies operation_policies × AreProper children

  pub IsProperPolicy : PolicyPtr → Type 0
  IsProperPolicy no_policy = Unit
  IsProperPolicy (a_policy p) = IsProper p

  pub ArePolicies : PoliciesPtr → Type 0
  ArePolicies no_policies = Unit
  ArePolicies (policies add set delete get) =
      IsProperPolicy add × IsProperPolicy set × IsProperPolicy delete × (get ≡ no_policy)

  pub AreProper : Children → Type 0
  AreProper Children.none = Unit
  AreProper (more c cs) = IsProper c × AreProper cs

-- What the members of a struct are read as, from the last to the first.
children_read :
    (js : Items)
    → read_route (optional_items "children" js end) ≡ route "" no_policy no_policies (read_items js)
unfolding read_route read_items
children_read nil = refl
children_read (cons j js) = refl

policies_read :
    (p : PoliciesPtr) (ms : Members) (cs : Children)
    → read_route ms ≡ route "" no_policy no_policies cs
    → read_route (optional_policies "operation_policies" p (policies_json p) ms)
      ≡ route "" no_policy (read_policies (policies_json p)) cs
unfolding read_route string_or_route_json
policies_read no_policies ms cs e = e
policies_read (policies add set delete get) ms cs e = rw e refl

default_read :
    (p : PolicyPtr) (ms : Members) (ps : PoliciesPtr) (cs : Children)
    → read_route ms ≡ route "" no_policy ps cs
    → read_route (optional_policy "default_policy" p (policy_json p) ms)
      ≡ route "" (read_policy (policy_json p)) ps cs
unfolding read_route string_or_route_json
default_read no_policy ms ps cs e = e
default_read (a_policy p) ms ps cs e = rw e refl

delete_read :
    (p : PolicyPtr)
    → read_operations (optional_policy "delete" p (policy_json p) end)
      ≡ policies no_policy no_policy (read_policy (policy_json p)) no_policy
unfolding read_operations string_or_route_json
delete_read no_policy = refl
delete_read (a_policy p) = refl

set_read :
    (p : PolicyPtr) (ms : Members) (delete : PolicyPtr)
    → read_operations ms ≡ policies no_policy no_policy delete no_policy
    → read_operations (optional_policy "set" p (policy_json p) ms)
      ≡ policies no_policy (read_policy (policy_json p)) delete no_policy
unfolding read_operations string_or_route_json
set_read no_policy ms d e = e
set_read (a_policy p) ms d e = rw e refl

add_read :
    (p : PolicyPtr) (ms : Members) (set delete : PolicyPtr)
    → read_operations ms ≡ policies no_policy set delete no_policy
    → read_operations (optional_policy "add" p (policy_json p) ms)
      ≡ policies (read_policy (policy_json p)) set delete no_policy
unfolding read_operations string_or_route_json
add_read no_policy ms s d e = e
add_read (a_policy p) ms s d e = rw e refl

-- The tag of Get is "empty": a reader finds no policy for "get".
get_read :
    (p : PolicyPtr)
    → read_operations (optional_policy "empty" p (policy_json p) end)
      ≡ policies no_policy no_policy no_policy no_policy
unfolding read_operations string_or_route_json
get_read no_policy = refl
get_read (a_policy p) = refl

read-policies_json-get :
    (get : PolicyPtr)
    → read_policies (policies_json (policies no_policy no_policy no_policy get))
      ≡ policies no_policy no_policy no_policy no_policy
unfolding string_or_route_json read_string_or_route
read-policies_json-get get = get_read get

not_empty : (s : String) → s ≢ "" → (s == "") ≡ false
not_empty s h = elim (Bool-cases (s == "")) [ inl e ↦ absurd (h ((eq_iff s "").0 e)) | inr e ↦ e ]

mutual
  unfolding IsProper string_or_route_json read_string_or_route

  read-string_or_route_json :
      (r : StringOrRoute) → IsProper r → read_string_or_route (string_or_route_json r) ≡ r
  read-string_or_route_json (string_or_route no_route s) h = rw (not_empty s h) refl
  read-string_or_route_json (string_or_route (a_route r) s) (e, h) =
      let (ms, written, same) = read-route_json r h in
      rw (e, written) (ap (λ q. string_or_route (a_route q) "") same)

  read-policy_json : (p : PolicyPtr) → IsProperPolicy p → read_policy (policy_json p) ≡ p
  read-policy_json no_policy h = refl
  read-policy_json (a_policy (string_or_route no_route s)) h = rw (not_empty s h) refl
  read-policy_json (a_policy (string_or_route (a_route r) s)) (e, h) =
      let (ms, written, same) = read-route_json r h in
      rw (e, written) (ap (λ q. a_policy (string_or_route (a_route q) "")) same)

  read-route_json :
      (r : Route)
      → IsProperRoute r
      → (ms : Members) × (route_json r ≡ object ms) × (read_route ms ≡ r)
  read-route_json (route type p ps cs) (h, h', h'') =
      let m3 = optional_items "children" (children_json cs) end in
      let m2 = optional_policies "operation_policies" ps (policies_json ps) m3 in
      let m1 = optional_policy "default_policy" p (policy_json p) m2 in
      let e3 : read_route m3 ≡ route "" no_policy no_policies cs =
        children_read (children_json cs)
        ∙ ap (route "" no_policy no_policies) (read-children_json cs h'') in
      let e2 : read_route m2 ≡ route "" no_policy ps cs =
        policies_read ps m3 cs e3 ∙ ap (λ q. route "" no_policy q cs) (read-policies_json ps h') in
      let e1 : read_route m1 ≡ route "" p ps cs =
        default_read p m2 ps cs e2 ∙ ap (λ q. route "" q ps cs) (read-policy_json p h) in
      (member "type" (text type) m1, refl, rw e1 refl)

  read-policies_json : (p : PoliciesPtr) → ArePolicies p → read_policies (policies_json p) ≡ p
  read-policies_json no_policies h = refl
  read-policies_json (policies add set delete get) (a, s, d, g) =
      let m3 = optional_policy "delete" delete (policy_json delete) end in
      let m2 = optional_policy "set" set (policy_json set) m3 in
      let m1 = optional_policy "add" add (policy_json add) m2 in
      let e3 : read_operations m3 ≡ policies no_policy no_policy delete no_policy =
        delete_read delete
        ∙ ap (λ q. policies no_policy no_policy q no_policy) (read-policy_json delete d) in
      let e2 : read_operations m2 ≡ policies no_policy set delete no_policy =
        set_read set m3 delete e3
        ∙ ap (λ q. policies no_policy q delete no_policy) (read-policy_json set s) in
      let e1 : read_operations m1 ≡ policies add set delete no_policy =
        add_read add m2 set delete e2
        ∙ ap (λ q. policies q set delete no_policy) (read-policy_json add a) in
      rw g e1

  read-children_json : (cs : Children) → AreProper cs → read_items (children_json cs) ≡ cs
  read-children_json Children.none h = refl
  read-children_json (more c cs) (h, h') =
      rw (read-string_or_route_json c h, read-children_json cs h') refl

-- A text that is not after itself.
same_key : (j k : String) → compare j k ≡ Ordering.gt → j ≡ k → ⊥
same_key j k h e = cc (h, compare_refl k, e)

-- Pools.
read-texts_json : (ss : List String) → texts_of (texts_json ss) ≡ ss
read-texts_json [] = refl
read-texts_json (s ∷ ss) = ap (λ q. s ∷ q) (read-texts_json ss)

read_texts :
    (ss : List String)
    → ◌≡◌ {A = Pool}
        (read_pool (object (member "servers" (servers_json ss) end)))
        (record { servers = ss })
read_texts [] = refl
read_texts (s ∷ ss) = ap (λ (q : List String). record { servers = q }) (read-texts_json (s ∷ ss))

read-servers_json :
    (p : Pool) → read_pool (object (member "servers" (servers_json p.servers) end)) ≡ p
read-servers_json p = read_texts p.servers

Ordering-cases : (o : Ordering) → (o ≡ Ordering.lt) ⊎ ((o ≡ Ordering.eq) ⊎ (o ≡ Ordering.gt))
Ordering-cases Ordering.lt = inl refl
Ordering-cases Ordering.eq = inr (inl refl)
Ordering-cases Ordering.gt = inr (inr refl)

-- Tests for two keys that differ, in any order.
swap_tests :
    (name k k' : String) (a b c : Option Pool)
    → k ≢ k'
    → (if k' == name then b else if k == name then a else c)
      ≡ (if k == name then a else if k' == name then b else c)
swap_tests name k k' a b c ne = ground (arith, eq_iff k name, eq_iff k' name, ne)

lookup-insert_by_key :
    (name k : String) (j : Json) (ms : Members)
    → lookup name (read_pools (insert_by_key k j ms))
      ≡ (if k == name then some (read_pool j) else lookup name (read_pools ms))
unfolding insert_by_key read_pools lookup
lookup-insert_by_key name k j end = refl
lookup-insert_by_key name k j (member k' j' ms) = elim (Ordering-cases (compare k k')) [
  | inl e ↦ rw (e, insert_by_key) refl
  | inr (inl e) ↦ rw (e, insert_by_key) refl
  | inr (inr e) ↦
      rw (e, insert_by_key, lookup-insert_by_key name k j ms)
        (swap_tests name k k' (some (read_pool j)) (some (read_pool j'))
          (lookup name (read_pools ms)) (same_key k k' e))
]

lookup-pools_json :
    (name : String) (pools : Dict Pool)
    → lookup name (read_pools (pools_json pools)) ≡ lookup name pools
unfolding pools_json read_pools lookup
lookup-pools_json name [] = refl
lookup-pools_json name ((k, pool) ∷ pools) =
    let j = object (member "servers" (servers_json pool.servers) end) in
    rw
      (
        lookup-insert_by_key name k j (pools_json pools),
        lookup-pools_json name pools,
        read-servers_json pool,
      )
      refl

config_read :
    (ms : Members) (j : Json)
    → ◌≡◌ {A = McRouterConfig}
        (read_members (optional_members "pools" ms (member "route" j end)))
        (record { pools = read_pools ms; route = read_string_or_route j })
unfolding read_members read_pools
config_read end j = refl
config_read (member name j' ms) j = refl

-- If the route of a configuration has in each place either a text that is not empty or a nested route,
-- and no policy for "get", then a reader of its document finds the route, and under every name the
-- same pool as in the configuration.
pub read_config-config_json :
    (c : McRouterConfig) (name : String)
    → IsProper c.route
    → ((read_config (config_json c)).route ≡ c.route)
      × (lookup name (read_config (config_json c)).pools ≡ lookup name c.pools)
unfolding read_config config_json
read_config-config_json c name h =
    let e = config_read (pools_json c.pools) (string_or_route_json c.route) in
    (
      ap (λ (q : McRouterConfig). q.route) e ∙ read-string_or_route_json c.route h,
      ap (λ (q : McRouterConfig). lookup name q.pools) e ∙ lookup-pools_json name c.pools,
    )
