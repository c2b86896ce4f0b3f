-- ===== src/ProxyConfigMap/Config.antt =====
-- The configuration of mcrouter and its JSON: the types of internal/controller/proxyconfigmap/config.go.
-- A pointer to a struct is a type of its own in the block, with a constructor for nil.
pub mod Reader
pub mod RoundTrip
use Prim.Native.Nat.{Ordering}
use Prim.Native.String.{compare}
use memcached_operator.Prelude.{String, ◌==◌, Dict, List, if◌then◌else◌, ◌∷◌, []}
use memcached_operator.Runtime.Json.{
  Json, Items, nil, cons, Members, text, null, array, object, end, member,
}

mutual
  pub data StringOrRoute : Type 0 where
    string_or_route : RoutePtr → (string_val : String) → StringOrRoute

  pub data RoutePtr : Type 0 where
    no_route : RoutePtr
    a_route : Route → RoutePtr

  pub data Route : Type 0 where
    route :
        (type : String) (default_policy : PolicyPtr) (operation_policies : PoliciesPtr)
        (children : Children)
        → Route

  pub data PolicyPtr : Type 0 where
    no_policy : PolicyPtr
    a_policy : StringOrRoute → PolicyPtr

  pub data PoliciesPtr : Type 0 where
    no_policies : PoliciesPtr
    policies : (add set delete get : PolicyPtr) → PoliciesPtr

  pub data Children : Type 0 where
    none : Children
    more : StringOrRoute → Children → Children

pub record Pool : Type 0 where
  pub servers : List String

pub record McRouterConfig : Type 0 where
  pub pools : Dict Pool
  pub route : StringOrRoute

-- A member that `omitempty` leaves out exactly where its pointer is nil.
abbrev optional_policy : String → PolicyPtr → Json → Members → Members
optional_policy name no_policy j rest = rest
optional_policy name (a_policy p) j rest = member name j rest

abbrev optional_policies : String → PoliciesPtr → Json → Members → Members
optional_policies name no_policies j rest = rest
optional_policies name (policies add set delete get) j rest = member name j rest

-- A member with an array, which `omitempty` leaves out where it is empty.
abbrev optional_items : String → Items → Members → Members
optional_items name nil rest = rest
optional_items name (cons x xs) rest = member name (array (cons x xs)) rest

mutual
  -- StringOrRoute.MarshalJSON
  pub string_or_route_json : StringOrRoute → Json
  string_or_route_json (string_or_route r string_val) =
      let object_form = route_ptr_json r in
      if string_val == "" then object_form else text string_val

  route_ptr_json : RoutePtr → Json
  route_ptr_json no_route = null
  route_ptr_json (a_route r) = route_json r

  -- The tags of Route.
  route_json : Route → Json
  route_json (route type default_policy operation_policies children) = object (
      member "type" (text type) (
        optional_policy "default_policy" default_policy (policy_json default_policy) (
          optional_policies "operation_policies" operation_policies
            (policies_json operation_policies)
            (optional_items "children" (children_json children) end))))

  policy_json : PolicyPtr → Json
  policy_json no_policy = null
  policy_json (a_policy p) = string_or_route_json p

  -- The tags of OperationPolicies.
  policies_json : PoliciesPtr → Json
  policies_json no_policies = null
  policies_json (policies add set delete get) = object (
      optional_policy "add" add (policy_json add) (
        optional_policy "set" set (policy_json set) (
          optional_policy "delete" delete (policy_json delete)
            (optional_policy "empty" get (policy_json get) end))))

  children_json : Children → Items
  children_json none = nil
  children_json (more c cs) = cons (string_or_route_json c) (children_json cs)

-- encoding/json writes a nil slice as null; Pool.Servers is never an empty slice that is not nil.
abbrev texts_json : List String → Items
texts_json [] = nil
texts_json (s ∷ ss) = cons (text s) (texts_json ss)

abbrev servers_json : List String → Json
servers_json [] = null
servers_json (s ∷ ss) = array (texts_json (s ∷ ss))

-- encoding/json writes a map in the order of its keys.
insert_by_key : String → Json → Members → Members
insert_by_key k v end = member k v end
insert_by_key k v (member j w ms) = elim (compare k j) [
  | Ordering.gt ↦ member j w (insert_by_key k v ms)
  | _ ↦ member k v (member j w ms)
]

pools_json : Dict Pool → Members
unfolding insert_by_key
pools_json [] = end
pools_json ((name, pool) ∷ pools) =
    insert_by_key name (object (member "servers" (servers_json pool.servers) end))
      (pools_json pools)

-- `omitempty` leaves out a map with no entry, and no struct.
abbrev optional_members : String → Members → Members → Members
optional_members name end rest = rest
optional_members name (member k v ms) rest = member name (object (member k v ms)) rest

-- The tags of McRouterConfig.
unfoldable pub config_json : McRouterConfig → Json
unfolding string_or_route_json pools_json
config_json c = object (
    optional_members "pools" (pools_json c.pools)
      (member "route" (string_or_route_json c.route) end))
