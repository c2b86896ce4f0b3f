-- ===== src/ProxyConfigMap/Config/Reader.antt =====
-- A reader of configuration documents, as mcrouter takes them: a member has the name that mcrouter
-- documents for it, members may stand in any order, and an unknown one is passed over.
use memcached_operator.Prelude.{String, ◌==◌, Dict, List, if◌then◌else◌, ◌∷◌, []}
use memcached_operator.Runtime.Json.{
  Json, Items, nil, cons, Members, text, null, array, object, end, member,
}
use memcached_operator.ProxyConfigMap.Config.{
  StringOrRoute, string_or_route, no_route, a_route, Route, route, PolicyPtr, no_policy, a_policy,
  PoliciesPtr, no_policies, policies, Children, more, Pool, McRouterConfig,
}

abbrev pub text_of : Json → String
text_of (text t) = t
text_of _ = ""

abbrev pub texts_of : Items → List String
texts_of nil = []
texts_of (cons j js) = text_of j ∷ texts_of js

abbrev pub set_policy : String → PolicyPtr → PoliciesPtr → PoliciesPtr
set_policy name p no_policies = no_policies
set_policy name p (policies add set delete get) =
    policies (if name == "add" then p else add) (if name == "set" then p else set)
      (if name == "delete" then p else delete) (if name == "get" then p else get)

abbrev pub set_field : String → String → PolicyPtr → PoliciesPtr → Children → Route → Route
set_field name t p ps cs (route type default_policy operation_policies children) =
    route (if name == "type" then t else type)
      (if name == "default_policy" then p else default_policy)
      (if name == "operation_policies" then ps else operation_policies)
      (if name == "children" then cs else children)

unfoldable mutual
  pub read_string_or_route : Json → StringOrRoute
  read_string_or_route (text t) = string_or_route no_route t
  read_string_or_route null = string_or_route no_route ""
  read_string_or_route (array js) = string_or_route no_route ""
  read_string_or_route (object ms) = string_or_route (a_route (read_route ms)) ""

  pub read_policy : Json → PolicyPtr
  read_policy (text t) = a_policy (string_or_route no_route t)
  read_policy null = no_policy
  read_policy (array js) = no_policy
  read_policy (object ms) = a_policy (string_or_route (a_route (read_route ms)) "")

  pub read_policies : Json → PoliciesPtr
  read_policies (text t) = no_policies
  read_policies null = no_policies
  read_policies (array js) = no_policies
  read_policies (object ms) = read_operations ms

  pub read_operations : Members → PoliciesPtr
  read_operations end = policies no_policy no_policy no_policy no_policy
  read_operations (member name j ms) = set_policy name (read_policy j) (read_operations ms)

  pub read_children : Json → Children
  read_children (text t) = Children.none
  read_children null = Children.none
  read_children (array js) = read_items js
  read_children (object ms) = Children.none

  pub read_items : Items → Children
  read_items nil = Children.none
  read_items (cons j js) = more (read_string_or_route j) (read_items js)

  pub read_route : Members → Route
  read_route end = route "" no_policy no_policies Children.none
  read_route (member name j ms) =
      set_field name (text_of j) (read_policy j) (read_policies j) (read_children j) (read_route ms)

abbrev pub set_servers : String → Json → List String → List String
set_servers name (array js) servers = if name == "servers" then texts_of js else servers
set_servers name _ servers = servers

abbrev pub servers_of_members : Members → List String
servers_of_members end = []
servers_of_members (member name j ms) = set_servers name j (servers_of_members ms)

abbrev pub read_pool : Json → Pool
read_pool (object ms) = record { servers = servers_of_members ms }
read_pool _ = record { servers = [] }

unfoldable pub read_pools : Members → Dict Pool
read_pools end = []
read_pools (member name j ms) = (name, read_pool j) ∷ read_pools ms

abbrev pub pools_of : Json → Dict Pool
pools_of (object ms) = read_pools ms
pools_of _ = []

unfoldable pub read_members : Members → McRouterConfig
read_members end = record { pools = []; route = string_or_route no_route "" }
read_members (member name j ms) =
    let rest = read_members ms in
    record {
      pools = if name == "pools" then pools_of j else rest.pools;
      route = if name == "route" then read_string_or_route j else rest.route;
    }

unfoldable pub read_config : Json → McRouterConfig
read_config (object ms) = read_members ms
read_config _ = record { pools = []; route = string_or_route no_route "" }
