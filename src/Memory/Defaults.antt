-- ===== src/Memory/Defaults.antt =====
-- ApplyDefaults of RuleSpec and ServiceSpec on memory (internal/apis/ianlewis.org/v1alpha1/types.go).
pub mod Laws
pub mod Trees
use memcached_operator.Prelude.{ℕ, zero, suc, ◌==◌, String, Option, none, some, if◌then◌else◌}
use memcached_operator.Api.Rules.{default_service, sharded_rule_type}
use memcached_operator.Api.Proxy.{
  default_image, default_port, default_security_context, default_stats_root,
}
use memcached_operator.Memory.{
  load_head, load_router, Cell, router_cell, port_cell, context_cell, Ptr, Slice, Cmd, rule_cell,
  service_cell, pure, ◌>>=◌, ◌>>◌, load_rule, load_service, store, alloc,
}

-- `if r.Service != nil { r.Service.ApplyDefaults(p) }`
unfoldable pub default_service_at : String → Option Ptr → Cmd (Unit {0})
default_service_at ns none = pure tt
default_service_at ns (some p) = do
  s ← load_service p
  store p (service_cell (default_service ns s))

-- `for _, r := range r.Children { r.ApplyDefaults(p) }`: the loop variable is a struct of its own.
unfoldable pub for_copies : (Ptr → Cmd (Unit {0})) → (from : Ptr) → ℕ → Cmd (Unit {0})
for_copies call from zero = pure tt
for_copies call from (suc n) = do
  r ← load_rule from
  local ← alloc (rule_cell r)
  call local
  for_copies call (suc from) n

unfoldable pub default_children_at : (Ptr → Cmd (Unit {0})) → Option Slice → Cmd (Unit {0})
default_children_at call none = pure tt
default_children_at call (some s) = for_copies call s.base s.length

-- RuleSpec.ApplyDefaults. The fuel bounds the depth of the tree.
unfoldable pub default_rule_at : ℕ → String → Ptr → Cmd (Unit {0})
default_rule_at zero ns p = λ _. none
default_rule_at (suc fuel) ns p = do
  r ← load_rule p
  store p (rule_cell (record r { type = if r.type == "" then sharded_rule_type else r.type }))
  default_service_at ns r.service
  default_children_at (default_rule_at fuel ns) r.children

-- A pointer that is nil becomes one to a new value, as for Port and SecurityContext.
unfoldable pub default_pointer : Cell → Option Ptr → Cmd (Option Ptr)
default_pointer c none = do q ← alloc c; pure (some q)
default_pointer c (some p) = pure (some p)

-- McRouterSpec.ApplyDefaults
unfoldable pub default_router_at : Ptr → Cmd (Unit {0})
default_router_at p = do
  r ← load_router p
  port ← default_pointer (port_cell default_port) r.port
  context ← default_pointer (context_cell default_security_context) r.security_context
  store p (
      router_cell (record {
        image = if r.image == "" then default_image else r.image;
        resources = r.resources;
        port = port;
        security_context = context;
        stats_root = if r.stats_root == "" then default_stats_root else r.stats_root;
      }))

-- MemcachedProxySpec.ApplyDefaults
unfoldable pub default_spec_at : ℕ → String → Ptr → Cmd (Unit {0})
default_spec_at fuel ns p = do default_router_at (suc p); default_rule_at fuel ns p

-- MemcachedProxy.ApplyDefaults
unfoldable pub apply_defaults_at : ℕ → Ptr → Cmd (Unit {0})
apply_defaults_at fuel p = do
  (meta, status) ← load_head p
  default_spec_at fuel meta.namespace (suc p)
