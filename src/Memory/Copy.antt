-- ===== src/Memory/Copy.antt =====
-- DeepCopyInto and DeepCopy of the types that MemcachedProxy is made of
-- (internal/apis/ianlewis.org/v1alpha1/zz_generated.deepcopy.go).
pub mod Laws
pub mod Trees
use memcached_operator.Prelude.{ℕ, zero, suc, Option, none, some}
use memcached_operator.Memory.{
  load, load_router, load_head, alloc_proxy, router_cell, head_cell, Ptr, Slice, Cmd, rule_cell,
  service_cell, pure, ◌>>=◌, ◌>>◌, load_rule, load_service, store, alloc, alloc_rules, set_service,
  set_children, zero_rule,
}

-- `if in.Service != nil`: a new struct with the fields of the old one, as ServiceSpec.DeepCopyInto.
unfoldable pub copy_service : Option Ptr → (out : Ptr) → Cmd (Unit {0})
copy_service none out = pure tt
copy_service (some p) out = do
  s ← load_service p
  q ← alloc (service_cell s)
  set_service out (some q)

-- `for i := range *in`, from the element at `from` to the one at `to`.
unfoldable pub for_elements : (Ptr → Ptr → Cmd (Unit {0})) → (from to : Ptr) → ℕ → Cmd (Unit {0})
for_elements copy from to zero = pure tt
for_elements copy from to (suc n) = do copy from to; for_elements copy (suc from) (suc to) n

-- `if in.Children != nil`
unfoldable pub copy_children :
    (Ptr → Ptr → Cmd (Unit {0})) → Option Slice → (out : Ptr) → Cmd (Unit {0})
copy_children copy none out = pure tt
copy_children copy (some s) out = do
  base ← alloc_rules s.length
  set_children out (some (record { base = base; length = s.length }))
  for_elements copy s.base base s.length

-- RuleSpec.DeepCopyInto. The fuel bounds the depth of the tree.
unfoldable pub copy_rule_into : ℕ → (from out : Ptr) → Cmd (Unit {0})
copy_rule_into zero from out = λ _. none
copy_rule_into (suc fuel) from out = do
  r ← load_rule from
  store out (rule_cell r)
  copy_service r.service out
  copy_children (copy_rule_into fuel) r.children out

-- RuleSpec.DeepCopy of a rule that is not nil.
unfoldable pub copy_rule : ℕ → Ptr → Cmd Ptr
copy_rule fuel from = do out ← alloc (rule_cell zero_rule); copy_rule_into fuel from out; pure out

-- A new value with what the old pointer leads to, as for Port and SecurityContext.
unfoldable pub copy_pointer : Option Ptr → Cmd (Option Ptr)
copy_pointer none = pure none
copy_pointer (some p) = do c ← load p; q ← alloc c; pure (some q)

-- McRouterSpec.DeepCopyInto
unfoldable pub copy_router_into : (from out : Ptr) → Cmd (Unit {0})
copy_router_into from out = do
  r ← load_router from
  store out (router_cell r)
  port ← copy_pointer r.port
  context ← copy_pointer r.security_context
  store out (router_cell (record r { port = port; security_context = context }))

-- MemcachedProxySpec.DeepCopyInto
unfoldable pub copy_spec_into : ℕ → (from out : Ptr) → Cmd (Unit {0})
copy_spec_into fuel from out = do
  copy_rule_into fuel from out
  copy_router_into (suc from) (suc out)

-- MemcachedProxy.DeepCopyInto
unfoldable pub copy_proxy_into : ℕ → (from out : Ptr) → Cmd (Unit {0})
copy_proxy_into fuel from out = do
  (meta, status) ← load_head from
  store out (head_cell meta status)
  copy_spec_into fuel (suc from) (suc out)

-- MemcachedProxy.DeepCopy of a proxy that is not nil.
unfoldable pub copy_proxy : ℕ → Ptr → Cmd Ptr
copy_proxy fuel from = do out ← alloc_proxy; copy_proxy_into fuel from out; pure out
