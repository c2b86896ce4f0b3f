-- ===== src/Tests/Memories.antt =====
-- A proxy in memory, and its copy.
use memcached_operator.Prelude.{
  ℕ, ◌≡◌, refl, inl, inr, some, none, Option, ℤ, nat_eq, if◌then◌else◌, arith,
}
use memcached_operator.Proxy.Laws.{settled}
use memcached_operator.Memory.{
  Ptr, Cell, Memory, head_cell, rule_cell, router_cell, service_cell, zero_router, load_rule,
  load_service, load_router, load_head, load, store, set_service, set_children,
}
use memcached_operator.Memory.Copy.{
  copy_proxy, copy_proxy_into, copy_spec_into, copy_router_into, copy_pointer, copy_rule_into,
  copy_children, for_elements, copy_service,
}
use memcached_operator.Memory.Defaults.{
  apply_defaults_at, default_spec_at, default_router_at, default_pointer, default_rule_at,
  default_children_at, for_copies, default_service_at,
}
use memcached_operator.Memory.Handler.{settled_copy, update_status_at, settled_copy-settled}
use memcached_operator.Memory.Shape.{slice, Denotes, DenotesProxy, size}
use memcached_operator.Tests.Data.{draft, service_a, proxy_meta}

-- The draft at address 1, with a rule at 4 as the only child and its service at 5.
abbrev cells : Ptr → Option Cell
cells a =
    if nat_eq a 1
    then some (head_cell proxy_meta (record { observed_generation = ℤ.pos 0 }))
    else if nat_eq a 2
    then some (rule_cell (record { type = "sharded"; service = none; children = some (slice 4 1) }))
    else if nat_eq a 3
    then some (router_cell zero_router)
    else if nat_eq a 4
    then some (rule_cell (record { type = "replicated"; service = some 5; children = none }))
    else if nat_eq a 5
    then some (service_cell service_a)
    else none

abbrev memory : Memory
memory = record { next = 6; cell = cells }

draft_denoted : DenotesProxy memory 6 1 draft
unfolding Denotes
draft_denoted = (
  refl,
  (
    omega arith,
    record { type = "sharded"; service = none; children = some (slice 4 1) },
    refl,
    refl,
    refl,
    inr (
      4,
      refl,
      (
        (
          omega arith,
          record { type = "replicated"; service = some 5; children = none },
          refl,
          refl,
          (5, refl, omega arith, omega arith, refl),
          inl (refl, refl),
        ),
        tt,
      ),
    ),
  ),
  (omega arith, zero_router, refl, refl, refl, refl, refl, refl),
)

settled_copy-settled_example :
    (m' : Memory) × (settled_copy 2 1 memory ≡ some (6, m'))
    × DenotesProxy m' m'.next 6 (settled draft)
    × DenotesProxy m' 6 1 draft
    × (m'.cell 5 ≡ some (service_cell service_a))
unfolding size
settled_copy-settled_example =
    settled_copy-settled 2 memory 1 5 draft draft_denoted (omega arith) (omega arith)

-- The copy of the child is behind the copy of the draft.
abbrev next_of : Option (Ptr × Memory) → ℕ
next_of none = 0
next_of (some (p, m)) = m.next

next_settled_copy : next_of (settled_copy 2 1 memory) ≡ 14
unfolding settled_copy update_status_at copy_proxy copy_proxy_into copy_spec_into copy_router_into
    copy_pointer copy_rule_into copy_children for_elements copy_service apply_defaults_at
    default_spec_at default_router_at default_pointer default_rule_at default_children_at for_copies
    default_service_at load_rule load_service load_router load_head load store set_service
    set_children
next_settled_copy = refl
