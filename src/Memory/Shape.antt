-- ===== src/Memory/Shape.antt =====
-- What the memory at an address stands for: a tree of rules.
use memcached_operator.Prelude.{ℕ, zero, suc, ◌+◌, ◌<◌, ◌≤◌, ◌≡◌, ◌⊎◌, Option, none, some}
use memcached_operator.Api.Rules.{ServiceSpec, RuleSpec, RuleSpecs, rule, nil, cons}
use memcached_operator.Api.Proxy.{MemcachedProxy, McRouterSpec}
use memcached_operator.Memory.{
  Ptr, Slice, RuleStruct, McRouterStruct, Cell, rule_cell, service_cell, port_cell, context_cell,
  router_cell, head_cell, Memory,
}

abbrev pub count : RuleSpecs → ℕ
count nil = zero
count (cons r rs) = suc (count rs)

-- The number of rules of a tree, which is enough fuel for it.
unfoldable mutual
  pub size : RuleSpec → ℕ
  size (rule type service children) = suc (size_of_children children)

  pub size_of_children : RuleSpecs → ℕ
  size_of_children nil = zero
  size_of_children (cons r rs) = size r + size_of_children rs

abbrev pub slice : Ptr → ℕ → Slice
slice base n = record { base = base; length = n }

-- A pointer to a value of some kind, from one address and below another.
abbrev pub PointsTo :
    {A : Type 0} → (A → Cell) → Memory → (above below : Ptr) → Option Ptr → Option A → Type 0
PointsTo kind m above below p none = p ≡ none
PointsTo kind m above below p (some x) =
    (a : Ptr) × (p ≡ some a) × (above ≤ a) × (a < below) × (m.cell a ≡ some (kind x))

-- The struct at an address stands for a rule; all that it reaches is below an address. Structs and
-- arrays may be shared.
unfoldable mutual
  pub Denotes : Memory → (below : Ptr) → Ptr → RuleSpec → Type 0
  Denotes m below a (rule type service children) =
      (a < below)
      × (v : RuleStruct) × (m.cell a ≡ some (rule_cell v))
      × (v.type ≡ type)
      × PointsTo service_cell m zero below v.service service
      × (((v.children ≡ none) × (children ≡ nil))
          ⊎ ((base : Ptr) × (v.children ≡ some (slice base (count children)))
              × DenoteAll m below base children))

  pub DenoteAll : Memory → (below : Ptr) → Ptr → RuleSpecs → Type 0
  DenoteAll m below a nil = Unit
  DenoteAll m below a (cons r rs) = Denotes m below a r × DenoteAll m below (suc a) rs

-- A service of its own at `lo`, or no service.
abbrev pub OwnsService : Memory → Option Ptr → (lo hi : Ptr) → Option ServiceSpec → Type 0
OwnsService m p lo hi none = (p ≡ none) × (lo ≡ hi)
OwnsService m p lo hi (some s) = (p ≡ some lo) × (suc lo ≡ hi) × (m.cell lo ≡ some (service_cell s))

-- The parts of a struct stand for a service and children, and take the addresses from `lo` to `hi`, each
-- for one part only: the struct shares nothing.
unfoldable mutual
  pub Owns : Memory → RuleStruct → (lo hi : Ptr) → RuleSpec → Type 0
  Owns m v lo hi (rule type service children) =
      (v.type ≡ type)
      × (mid : Ptr) × OwnsService m v.service lo mid service
      × (((v.children ≡ none) × (children ≡ nil) × (mid ≡ hi))
          ⊎ ((v.children ≡ some (slice mid (count children)))
              × OwnAll m mid (mid + count children) hi children))

  pub OwnAll : Memory → Ptr → (lo hi : Ptr) → RuleSpecs → Type 0
  OwnAll m a lo hi nil = lo ≡ hi
  OwnAll m a lo hi (cons r rs) =
      (v : RuleStruct) × (m.cell a ≡ some (rule_cell v))
      × (mid : Ptr) × Owns m v lo mid r
      × OwnAll m (suc a) mid hi rs

-- The struct at an address stands for a specification of mcrouter; its pointers lead to addresses
-- from `above` on.
abbrev pub DenotesRouter : Memory → (above below : Ptr) → Ptr → McRouterSpec → Type 0
DenotesRouter m above below a s =
    (a < below)
    × (v : McRouterStruct) × (m.cell a ≡ some (router_cell v))
    × (v.image ≡ s.image)
    × (v.resources ≡ s.resources)
    × (v.stats_root ≡ s.stats_root)
    × PointsTo port_cell m above below v.port s.port
    × PointsTo context_cell m above below v.security_context s.security_context

-- The three structs from an address on stand for a proxy.
abbrev pub DenotesProxy : Memory → (below : Ptr) → Ptr → MemcachedProxy → Type 0
DenotesProxy m below a p =
    (m.cell a ≡ some (head_cell p.meta p.status))
    × Denotes m below (suc a) p.spec.rules
    × DenotesRouter m zero below (suc (suc a)) p.spec.mc_router
