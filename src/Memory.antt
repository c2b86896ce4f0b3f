-- ===== src/Memory.antt =====
-- Go's memory, as far as the types of internal/apis/ianlewis.org/v1alpha1 point into it: structs
-- at addresses, slices that share arrays, and commands that read, write and allocate. The value
-- of a pointer or a slice that may be nil is an Option.
pub mod Copy
pub mod Defaults
pub mod Frame
pub mod Handler
pub mod Proxies
pub mod Routers
pub mod Shape
use memcached_operator.Prelude.{
  ℕ, zero, suc, ◌+◌, String, ℤ, Option, none, some, ◌≡◌, refl, Option-map, if◌then◌else◌, nat_eq,
  ltb, [], Bool, ◌&&◌, not, ◌≢◌, ◌≤◌, ◌<◌, arith,
}
use memcached_operator.Api.Meta.{ObjectMeta, blank_meta}
use memcached_operator.Api.Rules.{ServiceSpec}
use memcached_operator.Api.Proxy.{SecurityContext, ResourceRequirements, MemcachedProxyStatus}

abbrev pub Ptr : Type 0
Ptr = ℕ

-- A slice: its array starts at `base`, with the elements at consecutive addresses.
pub record Slice : Type 0 where
  pub base : Ptr
  pub length : ℕ

-- The structs RuleSpec and McRouterSpec, with their pointers.
pub record RuleStruct : Type 0 where
  pub type : String
  pub service : Option Ptr
  pub children : Option Slice

pub record McRouterStruct : Type 0 where
  pub image : String
  pub resources : ResourceRequirements
  pub port : Option Ptr
  pub security_context : Option Ptr
  pub stats_root : String

-- What an address holds. A MemcachedProxy stands at three addresses: its metadata and status, then
-- its Spec.Rules, then its Spec.McRouter.
pub data Cell : Type 0 where
  rule_cell : RuleStruct → Cell
  service_cell : ServiceSpec → Cell
  port_cell : ℤ → Cell
  context_cell : SecurityContext → Cell
  head_cell : ObjectMeta → MemcachedProxyStatus → Cell
  router_cell : McRouterStruct → Cell

pub record Memory : Type 0 where
  pub next : Ptr
  pub cell : Ptr → Option Cell

-- `none` is a fault: a read or a write at an address that does not hold the struct, or a recursion
-- that is out of fuel.
abbrev pub Cmd : Type 0 → Type 0
Cmd A = Memory → Option (A × Memory)

abbrev pub pure : {A : Type 0} → A → Cmd A
pure a m = some (a, m)

module _ {A B : Type 0} where
  abbrev pub and_then : Option (A × Memory) → (A → Cmd B) → Option (B × Memory)
  and_then none f = none
  and_then (some (a, m)) f = f a m

  infixl 5 ◌>>=◌ ◌>>◌
  abbrev pub ◌>>=◌ : Cmd A → (A → Cmd B) → Cmd B
  c >>= f = λ m. and_then (c m) f

  abbrev pub ◌>>◌ : Cmd A → Cmd B → Cmd B
  c >> d = c >>= λ _. d

abbrev pub write : (Ptr → Option Cell) → Ptr → Cell → Ptr → Option Cell
write cells p c a = if nat_eq p a then some c else cells a

abbrev pub put : Ptr → Cell → Memory → Memory
put p c m = record m { cell = write m.cell p c }

-- `*p = c`
unfoldable pub store : Ptr → Cell → Cmd (Unit {0})
store p c m = Option-map (λ _. (tt, put p c m)) (m.cell p)

-- `new(T)`, together with the first write to it.
abbrev pub alloc : Cell → Cmd Ptr
alloc c m = some (m.next, record { next = suc m.next; cell = write m.cell m.next c })

abbrev pub zero_rule : RuleStruct
zero_rule = record { type = ""; service = none; children = none }

abbrev pub fill : (Ptr → Option Cell) → Ptr → ℕ → Ptr → Option Cell
fill cells base n a =
    if not (ltb a base) && ltb a (base + n) then some (rule_cell zero_rule) else cells a

-- `make([]RuleSpec, n)`
abbrev pub alloc_rules : ℕ → Cmd Ptr
alloc_rules n m = some (m.next, record { next = m.next + n; cell = fill m.cell m.next n })

abbrev as_rule : Option Cell → Option RuleStruct
as_rule (some (rule_cell r)) = some r
as_rule _ = none

abbrev as_service : Option Cell → Option ServiceSpec
as_service (some (service_cell s)) = some s
as_service _ = none

unfoldable pub load_rule : Ptr → Cmd RuleStruct
load_rule p m = Option-map (λ r. (r, m)) (as_rule (m.cell p))

unfoldable pub load_service : Ptr → Cmd ServiceSpec
load_service p m = Option-map (λ s. (s, m)) (as_service (m.cell p))

abbrev as_router : Option Cell → Option McRouterStruct
as_router (some (router_cell r)) = some r
as_router _ = none

abbrev as_head : Option Cell → Option (ObjectMeta × MemcachedProxyStatus)
as_head (some (head_cell meta status)) = some (meta, status)
as_head _ = none

unfoldable pub load_router : Ptr → Cmd McRouterStruct
load_router p m = Option-map (λ r. (r, m)) (as_router (m.cell p))

unfoldable pub load_head : Ptr → Cmd (ObjectMeta × MemcachedProxyStatus)
load_head p m = Option-map (λ h. (h, m)) (as_head (m.cell p))

-- `*p`, whatever it is.
unfoldable pub load : Ptr → Cmd Cell
load p m = Option-map (λ c. (c, m)) (m.cell p)

abbrev pub zero_head : Cell
zero_head = head_cell blank_meta (record { observed_generation = ℤ.pos 0 })

abbrev pub zero_router : McRouterStruct
zero_router = record {
  image = "";
  resources = record { limits = []; requests = [] };
  port = none;
  security_context = none;
  stats_root = "";
}

-- `new(MemcachedProxy)`
abbrev pub alloc_proxy : Cmd Ptr
alloc_proxy = do
  p ← alloc zero_head
  alloc (rule_cell zero_rule)
  alloc (router_cell zero_router)
  pure p

-- `p.Service = s` and `p.Children = s` for a pointer to a rule.
unfoldable pub set_service : Ptr → Option Ptr → Cmd (Unit {0})
set_service p s = do r ← load_rule p; store p (rule_cell (record r { service = s }))

unfoldable pub set_children : Ptr → Option Slice → Cmd (Unit {0})
set_children p s = do r ← load_rule p; store p (rule_cell (record r { children = s }))

-- What a command does where its reads and writes find their structs.
module _ (p : Ptr) (m : Memory) where
  pub load_rule_lem : (r : RuleStruct) → m.cell p ≡ some (rule_cell r) → load_rule p m ≡ some (r, m)
  unfolding load_rule
  load_rule_lem r h = rw h

  pub load_service_lem :
      (s : ServiceSpec) → m.cell p ≡ some (service_cell s) → load_service p m ≡ some (s, m)
  unfolding load_service
  load_service_lem s h = rw h

  pub load_router_lem :
      (r : McRouterStruct) → m.cell p ≡ some (router_cell r) → load_router p m ≡ some (r, m)
  unfolding load_router
  load_router_lem r h = rw h

  pub load_head_lem :
      (meta : ObjectMeta) (status : MemcachedProxyStatus)
      → m.cell p ≡ some (head_cell meta status)
      → load_head p m ≡ some ((meta, status), m)
  unfolding load_head
  load_head_lem meta status h = rw h

  pub load_lem : (c : Cell) → m.cell p ≡ some c → load p m ≡ some (c, m)
  unfolding load
  load_lem c h = rw h

  pub store_lem : (c d : Cell) → m.cell p ≡ some c → store p d m ≡ some (tt, put p d m)
  unfolding store
  store_lem c d h = rw h

  pub set_service_lem :
      (r : RuleStruct) (s : Option Ptr)
      → m.cell p ≡ some (rule_cell r)
      → set_service p s m ≡ some (tt, put p (rule_cell (record r { service = s })) m)
  unfolding set_service
  set_service_lem r s h = rw (load_rule_lem r h) (store_lem (rule_cell r) _ h)

  pub set_children_lem :
      (r : RuleStruct) (s : Option Slice)
      → m.cell p ≡ some (rule_cell r)
      → set_children p s m ≡ some (tt, put p (rule_cell (record r { children = s })) m)
  unfolding set_children
  set_children_lem r s h = rw (load_rule_lem r h) (store_lem (rule_cell r) _ h)

-- What a cell is after a write.
module _ (m : Memory) (p a : Ptr) (c : Cell) where
  pub write-same : write m.cell p c p ≡ some c
  write-same = ground arith

  pub write-other : p ≢ a → write m.cell p c a ≡ m.cell a
  write-other h = ground arith

module _ (m : Memory) (n : ℕ) (a : Ptr) where
  pub fill-in : m.next ≤ a → a < m.next + n → fill m.cell m.next n a ≡ some (rule_cell zero_rule)
  fill-in l u = ground arith

  pub fill-below : a < m.next → fill m.cell m.next n a ≡ m.cell a
  fill-below l = ground arith
