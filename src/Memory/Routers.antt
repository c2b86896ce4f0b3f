-- ===== src/Memory/Routers.antt =====
-- DeepCopyInto and ApplyDefaults of McRouterSpec on memory.
use memcached_operator.Prelude.{suc, ◌<◌, ◌≤◌, ◌≡◌, ◌≢◌, ◌∙◌, sym, refl, Option, none, some, arith}
use memcached_operator.Api.Proxy.{
  McRouterSpec, default_mc_router, or_default, default_port, default_security_context,
}
use memcached_operator.Memory.{
  Ptr, McRouterStruct, Cell, Memory, router_cell, port_cell, context_cell, put, write,
  load_router_lem, load_lem, store, store_lem, write-same, write-other,
}
use memcached_operator.Memory.Copy.{copy_pointer, copy_router_into}
use memcached_operator.Memory.Defaults.{default_pointer, default_router_at}
use memcached_operator.Memory.Shape.{PointsTo, DenotesRouter}
use memcached_operator.Memory.Frame.{PointsTo-frame}

-- A run on `m` that changes no cell of it, and gives a pointer to a value.
record Gives {A : Type 0} (kind : A → Cell) (run : Option (Option Ptr × Memory)) (m : Memory)
    (above : Ptr) (o : Option A) : Type 0 where
  memory : Memory
  pointer : Option Ptr
  returns : run ≡ some (pointer, memory)
  grows : m.next ≤ memory.next
  keeps : (a : Ptr) → a < m.next → memory.cell a ≡ m.cell a
  points : PointsTo kind memory above memory.next pointer o

-- A run that makes the struct at an address stand for a specification, and changes no other.
pub record Routes (run : Option (Unit {0} × Memory)) (m : Memory) (above out : Ptr)
    (s : McRouterSpec) : Type 0 where
  pub memory : Memory
  pub returns : run ≡ some (tt, memory)
  pub grows : m.next ≤ memory.next
  pub keeps : (a : Ptr) → a < m.next → a ≢ out → memory.cell a ≡ m.cell a
  pub denotes : DenotesRouter memory above memory.next out s

module _ {A : Type 0} (kind : A → Cell) (m : Memory) where
  allocated :
      (x : A) (above : Ptr) (run : Option (Option Ptr × Memory))
      → above ≤ m.next
      → run ≡ some (some m.next, record { next = suc m.next; cell = write m.cell m.next (kind x) })
      → Gives kind run m above (some x)
  allocated x above run le e = record {
    memory = record { next = suc m.next; cell = write m.cell m.next (kind x) };
    pointer = some m.next;
    returns = e;
    grows = omega arith;
    keeps = λ a l. write-other m m.next a (kind x) (omega arith);
    points = (m.next, refl, le, omega arith, write-same m m.next m.next (kind x));
  }

  copy_pointer_lem :
      (above above' below : Ptr) (p : Option Ptr) (o : Option A)
      → PointsTo kind m above below p o
      → above' ≤ m.next
      → Gives kind (copy_pointer p m) m above' o
  unfolding copy_pointer
  copy_pointer_lem above above' below p none e le = record {
    memory = m;
    pointer = none;
    returns = rw e refl;
    grows = omega arith;
    keeps = λ a l. refl;
    points = refl;
  }
  copy_pointer_lem above above' below p (some x) (a, e, _, lt, h) le =
      allocated x above' (copy_pointer p m) le (rw (e, load_lem a m (kind x) h) refl)

  default_pointer_lem :
      (above below : Ptr) (p : Option Ptr) (o : Option A) (d : A)
      → PointsTo kind m above below p o
      → above ≤ m.next
      → below ≤ m.next
      → Gives kind (default_pointer (kind d) p m) m above (or_default o d)
  unfolding default_pointer
  default_pointer_lem above below p none d e lo le =
      allocated d above (default_pointer (kind d) p m) lo (rw e refl)
  default_pointer_lem above below p (some x) d (a, e, ge, lt, h) lo le = record {
    memory = m;
    pointer = some a;
    returns = rw e refl;
    grows = omega arith;
    keeps = λ b l. refl;
    points = (a, refl, ge, omega arith, h);
  }

-- What a pointer leads to is no struct of another kind.
module _ {A : Type 0} (kind : A → Cell)
    (other : (x : A) (r : McRouterStruct) → kind x ≢ router_cell r) (m : Memory) (out : Ptr)
    (v : McRouterStruct) (at_out : m.cell out ≡ some (router_cell v)) where
  PointsTo-put :
      (c : Cell) (above below below' : Ptr) (p : Option Ptr) (o : Option A)
      → PointsTo kind m above below p o
      → below ≤ below'
      → PointsTo kind (put out c m) above below' p o
  PointsTo-put c above below below' p none h le = h
  PointsTo-put c above below below' p (some x) (a, e, ge, lt, h) le =
      (a, e, ge, omega arith, write-other m out a c (λ same. other x v (cc (at_out, h, same))) ∙ h)

port-other : (x : _) (r : McRouterStruct) → port_cell x ≢ router_cell r
port-other x r e = cc

context-other : (x : _) (r : McRouterStruct) → context_cell x ≢ router_cell r
context-other x r e = cc

-- The last write to the struct, after its pointers were made.
module _ (m : Memory) (out : Ptr) (v : McRouterStruct) (at_out : m.cell out ≡ some (router_cell v))
    (lt : out < m.next) (above : Ptr) (s : McRouterSpec)
    {port_run context_run : Option (Option Ptr × Memory)}
    (port : Gives port_cell port_run m above s.port)
    (context : Gives context_cell context_run port.memory above s.security_context) where
  abbrev last : McRouterStruct
  last = record {
    image = s.image;
    resources = s.resources;
    port = port.pointer;
    security_context = context.pointer;
    stats_root = s.stats_root;
  }

  kept : (a : Ptr) → a < m.next → context.memory.cell a ≡ m.cell a
  kept a l = context.keeps a (omega (arith, port.grows)) ∙ port.keeps a l

  last_grows : m.next ≤ context.memory.next
  last_grows = omega (arith, port.grows, context.grows)

  store-last :
      store out (router_cell last) context.memory
      ≡ some (tt, put out (router_cell last) context.memory)
  store-last =
      store_lem out context.memory (router_cell v) (router_cell last) (kept out lt ∙ at_out)

  finish :
      (run : Option (Unit {0} × Memory)) (m0 : Memory)
      → run ≡ store out (router_cell last) context.memory
      → m0.next ≡ m.next
      → ((a : Ptr) → a < m0.next → a ≢ out → m.cell a ≡ m0.cell a)
      → Routes run m0 above out s
  finish run m0 e same_next same =
      let m3 = context.memory in
      let new = router_cell last in
      record {
        memory = put out new m3;
        returns = e ∙ store-last;
        grows = omega (arith, last_grows);
        keeps = λ a l ne.
            write-other m3 out a new (λ h. ne (sym h)) ∙ kept a (omega arith) ∙ same a l ne;
        denotes = (
          omega (arith, last_grows),
          last,
          write-same m3 out out new,
          refl,
          refl,
          refl,
          PointsTo-put port_cell port-other m3 out v (kept out lt ∙ at_out) new above
              port.memory.next m3.next port.pointer s.port
              (PointsTo-frame port.memory m3 port_cell above port.memory.next port.pointer s.port
                (λ a _ l. context.keeps a l) port.points)
              context.grows,
          PointsTo-put context_cell context-other m3 out v (kept out lt ∙ at_out) new above m3.next
              m3.next context.pointer s.security_context context.points (omega arith),
        );
      }

module _ (m : Memory) (above below : Ptr) (s : McRouterSpec) where
  -- The pointers of the copy lead to new addresses.
  pub copy_router_into_lem :
      (from out : Ptr) (c : Cell)
      → DenotesRouter m above below from s
      → below ≤ out
      → out < m.next
      → m.cell out ≡ some c
      → Routes (copy_router_into from out m) m m.next out s
  unfolding copy_router_into
  copy_router_into_lem from out c (lt, v, h, i, r, t, p, q) lo hi at_out =
      let m1 = put out (router_cell v) m in
      let same : (a : Ptr) → a < below → m1.cell a ≡ m.cell a =
        λ a l. write-other m out a (router_cell v) (omega arith) in
      let port =
        copy_pointer_lem port_cell m1 above m.next below v.port s.port
          (PointsTo-frame m m1 port_cell above below v.port s.port (λ a _ l. same a l) p)
          (omega arith) in
      let context =
        copy_pointer_lem context_cell port.memory above m.next below v.security_context
          s.security_context
          (PointsTo-frame m port.memory context_cell above below v.security_context
            s.security_context (λ a _ l. port.keeps a (omega arith) ∙ same a l) q)
          port.grows in
      finish m1 out v (write-same m out out (router_cell v)) hi m.next s port context
        (copy_router_into from out m) m
        (rw
          (
            load_router_lem from m v h,
            store_lem out m c (router_cell v) at_out,
            port.returns,
            context.returns,
            i,
            r,
            t,
          )
          refl)
        refl (λ a l ne. write-other m out a (router_cell v) (λ e. ne (sym e)))

  pub default_router_at_lem :
      (a : Ptr)
      → DenotesRouter m above below a s
      → above ≤ m.next
      → below ≤ m.next
      → Routes (default_router_at a m) m above a (default_mc_router s)
  unfolding default_router_at default_mc_router
  default_router_at_lem a (lt, v, h, i, r, t, p, q) lo le =
      let port = default_pointer_lem port_cell m above below v.port s.port default_port p lo le in
      let context =
        default_pointer_lem context_cell port.memory above below v.security_context
          s.security_context default_security_context
          (PointsTo-frame m port.memory context_cell above below v.security_context
            s.security_context (λ b _ l. port.keeps b (omega arith)) q)
          (omega (arith, port.grows)) (omega (arith, port.grows)) in
      finish m a v h (omega arith) above (default_mc_router s) port context (default_router_at a m)
        m (rw (load_router_lem a m v h, port.returns, context.returns, i, r, t) refl) refl
        (λ b l ne. refl)
