-- ===== src/Memory/Copy/Laws.antt =====
-- RuleSpec.DeepCopyInto copies the whole tree: what it writes shares nothing, with the old tree or
-- within itself.
use memcached_operator.Prelude.{
  ℕ, String, zero, suc, ◌+◌, ◌<◌, ◌≤◌, ◌≡◌, ◌≢◌, ◌⊎◌, ◌∙◌, sym, refl, Option, none, some, inl, inr,
  arith,
}
use memcached_operator.Api.Rules.{ServiceSpec, RuleSpec, RuleSpecs, rule, nil, cons}
use memcached_operator.Memory.{
  Ptr, Slice, RuleStruct, Cell, Memory, rule_cell, service_cell, put, write, fill, load_rule_lem,
  load_service_lem, store_lem, set_service_lem, set_children_lem, write-same, write-other, fill-in,
  fill-below, zero_rule,
}
use memcached_operator.Memory.Copy.{copy_service, for_elements, copy_children, copy_rule_into}
use memcached_operator.Memory.Shape.{count, slice, PointsTo, OwnsService, Owns, OwnAll}
use memcached_operator.Memory.Frame.{PointsTo-frame, OwnsService-frame, Owns-frame}

-- A run on `m` that writes the struct at `out` and new addresses only.
pub record Writes (run : Option (Unit {0} × Memory)) (m : Memory) (out : Ptr) : Type 0 where
  pub memory : Memory
  pub returns : run ≡ some (tt, memory)
  pub grows : m.next ≤ memory.next
  pub keeps : (a : Ptr) → a < m.next → a ≢ out → memory.cell a ≡ m.cell a

-- The run sets the Service of the struct to a copy.
pub record SetsService (run : Option (Unit {0} × Memory)) (m : Memory) (out : Ptr) (v : RuleStruct)
    (s : Option ServiceSpec) : Type 0 where
  pub writes : Writes run m out
  pub open writes use *
  pub pointer : Option Ptr
  pub at_out : memory.cell out ≡ some (rule_cell (record v { service = pointer }))
  pub owns : OwnsService memory pointer m.next memory.next s

copy_service_lem :
    (m : Memory) (below out : Ptr) (v : RuleStruct) (s : Option ServiceSpec)
    → PointsTo service_cell m zero below v.service s
    → m.cell out ≡ some (rule_cell v)
    → out < m.next
    → SetsService (copy_service v.service out m) m out v s
unfolding copy_service
copy_service_lem m below out v none e at_out lt = record {
  writes = record { memory = m; returns = rw e; grows = omega arith; keeps = λ a l ne. refl };
  pointer = v.service;
  at_out = at_out;
  owns = (e, refl);
}
copy_service_lem m below out v (some s) (p, e, _, _, h) at_out lt =
    let m1 : Memory = record { next = suc m.next; cell = write m.cell m.next (service_cell s) } in
    let at_out1 : m1.cell out ≡ some (rule_cell v) =
      write-other m m.next out (service_cell s) (omega arith) ∙ at_out in
    let new = rule_cell (record v { service = some m.next }) in
    record {
      writes = record {
        memory = put out new m1;
        returns = rw (e, load_service_lem p m s h) (set_service_lem out m1 v (some m.next) at_out1);
        grows = omega arith;
        keeps = λ a l ne.
            write-other m1 out a new (λ same. ne (sym same))
            ∙ write-other m m.next a (service_cell s) (omega arith);
      };
      pointer = some m.next;
      at_out = write-same m1 out out new;
      owns = (
        refl,
        refl,
        write-other m1 out m.next new (omega arith) ∙ write-same m m.next m.next (service_cell s),
      );
    }

-- The run sets the Children of the struct to a copy.
pub record SetsChildren (run : Option (Unit {0} × Memory)) (m : Memory) (out : Ptr) (v : RuleStruct)
    (rs : RuleSpecs) : Type 0 where
  pub writes : Writes run m out
  pub open writes use *
  pub elements : Option Slice
  pub at_out : memory.cell out ≡ some (rule_cell (record v { children = elements }))
  pub owns :
      ((elements ≡ none) × (rs ≡ nil) × (m.next ≡ memory.next))
      ⊎ ((elements ≡ some (slice m.next (count rs)))
          × OwnAll memory m.next (m.next + count rs) memory.next rs)

-- The run makes the struct a copy of a rule.
pub record Copies (run : Option (Unit {0} × Memory)) (m : Memory) (out : Ptr) (r : RuleSpec)
    : Type 0 where
  pub writes : Writes run m out
  pub open writes use *
  pub copied : RuleStruct
  pub at_out : memory.cell out ≡ some (rule_cell copied)
  pub owns : Owns memory copied m.next memory.next r

-- The run makes the elements of an array copies of rules.
pub record CopiesAll (run : Option (Unit {0} × Memory)) (m : Memory) (to : Ptr) (rs : RuleSpecs)
    : Type 0 where
  pub memory : Memory
  pub returns : run ≡ some (tt, memory)
  pub grows : m.next ≤ memory.next
  pub keeps : (a : Ptr) → a < m.next → (a < to) ⊎ (to + count rs ≤ a) → memory.cell a ≡ m.cell a
  pub owns : OwnAll memory to m.next memory.next rs

abbrev pub Filled : Memory → (from to : Ptr) → Type 0
Filled m from to = (a : Ptr) → from ≤ a → a < to → (c : Cell) × (m.cell a ≡ some c)

-- From an array that is filled to the slice in the struct.
pub set_elements :
    (fuel : ℕ) (m : Memory) (out : Ptr) (v : RuleStruct) (base : Ptr) (rs : RuleSpecs)
    → m.cell out ≡ some (rule_cell v)
    → v.children ≡ some (slice base (count rs))
    → out < m.next
    → ((m1 : Memory) (at_out : (a : Ptr) → a < m.next → a ≢ out → m1.cell a ≡ m.cell a)
        → m1.next ≡ m.next + count rs
        → Filled m1 m.next m1.next
        → CopiesAll (for_elements (copy_rule_into fuel) base m.next (count rs) m1) m1 m.next rs)
    → SetsChildren (copy_children (copy_rule_into fuel) v.children out m) m out v rs
unfolding copy_children
set_elements fuel m out v base rs at_out e lt copy_all =
    let n = count rs in
    let m1 : Memory = record { next = m.next + n; cell = fill m.cell m.next n } in
    let at_out1 = fill-below m n out lt ∙ at_out in
    let new = rule_cell (record v { children = some (slice m.next n) }) in
    let m2 = put out new m1 in
    let done =
      copy_all m2 (λ a l ne. write-other m1 out a new (λ same. ne (sym same)) ∙ fill-below m n a l)
        refl
        (λ a l u.
          (rule_cell zero_rule, write-other m1 out a new (omega arith) ∙ fill-in m n a l u)) in
    record {
      writes = record {
        memory = done.memory;
        returns = rw (e, set_children_lem out m1 v (some (slice m.next n)) at_out1) done.returns;
        grows = omega (arith, done.grows);
        keeps = λ a l ne.
            done.keeps a (omega arith) (inl l)
            ∙ write-other m1 out a new (λ same. ne (sym same))
            ∙ fill-below m n a l;
      };
      elements = some (slice m.next n);
      at_out = done.keeps out (omega arith) (inl lt) ∙ write-same m1 out out new;
      owns = inr (refl, done.owns);
    }

pub service_set :
    (m : Memory) (below from out : Ptr) (v : RuleStruct) (s : Option ServiceSpec) (c : Cell)
    → PointsTo service_cell m zero below v.service s
    → below ≤ out
    → out < m.next
    → SetsService
        (copy_service v.service out (put out (rule_cell v) m))
        (put out (rule_cell v) m)
        out
        v
        s
service_set m below from out v s c given lo hi =
    let new = rule_cell v in
    copy_service_lem (put out new m) below out v s
      (PointsTo-frame m (put out new m) service_cell zero below v.service s
        (λ a _ l. write-other m out a new (omega arith)) given)
      (write-same m out out new) hi

pub no_elements :
    (fuel : ℕ) (elements : Option Slice) (out : Ptr) (m : Memory)
    → elements ≡ none
    → copy_children (copy_rule_into fuel) elements out m ≡ some (tt, m)
unfolding copy_children
no_elements fuel elements out m e = rw e refl

-- From the parts of the struct to the struct.
pub assemble :
    (fuel : ℕ) (m : Memory) (from out : Ptr) (v : RuleStruct) (type : String)
    (service : Option ServiceSpec) (children : RuleSpecs) (c : Cell)
    → m.cell from ≡ some (rule_cell v)
    → v.type ≡ type
    → out < m.next
    → m.cell out ≡ some c
    → (s2 : SetsService
        (copy_service v.service out (put out (rule_cell v) m))
        (put out (rule_cell v) m)
        out
        v
        service)
    → SetsChildren
        (copy_children (copy_rule_into fuel) v.children out s2.memory)
        s2.memory
        out
        (record v { service = s2.pointer })
        children
    → Copies (copy_rule_into (suc fuel) from out m) m out (rule type service children)
unfolding copy_rule_into Owns
assemble fuel m from out v type service children c h t hi at_out s2 s3 =
    let m2 = s2.memory in
    let m3 = s3.memory in
    record {
      writes = record {
        memory = m3;
        returns =
            rw (load_rule_lem from m v h, store_lem out m c (rule_cell v) at_out, s2.returns)
              s3.returns;
        grows = omega (arith, s2.grows, s3.grows);
        keeps = λ a l ne.
            s3.keeps a (omega (arith, s2.grows)) ne
            ∙ s2.keeps a l ne
            ∙ write-other m out a (rule_cell v) (λ same. ne (sym same));
      };
      copied = record v { service = s2.pointer; children = s3.elements };
      at_out = s3.at_out;
      owns = (
        t,
        m2.next,
        OwnsService-frame m2 m3 s2.pointer m.next m2.next service
            (λ a l u. s3.keeps a u (omega arith)) s2.owns,
        s3.owns,
      );
    }

-- From the first element and the others to the array.
pub join :
    (fuel : ℕ) (m : Memory) (from to : Ptr) (r : RuleSpec) (rs : RuleSpecs)
    → to + suc (count rs) ≤ m.next
    → (first : Copies (copy_rule_into fuel from to m) m to r)
    → CopiesAll
        (for_elements (copy_rule_into fuel) (suc from) (suc to) (count rs) first.memory)
        first.memory
        (suc to)
        rs
    → CopiesAll (for_elements (copy_rule_into fuel) from to (suc (count rs)) m) m to (cons r rs)
unfolding for_elements OwnAll
join fuel m from to r rs hi first rest = record {
  memory = rest.memory;
  returns = rw first.returns rest.returns;
  grows = omega (arith, first.grows, rest.grows);
  keeps = λ a l outside. elim outside [
    | inl before ↦
        rest.keeps a (omega (arith, first.grows)) (inl (omega arith))
        ∙ first.keeps a l (omega arith)
    | inr after ↦
        rest.keeps a (omega (arith, first.grows)) (inr (omega arith))
        ∙ first.keeps a l (omega arith)
  ];
  owns = (
    first.copied,
    rest.keeps to (omega (arith, first.grows)) (inl (omega arith)) ∙ first.at_out,
    first.memory.next,
    Owns-frame first.memory rest.memory first.copied m.next first.memory.next r
        (λ a l u. rest.keeps a u (inr (omega arith))) first.owns,
    rest.owns,
  );
}
