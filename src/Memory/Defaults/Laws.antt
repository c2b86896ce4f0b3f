-- ===== src/Memory/Defaults/Laws.antt =====
-- RuleSpec.ApplyDefaults on a tree of structs that share nothing: what the pointers lead to
-- afterwards is what default_rule gives.
use memcached_operator.Prelude.{
  ℕ, suc, ◌+◌, ◌<◌, ◌≤◌, ◌≡◌, ◌≢◌, ◌⊎◌, ◌∙◌, refl, ap, Option, none, some, inl, arith, String, ◌==◌,
  if◌then◌else◌, Option-map,
}
use memcached_operator.Api.Rules.{
  ServiceSpec, RuleSpec, RuleSpecs, rule, nil, cons, default_service, default_rule,
  default_children, after_copy, root_type, sharded_rule_type,
}
use memcached_operator.Memory.{
  Ptr, RuleStruct, Cell, Memory, rule_cell, service_cell, put, write, load_rule_lem,
  load_service_lem, store_lem, write-same, write-other,
}
use memcached_operator.Memory.Defaults.{
  default_service_at, for_copies, default_children_at, default_rule_at,
}
use memcached_operator.Memory.Shape.{count, slice, OwnsService, Owns, OwnAll}
use memcached_operator.Memory.Frame.{OwnsService-frame, Owns-frame, Owns-le}

-- A run on `m` that changes cells from `lo` to `hi` and new ones only.
pub record Changes (run : Option (Unit {0} × Memory)) (m : Memory) (lo hi : Ptr) : Type 0 where
  pub memory : Memory
  pub returns : run ≡ some (tt, memory)
  pub grows : m.next ≤ memory.next
  pub keeps : (a : Ptr) → a < m.next → (a < lo) ⊎ (hi ≤ a) → memory.cell a ≡ m.cell a

pub record ChangesService (run : Option (Unit {0} × Memory)) (m : Memory) (p : Option Ptr)
    (lo hi : Ptr) (s : Option ServiceSpec) : Type 0 where
  pub changes : Changes run m lo hi
  pub open changes use *
  pub owns : OwnsService memory p lo hi s

pub record ChangesAll (run : Option (Unit {0} × Memory)) (m : Memory) (a lo hi : Ptr)
    (rs : RuleSpecs) : Type 0 where
  pub changes : Changes run m lo hi
  pub open changes use *
  pub owns : OwnAll memory a lo hi rs

pub record ChangesChildren (run : Option (Unit {0} × Memory)) (m : Memory) (v : RuleStruct)
    (lo hi : Ptr) (rs : RuleSpecs) : Type 0 where
  pub changes : Changes run m lo hi
  pub open changes use *
  pub owns :
      ((v.children ≡ none) × (rs ≡ nil) × (lo ≡ hi))
      ⊎ ((v.children ≡ some (slice lo (count rs))) × OwnAll memory lo (lo + count rs) hi rs)

-- A run that also changes the struct at an address to one with the type of a rule.
pub record ChangesRule (run : Option (Unit {0} × Memory)) (m : Memory) (p : Ptr) (v : RuleStruct)
    (lo hi : Ptr) (r : RuleSpec) : Type 0 where
  pub memory : Memory
  pub returns : run ≡ some (tt, memory)
  pub grows : m.next ≤ memory.next
  pub keeps : (a : Ptr) → a < m.next → a ≢ p → (a < lo) ⊎ (hi ≤ a) → memory.cell a ≡ m.cell a
  pub at_p : memory.cell p ≡ some (rule_cell (record v { type = root_type r }))
  pub owns : Owns memory (record v { type = root_type r }) lo hi r

-- The memory with a new struct, as a loop variable.
abbrev pub with_local : RuleStruct → Memory → Memory
with_local v m = record { next = suc m.next; cell = write m.cell m.next (rule_cell v) }

abbrev pub with_type : RuleStruct → Cell
with_type v = rule_cell (record v { type = if v.type == "" then sharded_rule_type else v.type })

module _ (ns : String) where
  pub count-default_children : (rs : RuleSpecs) → count (default_children ns rs) ≡ count rs
  unfolding default_children
  count-default_children nil = refl
  count-default_children (cons r rs) = ap suc (count-default_children rs)

  pub default_service_at_lem :
      (m : Memory) (p : Option Ptr) (lo hi : Ptr) (s : Option ServiceSpec)
      → OwnsService m p lo hi s
      → hi ≤ m.next
      → ChangesService (default_service_at ns p m) m p lo hi (Option-map (default_service ns) s)
  unfolding default_service_at
  default_service_at_lem m p lo hi none (e, e') le = record {
    changes = record {
      memory = m;
      returns = rw e refl;
      grows = omega arith;
      keeps = λ a l u. refl;
    };
    owns = (e, e');
  }
  default_service_at_lem m p lo hi (some s) (e, e', h) le =
      let new = service_cell (default_service ns s) in
      record {
        changes = record {
          memory = put lo new m;
          returns = rw (e, load_service_lem lo m s h) (store_lem lo m (service_cell s) new h);
          grows = omega arith;
          keeps = λ a l u. write-other m lo a new (ground arith);
        };
        owns = (e, e', write-same m lo lo new);
      }

  -- A copy of the struct was changed, not the struct.
  Owns-after_copy :
      (m m' : Memory) (v : RuleStruct) (lo hi : Ptr) (r : RuleSpec)
      → Owns m v lo hi r
      → Owns m' (record v { type = root_type (default_rule ns r) }) lo hi (default_rule ns r)
      → Owns m' v lo hi (after_copy r (default_rule ns r))
  unfolding Owns default_rule
  Owns-after_copy m m' v lo hi (rule type service children) (t, _, _, _) (_, mid, s, h) =
      (t, mid, s, h)

  -- From the first element and the others to the array.
  pub join :
      (fuel : ℕ) (m : Memory) (a lo mid hi : Ptr) (v : RuleStruct) (r : RuleSpec) (rs : RuleSpecs)
      → m.cell a ≡ some (rule_cell v)
      → Owns m v lo mid r
      → a < lo
      → mid ≤ hi
      → hi ≤ m.next
      → (first : ChangesRule
          (default_rule_at fuel ns m.next (with_local v m))
          (with_local v m)
          m.next
          v
          lo
          mid
          (default_rule ns r))
      → ChangesAll
          (for_copies (default_rule_at fuel ns) (suc a) (count rs) first.memory)
          first.memory
          (suc a)
          mid
          hi
          (default_children ns rs)
      → ChangesAll
          (for_copies (default_rule_at fuel ns) a (suc (count rs)) m)
          m
          a
          lo
          hi
          (default_children ns (cons r rs))
  unfolding for_copies OwnAll default_children
  join fuel m a lo mid hi v r rs at_a own before le le' first rest =
      let ordered = Owns-le m v lo mid r own in
      let kept : (b : Ptr) → b < m.next → (b < lo) ⊎ (hi ≤ b) → rest.memory.cell b ≡ m.cell b =
        λ b l outside.
          rest.keeps b (omega (arith, first.grows)) (omega arith)
          ∙ first.keeps b (omega arith) (omega arith) (omega arith)
          ∙ write-other m m.next b (rule_cell v) (omega arith) in
      record {
        changes = record {
          memory = rest.memory;
          returns = rw (load_rule_lem a m v at_a, first.returns) rest.returns;
          grows = omega (arith, first.grows, rest.grows);
          keeps = kept;
        };
        owns = (
          v,
          kept a (omega arith) (inl before) ∙ at_a,
          mid,
          Owns-frame first.memory rest.memory v lo mid (after_copy r (default_rule ns r))
              (λ b l u. rest.keeps b (omega (arith, first.grows)) (inl u))
              (Owns-after_copy m first.memory v lo mid r own first.owns),
          rest.owns,
        );
      }

  -- From the service and the children to the struct.
  pub assemble :
      (fuel : ℕ) (m : Memory) (p lo mid hi : Ptr) (v : RuleStruct) (type : String)
      (service : Option ServiceSpec) (children : RuleSpecs)
      → m.cell p ≡ some (rule_cell v)
      → v.type ≡ type
      → (p < lo) ⊎ (hi ≤ p)
      → lo ≤ mid
      → mid ≤ hi
      → hi ≤ m.next
      → p < m.next
      → (s2 : ChangesService
          (default_service_at ns v.service (put p (with_type v) m))
          (put p (with_type v) m)
          v.service
          lo
          mid
          (Option-map (default_service ns) service))
      → ChangesChildren
          (default_children_at (default_rule_at fuel ns) v.children s2.memory)
          s2.memory
          v
          mid
          hi
          (default_children ns children)
      → ChangesRule
          (default_rule_at (suc fuel) ns p m)
          m
          p
          v
          lo
          hi
          (default_rule ns (rule type service children))
  unfolding default_rule_at Owns default_rule
  assemble fuel m p lo mid hi v type service children at_p t outside le le' top lt s2 s3 =
      let kept : (a : Ptr)
          → a < m.next
          → a ≢ p
          → (a < lo) ⊎ (hi ≤ a)
          → s3.memory.cell a ≡ m.cell a =
        λ a l ne u.
          s3.keeps a (omega (arith, s2.grows)) (omega arith)
          ∙ s2.keeps a l (omega arith)
          ∙ write-other m p a (with_type v) (omega arith) in
      record {
        memory = s3.memory;
        returns =
            rw
              (load_rule_lem p m v at_p, store_lem p m (rule_cell v) (with_type v) at_p, s2.returns)
              s3.returns;
        grows = omega (arith, s2.grows, s3.grows);
        keeps = kept;
        at_p =
            s3.keeps p (omega (arith, s2.grows)) (omega arith)
            ∙ s2.keeps p lt (omega arith)
            ∙ write-same m p p (with_type v)
            ∙ ap
                (λ x.
                  some (rule_cell (record v { type = if x == "" then sharded_rule_type else x })))
                t;
        owns = (
          refl,
          mid,
          OwnsService-frame s2.memory s3.memory v.service lo mid
              (Option-map (default_service ns) service)
              (λ a l u. s3.keeps a (omega (arith, s2.grows)) (inl u)) s2.owns,
          s3.owns,
        );
      }
