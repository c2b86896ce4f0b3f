-- ===== src/Memory/Defaults/Trees.antt =====
-- RuleSpec.ApplyDefaults on a whole tree of structs that share nothing.
use memcached_operator.Prelude.{
  ℕ, zero, suc, ◌+◌, ◌<◌, ◌≤◌, ◌≡◌, ◌⊎◌, ◌∙◌, refl, ap, Option, none, some, inl, inr, arith, String,
  Option-map,
}
use memcached_operator.Api.Rules.{
  ServiceSpec, RuleSpec, RuleSpecs, rule, nil, cons, default_service, default_rule,
  default_children,
}
use memcached_operator.Memory.{Ptr, RuleStruct, Memory, rule_cell, put, write-same, write-other}
use memcached_operator.Memory.Defaults.{
  default_service_at, for_copies, default_children_at, default_rule_at,
}
use memcached_operator.Memory.Shape.{
  count, slice, OwnsService, Owns, OwnAll, size, size_of_children,
}
use memcached_operator.Memory.Frame.{
  OwnsService-frame, Owns-frame, OwnAll-frame, Owns-le, OwnAll-le, OwnsService-le,
}
use memcached_operator.Memory.Defaults.Laws.{
  ChangesService, ChangesChildren, ChangesAll, ChangesRule, with_local, with_type,
  count-default_children, default_service_at_lem, join, assemble,
}

module _ (ns : String) where
  default_service_set :
      (m : Memory) (p lo mid : Ptr) (v : RuleStruct) (service : Option ServiceSpec)
      → OwnsService m v.service lo mid service
      → (p < lo) ⊎ (mid ≤ p)
      → mid ≤ m.next
      → ChangesService
          (default_service_at ns v.service (put p (with_type v) m))
          (put p (with_type v) m)
          v.service
          lo
          mid
          (Option-map (default_service ns) service)
  default_service_set m p lo mid v service s outside top =
      let m1 = put p (with_type v) m in
      default_service_at_lem ns m1 v.service lo mid service
        (OwnsService-frame m m1 v.service lo mid service
          (λ a l u. write-other m p a (with_type v) (omega arith)) s)
        top

  no_children :
      (fuel : ℕ) (v : RuleStruct) (m : Memory) (lo hi : Ptr) (rs : RuleSpecs)
      → v.children ≡ none
      → rs ≡ nil
      → lo ≡ hi
      → ChangesChildren
          (default_children_at (default_rule_at fuel ns) v.children m)
          m
          v
          lo
          hi
          (default_children ns rs)
  unfolding default_children_at default_children
  no_children fuel v m lo hi rs e e' e'' = record {
    changes = record {
      memory = m;
      returns = rw e refl;
      grows = omega arith;
      keeps = λ a l u. refl;
    };
    owns = inl (e, ap (default_children ns) e', e'');
  }

  some_children :
      (fuel : ℕ) (v : RuleStruct) (m : Memory) (lo hi : Ptr) (rs : RuleSpecs)
      → v.children ≡ some (slice lo (count rs))
      → ChangesAll
          (for_copies (default_rule_at fuel ns) lo (count rs) m)
          m
          lo
          (lo + count rs)
          hi
          (default_children ns rs)
      → ChangesChildren
          (default_children_at (default_rule_at fuel ns) v.children m)
          m
          v
          lo
          hi
          (default_children ns rs)
  unfolding default_children_at
  some_children fuel v m lo hi rs e all =
      let n = count-default_children ns rs in
      record {
        changes = record {
          memory = all.memory;
          returns = rw e all.returns;
          grows = all.grows;
          keeps = λ a l u. all.keeps a l (omega arith);
        };
        owns = inr (rw n e, rw n all.owns);
      }

  mutual
    unfolding default_rule_at for_copies Owns OwnAll size size_of_children default_children

    pub default_rule_at_lem :
        (fuel : ℕ) (m : Memory) (p lo hi : Ptr) (v : RuleStruct) (r : RuleSpec)
        → m.cell p ≡ some (rule_cell v)
        → Owns m v lo hi r
        → (p < lo) ⊎ (hi ≤ p)
        → hi ≤ m.next
        → p < m.next
        → size r ≤ fuel
        → ChangesRule (default_rule_at fuel ns p m) m p v lo hi (default_rule ns r)
    default_rule_at_lem zero m p lo hi v (rule type service children) at_p own outside top lt
          enough =
        absurd (omega arith)
    default_rule_at_lem (suc fuel) m p lo hi v (rule type service children) at_p
          (t, mid, s, inl (e, e', e'')) outside top lt enough =
        let s2 = default_service_set m p lo mid v service s (omega arith) (omega arith) in
        assemble ns fuel m p lo mid hi v type service children at_p t outside
          (OwnsService-le m v.service lo mid service s) (omega arith) top lt s2
          (no_children fuel v s2.memory mid hi children e e' e'')
    default_rule_at_lem (suc fuel) m p lo hi v (rule type service children) at_p
          (t, mid, s, inr (e, own)) outside top lt enough =
        let ordered = OwnsService-le m v.service lo mid service s in
        let ordered' = OwnAll-le m mid (mid + count children) hi children own in
        let s2 = default_service_set m p lo mid v service s (omega arith) (omega arith) in
        assemble ns fuel m p lo mid hi v type service children at_p t outside ordered (omega arith)
          top lt s2
          (some_children fuel v s2.memory mid hi children e (
            default_all_lem fuel s2.memory mid (mid + count children) hi children
              (OwnAll-frame m s2.memory mid (mid + count children) hi children
                (λ a l u.
                  s2.keeps a (omega arith) (inr (omega arith))
                  ∙ write-other m p a (with_type v) (omega arith))
                (λ a l u.
                  s2.keeps a (omega arith) (inr (omega arith))
                  ∙ write-other m p a (with_type v) (omega arith))
                own)
              (omega arith) (omega (arith, s2.grows)) (omega arith)))

    default_all_lem :
        (fuel : ℕ) (m : Memory) (a lo hi : Ptr) (rs : RuleSpecs)
        → OwnAll m a lo hi rs
        → a + count rs ≤ lo
        → hi ≤ m.next
        → size_of_children rs ≤ fuel
        → ChangesAll
            (for_copies (default_rule_at fuel ns) a (count rs) m)
            m
            a
            lo
            hi
            (default_children ns rs)
    default_all_lem fuel m a lo hi nil e before top enough = record {
      changes = record { memory = m; returns = refl; grows = omega arith; keeps = λ b l u. refl };
      owns = e;
    }
    default_all_lem fuel m a lo hi (cons r rs) (v, at_a, mid, own, others) before top enough =
        let ordered = Owns-le m v lo mid r own in
        let ordered' = OwnAll-le m (suc a) mid hi rs others in
        let m1 = with_local v m in
        let first =
          default_rule_at_lem fuel m1 m.next lo mid v r (write-same m m.next m.next (rule_cell v))
            (Owns-frame m m1 v lo mid r
              (λ b l u. write-other m m.next b (rule_cell v) (omega arith)) own)
            (inr (omega arith)) (omega arith) (omega arith) (omega arith) in
        join ns fuel m a lo mid hi v r rs at_a own (omega arith) ordered' top first (
          default_all_lem fuel first.memory (suc a) mid hi rs
            (OwnAll-frame m first.memory (suc a) mid hi rs
              (λ b l u.
                first.keeps b (omega arith) (omega arith) (inr l)
                ∙ write-other m m.next b (rule_cell v) (omega arith))
              (λ b l u.
                first.keeps b (omega arith) (omega arith) (inl (omega arith))
                ∙ write-other m m.next b (rule_cell v) (omega arith))
              others)
            (omega arith) (omega (arith, first.grows)) (omega arith))
