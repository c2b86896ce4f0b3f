-- ===== src/Memory/Copy/Trees.antt =====
-- RuleSpec.DeepCopyInto and RuleSpec.DeepCopy copy a whole tree of rules.
use memcached_operator.Prelude.{ℕ, zero, suc, ◌+◌, ◌<◌, ◌≤◌, ◌≡◌, ◌∙◌, refl, some, inl, inr, arith}
use memcached_operator.Api.Rules.{RuleSpec, RuleSpecs, rule, nil, cons}
use memcached_operator.Memory.{
  Ptr, Cell, Memory, rule_cell, write, write-same, write-other, zero_rule,
}
use memcached_operator.Memory.Copy.{copy_rule, for_elements, copy_rule_into}
use memcached_operator.Memory.Shape.{
  count, Denotes, DenoteAll, Owns, OwnAll, size, size_of_children,
}
use memcached_operator.Memory.Frame.{Denotes-frame, DenoteAll-frame, Owns-Denotes}
use memcached_operator.Memory.Copy.Laws.{
  Filled, Copies, CopiesAll, set_elements, service_set, no_elements, assemble, join,
}

mutual
  unfolding copy_rule_into for_elements Denotes DenoteAll Owns OwnAll size size_of_children

  pub copy_rule_into_lem :
      (fuel : ℕ) (m : Memory) (below from out : Ptr) (r : RuleSpec) (c : Cell)
      → Denotes m below from r
      → below ≤ out
      → out < m.next
      → m.cell out ≡ some c
      → size r ≤ fuel
      → Copies (copy_rule_into fuel from out m) m out r
  copy_rule_into_lem zero m below from out (rule type service children) c d lo hi at_out enough =
      absurd (omega arith)
  copy_rule_into_lem (suc fuel) m below from out (rule type service children) c
        (lt, v, h, t, s, inl (none_given, e)) lo hi at_out enough =
      let s2 = service_set m below from out v service c s lo hi in
      assemble fuel m from out v type service children c h t hi at_out s2 (record {
        writes = record {
          memory = s2.memory;
          returns = no_elements fuel v.children out s2.memory none_given;
          grows = omega arith;
          keeps = λ a l ne. refl;
        };
        elements = v.children;
        at_out = s2.at_out;
        owns = inl (none_given, e, refl);
      })
  copy_rule_into_lem (suc fuel) m below from out (rule type service children) c
        (lt, v, h, t, s, inr (base, e, d)) lo hi at_out enough =
      let s2 = service_set m below from out v service c s lo hi in
      let m2 = s2.memory in
      let same2 : (a : Ptr) → a < below → m2.cell a ≡ m.cell a = λ a l.
        s2.keeps a (omega arith) (omega arith) ∙ write-other m out a (rule_cell v) (omega arith) in
      assemble fuel m from out v type service children c h t hi at_out s2 (
        set_elements fuel m2 out (record v { service = s2.pointer }) base children s2.at_out e
          (omega (arith, s2.grows))
          (λ m3 same3 grown filled.
            copy_elements_lem fuel m3 below base m2.next children
              (DenoteAll-frame m m3 below
                (λ a l. same3 a (omega (arith, s2.grows)) (omega arith) ∙ same2 a l) base children
                d)
              (omega (arith, s2.grows)) (omega arith) (λ a l u. filled a l (omega arith))
              (omega arith)))

  copy_elements_lem :
      (fuel : ℕ) (m : Memory) (below from to : Ptr) (rs : RuleSpecs)
      → DenoteAll m below from rs
      → below ≤ to
      → to + count rs ≤ m.next
      → Filled m to (to + count rs)
      → size_of_children rs ≤ fuel
      → CopiesAll (for_elements (copy_rule_into fuel) from to (count rs) m) m to rs
  copy_elements_lem fuel m below from to nil d lo hi filled enough = record {
    memory = m;
    returns = refl;
    grows = omega arith;
    keeps = λ a l u. refl;
    owns = refl;
  }
  copy_elements_lem fuel m below from to (cons r rs) (d, d') lo hi filled enough =
      let (c, at_to) = filled to (omega arith) (omega arith) in
      let first =
        copy_rule_into_lem fuel m below from to r c d lo (omega arith) at_to (omega arith) in
      let m1 = first.memory in
      join fuel m from to r rs hi first (
        copy_elements_lem fuel m1 below (suc from) (suc to) rs
          (DenoteAll-frame m m1 below (λ a l. first.keeps a (omega arith) (omega arith)) (suc from)
            rs d')
          (omega arith) (omega (arith, first.grows))
          (λ a l u.
            let (c', e) = filled a (omega arith) (omega arith) in
            let kept = first.keeps a (omega arith) (omega arith) in (c', kept ∙ e))
          (omega arith))

-- RuleSpec.DeepCopy returns a new struct for the same rule, and the old one stands for it still.
pub copy_rule_lem :
    (fuel : ℕ) (m : Memory) (from : Ptr) (r : RuleSpec)
    → Denotes m m.next from r
    → size r ≤ fuel
    → (m' : Memory) × (copy_rule fuel from m ≡ some (m.next, m'))
      × Denotes m' m'.next m.next r
      × Denotes m' m.next from r
unfolding copy_rule
copy_rule_lem fuel m from r d enough =
    let n = m.next in
    let zero_cell = rule_cell zero_rule in
    let m1 : Memory = record { next = suc n; cell = write m.cell n zero_cell } in
    let same : (a : Ptr) → a < n → m1.cell a ≡ m.cell a =
      λ a l. write-other m n a zero_cell (omega arith) in
    let copies =
      copy_rule_into_lem fuel m1 n from n r zero_cell (Denotes-frame m m1 n same from r d)
        (omega arith) (omega arith) (write-same m n n zero_cell) enough in
    let m2 = copies.memory in
    (
      m2,
      rw copies.returns refl,
      Owns-Denotes m2 n (suc n) m2.next m2.next copies.copied r copies.at_out copies.owns
          (omega (arith, copies.grows)) (omega arith),
      Denotes-frame m m2 n (λ a l. copies.keeps a (omega arith) (omega arith) ∙ same a l) from r d,
    )
