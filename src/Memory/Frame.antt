-- ===== src/Memory/Frame.antt =====
-- What stands at addresses whose cells stay as they are stands for the same.
use memcached_operator.Prelude.{
  zero, suc, ◌+◌, ◌<◌, ◌≤◌, ◌≡◌, ◌∙◌, Option, none, some, inl, inr, arith,
}
use memcached_operator.Api.Rules.{ServiceSpec, RuleSpec, RuleSpecs, rule, nil, cons}
use memcached_operator.Memory.{Ptr, RuleStruct, Cell, rule_cell, service_cell, Memory}
use memcached_operator.Memory.Shape.{count, PointsTo, Denotes, DenoteAll, OwnsService, Owns, OwnAll}

-- An interval of addresses is not empty the wrong way round.
mutual
  unfolding Owns OwnAll

  pub Owns-le :
      (m : Memory) (v : RuleStruct) (lo hi : Ptr) (r : RuleSpec) → Owns m v lo hi r → lo ≤ hi
  Owns-le m v lo hi (rule type none children) (_, mid, (_, e), inl (_, _, e')) = omega arith
  Owns-le m v lo hi (rule type none children) (_, mid, (_, e), inr (_, h)) =
      omega (arith, OwnAll-le m mid (mid + count children) hi children h)
  Owns-le m v lo hi (rule type (some s) children) (_, mid, (_, e, _), inl (_, _, e')) = omega arith
  Owns-le m v lo hi (rule type (some s) children) (_, mid, (_, e, _), inr (_, h)) =
      omega (arith, OwnAll-le m mid (mid + count children) hi children h)

  pub OwnAll-le : (m : Memory) (a lo hi : Ptr) (rs : RuleSpecs) → OwnAll m a lo hi rs → lo ≤ hi
  OwnAll-le m a lo hi nil e = omega arith
  OwnAll-le m a lo hi (cons r rs) (v, _, mid, h, h') =
      omega (arith, Owns-le m v lo mid r h, OwnAll-le m (suc a) mid hi rs h')

pub OwnsService-le :
    (m : Memory) (p : Option Ptr) (lo hi : Ptr) (s : Option ServiceSpec)
    → OwnsService m p lo hi s
    → lo ≤ hi
OwnsService-le m p lo hi none (_, e) = omega arith
OwnsService-le m p lo hi (some s) (_, e, _) = omega arith

module _ (m m' : Memory) where
  pub PointsTo-frame :
      {A : Type 0} (kind : A → Cell) (above below : Ptr) (p : Option Ptr) (o : Option A)
      → ((a : Ptr) → above ≤ a → a < below → m'.cell a ≡ m.cell a)
      → PointsTo kind m above below p o
      → PointsTo kind m' above below p o
  PointsTo-frame kind above below p none same h = h
  PointsTo-frame kind above below p (some x) same (a, e, ge, lt, h) =
      (a, e, ge, lt, same a ge lt ∙ h)

  -- The cells below an address are the same in both.
  module _ (below : Ptr) (same : (a : Ptr) → a < below → m'.cell a ≡ m.cell a) where
    mutual
      unfolding Denotes DenoteAll

      pub Denotes-frame : (a : Ptr) (r : RuleSpec) → Denotes m below a r → Denotes m' below a r
      Denotes-frame a (rule type service children) (lt, v, h, t, s, inl none_given) = (
        lt,
        v,
        same a lt ∙ h,
        t,
        PointsTo-frame service_cell zero below v.service service (λ b _ l. same b l) s,
        inl none_given,
      )
      Denotes-frame a (rule type service children) (lt, v, h, t, s, inr (base, e, given)) = (
        lt,
        v,
        same a lt ∙ h,
        t,
        PointsTo-frame service_cell zero below v.service service (λ b _ l. same b l) s,
        inr (base, e, DenoteAll-frame base children given),
      )

      pub DenoteAll-frame :
          (a : Ptr) (rs : RuleSpecs) → DenoteAll m below a rs → DenoteAll m' below a rs
      DenoteAll-frame a nil h = h
      DenoteAll-frame a (cons r rs) (h, h') = (Denotes-frame a r h, DenoteAll-frame (suc a) rs h')

  -- The cells of an interval are the same in both.
  pub OwnsService-frame :
      (p : Option Ptr) (lo hi : Ptr) (s : Option ServiceSpec)
      → ((a : Ptr) → lo ≤ a → a < hi → m'.cell a ≡ m.cell a)
      → OwnsService m p lo hi s
      → OwnsService m' p lo hi s
  OwnsService-frame p lo hi none same h = h
  OwnsService-frame p lo hi (some s) same (e, e', h) =
      (e, e', same lo (omega arith) (omega arith) ∙ h)

  mutual
    unfolding Owns OwnAll

    pub Owns-frame :
        (v : RuleStruct) (lo hi : Ptr) (r : RuleSpec)
        → ((a : Ptr) → lo ≤ a → a < hi → m'.cell a ≡ m.cell a)
        → Owns m v lo hi r
        → Owns m' v lo hi r
    Owns-frame v lo hi (rule type service children) same (t, mid, s, inl (e, e', e'')) = (
      t,
      mid,
      OwnsService-frame v.service lo mid service (λ a l u. same a l (omega arith)) s,
      inl (e, e', e''),
    )
    Owns-frame v lo hi (rule type service children) same (t, mid, s, inr (e, given)) =
        let first = OwnsService-le m v.service lo mid service s in
        let last = OwnAll-le m mid (mid + count children) hi children given in
        (
          t,
          mid,
          OwnsService-frame v.service lo mid service (λ a l u. same a l (omega arith)) s,
          inr (
            e,
            OwnAll-frame mid (mid + count children) hi children (λ a l u. same a (omega arith) u)
                (λ a l u. same a (omega arith) (omega arith)) given,
          ),
        )

    -- The elements themselves stand at an interval of their own.
    pub OwnAll-frame :
        (b lo hi : Ptr) (rs : RuleSpecs)
        → ((a : Ptr) → lo ≤ a → a < hi → m'.cell a ≡ m.cell a)
        → ((a : Ptr) → b ≤ a → a < b + count rs → m'.cell a ≡ m.cell a)
        → OwnAll m b lo hi rs
        → OwnAll m' b lo hi rs
    OwnAll-frame b lo hi nil same elements h = h
    OwnAll-frame b lo hi (cons r rs) same elements (v, h, mid, own, others) =
        let first = Owns-le m v lo mid r own in
        let last = OwnAll-le m (suc b) mid hi rs others in
        (
          v,
          elements b (omega arith) (omega arith) ∙ h,
          mid,
          Owns-frame v lo mid r (λ a l u. same a l (omega arith)) own,
          OwnAll-frame (suc b) mid hi rs (λ a l u. same a (omega arith) u)
              (λ a l u. elements a (omega arith) (omega arith)) others,
        )

pub PointsTo-widen :
    {A : Type 0} (kind : A → Cell) (m : Memory) (above above' below below' : Ptr) (p : Option Ptr)
    (o : Option A)
    → above' ≤ above
    → below ≤ below'
    → PointsTo kind m above below p o
    → PointsTo kind m above' below' p o
PointsTo-widen kind m above above' below below' p none le le' h = h
PointsTo-widen kind m above above' below below' p (some x) le le' (a, e, ge, lt, h) =
    (a, e, omega arith, omega arith, h)

-- A struct that shares nothing stands for its rule.
OwnsService-PointsTo :
    (m : Memory) (p : Option Ptr) (lo hi below : Ptr) (s : Option ServiceSpec)
    → OwnsService m p lo hi s
    → hi ≤ below
    → PointsTo service_cell m zero below p s
OwnsService-PointsTo m p lo hi below none (e, _) le = e
OwnsService-PointsTo m p lo hi below (some s) (e, e', h) le = (lo, e, omega arith, omega arith, h)

mutual
  unfolding Owns OwnAll Denotes DenoteAll

  pub Owns-Denotes :
      (m : Memory) (a lo hi below : Ptr) (v : RuleStruct) (r : RuleSpec)
      → m.cell a ≡ some (rule_cell v)
      → Owns m v lo hi r
      → a < below
      → hi ≤ below
      → Denotes m below a r
  Owns-Denotes m a lo hi below v (rule type service children) h (t, mid, s, inl (e, e', e'')) lt
        le =
      (
        lt,
        v,
        h,
        t,
        OwnsService-PointsTo m v.service lo mid below service s (omega arith),
        inl (e, e'),
      )
  Owns-Denotes m a lo hi below v (rule type service children) h (t, mid, s, inr (e, own)) lt le =
      let ordered = OwnAll-le m mid (mid + count children) hi children own in
      (
        lt,
        v,
        h,
        t,
        OwnsService-PointsTo m v.service lo mid below service s (omega arith),
        inr (
          mid,
          e,
          OwnAll-DenoteAll m mid (mid + count children) hi below children own (omega arith) le,
        ),
      )

  OwnAll-DenoteAll :
      (m : Memory) (a lo hi below : Ptr) (rs : RuleSpecs)
      → OwnAll m a lo hi rs
      → a + count rs ≤ below
      → hi ≤ below
      → DenoteAll m below a rs
  OwnAll-DenoteAll m a lo hi below nil own le le' = tt
  OwnAll-DenoteAll m a lo hi below (cons r rs) (v, h, mid, own, others) le le' = (
    Owns-Denotes m a lo mid below v r h own (omega arith)
        (omega (arith, OwnAll-le m (suc a) mid hi rs others)),
    OwnAll-DenoteAll m (suc a) mid hi below rs others (omega arith) le',
  )
