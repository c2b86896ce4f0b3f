-- ===== src/Informers/Laws.antt =====
-- What a sequence of calls of the factory does: the informer of a type is run at most once, and those that
-- were asked for before a Start are run by it.
use memcached_operator.Prelude.{
  String, ◌==◌, Bool, true, false, none, some, List, [], ◌∷◌, ◌++◌, Dict, lookup, lookup-insert,
  if◌then◌else◌, ◌≡◌, ◌≢◌, ◌⊎◌, inl, inr, refl, sym, ap, ◌∙◌, Bool-cases, Option-cases, arith,
  eq_iff, eq_refl, All, All-append_intro, All-map, Option-map, ◌||◌, subst,
}
use memcached_operator.Informers.{
  Factory, new_factory, is_started, mark_started, informer_for, start_all, start, started,
  sync_results, wait_for_cache_sync,
}

-- A call of a method.
pub data Call (Informer : Type 0) : Type 0 where
  informer_call : String → Informer → Call Informer
  start_call : Call Informer

-- No text stands twice in a list.
abbrev pub IsDistinct : List String → Type 0
IsDistinct [] = Unit
IsDistinct (t ∷ ts) = All (λ u. t ≢ u) ts × IsDistinct ts

IsDistinct-append :
    (xs ys : List String)
    → IsDistinct xs
    → IsDistinct ys
    → All (λ x. All (λ y. x ≢ y) ys) xs
    → IsDistinct (xs ++ ys)
IsDistinct-append [] ys h h' h'' = h'
IsDistinct-append (x ∷ xs) ys (a, h) h' (b, h'') =
    (All-append_intro (λ u. x ≢ u) xs ys a b, IsDistinct-append xs ys h h' h'')

module _ {Informer : Type 0} where
  abbrev pub types_of : List (String × Informer) → List String
  types_of [] = []
  types_of ((type, informer) ∷ rest) = type ∷ types_of rest

  -- The types of the informers that a sequence of calls runs, in order, and the factory afterwards.
  unfoldable pub calls : List (Call Informer) → Factory Informer → List String × Factory Informer
  calls [] f = ([], f)
  calls (informer_call type informer ∷ rest) f = calls rest (informer_for type (λ _. informer) f).1
  calls (start_call ∷ rest) f =
      let (run, f') = start f in let (later, f'') = calls rest f' in (types_of run ++ later, f'')

  is_started-mark_started :
      (t type : String) (f : Factory Informer)
      → is_started t (mark_started type f) ≡ (type == t || is_started t f)
  unfolding is_started mark_started
  is_started-mark_started t type f = ground (arith, lookup-insert type t true f.started_informers)

  -- The factory at the next round of the loop.
  abbrev next_round : String → Factory Informer → Factory Informer
  next_round type f = if is_started type f then f else mark_started type f

  module _ (t type : String) (f : Factory Informer) where
    next_round-keeps : is_started t f ≡ true → is_started t (next_round type f) ≡ true
    next_round-keeps h = ground (arith, is_started-mark_started t type f)

  next_round-marks :
      (type : String) (f : Factory Informer) → is_started type (next_round type f) ≡ true
  next_round-marks type f = ground (arith, is_started-mark_started type type f, eq_refl type)

  -- What is started stays started.
  start_all-keeps :
      (d : Dict Informer) (f : Factory Informer) (t : String)
      → is_started t f ≡ true
      → is_started t (start_all d f).1 ≡ true
  unfolding start_all
  start_all-keeps [] f t h = h
  start_all-keeps ((type, informer) ∷ rest) f t h =
      start_all-keeps rest (next_round type f) t (next_round-keeps t type f h)

  -- Marking a type: what it needs to be known of.
  module _ (type : String) (f : Factory Informer) where
    mark_started-marks : is_started type (mark_started type f) ≡ true
    mark_started-marks = ground (arith, is_started-mark_started type type f, eq_refl type)

    mark_started-new :
        (t : String) → is_started t (mark_started type f) ≡ false → is_started t f ≡ false
    mark_started-new t h = ground (arith, is_started-mark_started t type f)

    mark_started-differs : (t : String) → is_started t (mark_started type f) ≡ false → type ≢ t
    mark_started-differs t h same = ground (arith, is_started-mark_started t type f, eq_iff type t)

  -- What the loop runs was not started before.
  start_all-new :
      (d : Dict Informer) (f : Factory Informer)
      → All (λ t. is_started t f ≡ false) (types_of (start_all d f).0)
  unfolding start_all
  start_all-new [] f = tt
  start_all-new ((type, informer) ∷ rest) f = elim (Bool-cases (is_started type f)) [
    | inl e ↦ rw e (start_all-new rest f)
    | inr e ↦ rw e (
      e,
      All-map _ _ (mark_started-new type f) (types_of (start_all rest (mark_started type f)).0)
          (start_all-new rest (mark_started type f)),
    )
  ]

  -- It is started afterwards, as every type of the map is.
  start_all-marks :
      (d : Dict Informer) (f : Factory Informer)
      → All (λ t. is_started t (start_all d f).1 ≡ true) (types_of (start_all d f).0)
  unfolding start_all
  start_all-marks [] f = tt
  start_all-marks ((type, informer) ∷ rest) f = elim (Bool-cases (is_started type f)) [
    | inl e ↦ rw e (start_all-marks rest f)
    | inr e ↦ rw e (
      start_all-keeps rest (mark_started type f) type (mark_started-marks type f),
      start_all-marks rest (mark_started type f),
    )
  ]

  start_all-IsDistinct :
      (d : Dict Informer) (f : Factory Informer) → IsDistinct (types_of (start_all d f).0)
  unfolding start_all
  start_all-IsDistinct [] f = tt
  start_all-IsDistinct ((type, informer) ∷ rest) f = elim (Bool-cases (is_started type f)) [
    | inl e ↦ rw e (start_all-IsDistinct rest f)
    | inr e ↦ rw e (
      All-map _ _ (mark_started-differs type f) (types_of (start_all rest (mark_started type f)).0)
          (start_all-new rest (mark_started type f)),
      start_all-IsDistinct rest (mark_started type f),
    )
  ]

  is_started-informer_for :
      (type : String) (informer : Informer) (f : Factory Informer) (t : String)
      → is_started t (informer_for type (λ _. informer) f).1 ≡ is_started t f
  unfolding is_started informer_for
  is_started-informer_for type informer f t = elim (Option-cases (lookup type f.informers)) [
    | inl e ↦ rw (informer_for, e) refl
    | inr (i, e) ↦ rw (informer_for, e) refl
  ]

  start-new :
      (f : Factory Informer) (t : String)
      → is_started t (start f).1 ≡ false
      → is_started t f ≡ false
  unfolding start
  start-new f t h = elim (Bool-cases (is_started t f)) [
    | inl e ↦ cc (start_all-keeps f.informers f t e, h)
    | inr e ↦ e
  ]

  -- A later start runs nothing that was started.
  calls-new :
      (cs : List (Call Informer)) (f : Factory Informer)
      → All (λ t. is_started t f ≡ false) (calls cs f).0
  unfolding calls start
  calls-new [] f = tt
  calls-new (informer_call type informer ∷ rest) f =
      let f' = (informer_for type (λ _. informer) f).1 in
      All-map _ _
        (λ (t : String) (h : is_started t f' ≡ false).
          sym (is_started-informer_for type informer f t) ∙ h)
        (calls rest f').0 (calls-new rest f')
  calls-new (start_call ∷ rest) f =
      let f' = (start f).1 in
      All-append_intro _ (types_of (start f).0) (calls rest f').0 (start_all-new f.informers f)
        (All-map _ _ (start-new f) (calls rest f').0 (calls-new rest f'))

  calls-IsDistinct_from :
      (cs : List (Call Informer)) (f : Factory Informer) → IsDistinct (calls cs f).0
  unfolding calls start
  calls-IsDistinct_from [] f = tt
  calls-IsDistinct_from (informer_call type informer ∷ rest) f =
      calls-IsDistinct_from rest (informer_for type (λ _. informer) f).1
  calls-IsDistinct_from (start_call ∷ rest) f =
      let f' = (start f).1 in
      IsDistinct-append (types_of (start f).0) (calls rest f').0
        (start_all-IsDistinct f.informers f) (calls-IsDistinct_from rest f')
        (All-map _ _
          (λ (x : String) (h : is_started x f' ≡ true).
            All-map (λ y. is_started y f' ≡ false) (λ y. x ≢ y)
              (λ (y : String) (h' : is_started y f' ≡ false) (same : x ≡ y). cc) (calls rest f').0
              (calls-new rest f'))
          (types_of (start f).0) (start_all-marks f.informers f))

  -- In a sequence of calls of InformerFor and Start on a new factory, in any order, the types of
  -- the informers that are run are distinct: no type has its informer run twice.
  pub calls-IsDistinct : (cs : List (Call Informer)) → IsDistinct (calls cs new_factory).0
  calls-IsDistinct cs = calls-IsDistinct_from cs new_factory

  start_all-informers :
      (d : Dict Informer) (f : Factory Informer) → (start_all d f).1.informers ≡ f.informers
  unfolding start_all mark_started
  start_all-informers [] f = refl
  start_all-informers ((type, informer) ∷ rest) f = elim (Bool-cases (is_started type f)) [
    | inl e ↦ rw e (start_all-informers rest f)
    | inr e ↦ rw e (start_all-informers rest (mark_started type f))
  ]

  -- The loop starts every type of the map.
  start_all_complete :
      (d : Dict Informer) (f : Factory Informer) (t : String) (i : Informer)
      → lookup t d ≡ some i
      → is_started t (start_all d f).1 ≡ true
  unfolding start_all lookup
  start_all_complete [] f t i h = cc
  start_all_complete ((type, informer) ∷ rest) f t i h =
      let f' = next_round type f in
      elim (Bool-cases (type == t)) [
        | inl same ↦
            subst (λ x. is_started x (start_all rest f').1 ≡ true) ((eq_iff type t).0 same)
              (start_all-keeps rest f' type (next_round-marks type f))
        | inr differs ↦ start_all_complete rest f' t i (rw differs at h)
      ]

  same_test :
      (type t : String) (f : Factory Informer)
      → ((type == t) ≡ false) ⊎ (is_started type f ≡ is_started t f)
  same_test type t f = elim (Bool-cases (type == t)) [
    | inl same ↦ inr (ap (λ x. is_started x f) ((eq_iff type t).0 same))
    | inr differs ↦ inl differs
  ]

  -- What is waited for.
  sync_results-started :
      (synced : Informer → Bool) (d : Dict Informer) (f : Factory Informer) (t : String)
      → lookup t (sync_results synced (started d f))
        ≡ (if is_started t f then Option-map synced (lookup t d) else none)
  unfolding started lookup
  sync_results-started synced [] f t = ground arith
  sync_results-started synced ((type, informer) ∷ rest) f t =
      ground (arith, sync_results-started synced rest f t, same_test type t f)

  -- After Start, on any factory, the result of WaitForCacheSync for a type is what
  -- cache.WaitForCacheSync says of the informer of this type, and there is none where the type
  -- has no informer: every informer that was asked for is started and waited for.
  pub wait_for_cache_sync-start :
      (synced : Informer → Bool) (f : Factory Informer) (t : String)
      → lookup t (wait_for_cache_sync synced (start f).1) ≡ Option-map synced (lookup t f.informers)
  unfolding wait_for_cache_sync start
  wait_for_cache_sync-start synced f t =
      let f' = (start_all f.informers f).1 in
      let results = sync_results-started synced f'.informers f' t in
      let kept = ap (lookup t) (start_all-informers f.informers f) in
      elim (Option-cases (lookup t f.informers)) [
        | inl missing ↦ ground (arith, results, kept, missing)
        | inr (i, found) ↦
            ground (arith, results, kept, found, start_all_complete f.informers f t i found)
      ]
