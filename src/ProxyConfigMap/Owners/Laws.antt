-- ===== src/ProxyConfigMap/Owners/Laws.antt =====
-- Who owns a ConfigMap after applyOwnerRefToCM.
use memcached_operator.Prelude.{
  String, ◌==◌, eq_iff, eq_refl, ◌≡◌, refl, ap, sym, ◌∙◌, Bool, true, false, not, ◌&&◌, ◌||◌, inl,
  inr, none, some, List, [], ◌∷◌, ◌++◌, arith, Bool-cases, exists, keep, find_first, or-true,
  or-false, subst, Option-cases,
}
use memcached_operator.Api.Meta.{ObjectMeta, OwnerReference, is_controlled_by, get_controller_of}
use memcached_operator.Api.Objects.{ConfigMap, ReplicaSet}
use memcached_operator.Operator.Owners.{is_owned_by, new_owner_ref, replica_set_type}
use memcached_operator.ProxyConfigMap.Owners.{with_owners, released_owners}

-- Whether a reference with a given UID is in a list.
abbrev has_uid : String → List OwnerReference → Bool
has_uid u refs = exists (λ ref. ref.uid == u) refs

has_uid-append :
    (u : String) (refs : List OwnerReference) (r : OwnerReference)
    → has_uid u (refs ++ r ∷ []) ≡ has_uid u refs || (r.uid == u)
has_uid-append u [] r = ground arith
has_uid-append u (x ∷ refs) r = ground (arith, has_uid-append u refs r)

has_uid-keep :
    (u gone : String) (refs : List OwnerReference)
    → has_uid u (keep (λ ref. not (ref.uid == gone)) refs) ≡ not (u == gone) && has_uid u refs
has_uid-keep u gone [] = ground arith
has_uid-keep u gone (x ∷ refs) =
    ground (arith, has_uid-keep u gone refs, eq_iff u gone, eq_iff x.uid gone, eq_iff x.uid u)

module _ (p : ObjectMeta) (rs : ReplicaSet) (cm : ConfigMap) where
  abbrev pub released : ConfigMap
  released = with_owners cm (released_owners p rs cm)

  owned_same :
      (o : ObjectMeta)
      → is_owned_by cm.meta rs.meta ≡ true
      → is_owned_by cm.meta o ≡ is_owned_by cm.meta o || (rs.meta.uid == o.uid)
  unfolding is_owned_by
  owned_same o h = elim (Bool-cases (rs.meta.uid == o.uid)) [
    | inl e ↦
        let owned : has_uid o.uid cm.meta.owner_references ≡ true =
          subst (λ u. has_uid u cm.meta.owner_references ≡ true) ((eq_iff _ _).0 e) h in
        rw owned
    | inr e ↦ rw (e, or-false (has_uid o.uid cm.meta.owner_references))
  ]

  abbrev reference : OwnerReference
  reference = new_owner_ref rs.meta replica_set_type

  abbrev added : List OwnerReference
  added = cm.meta.owner_references ++ reference ∷ []

  released_owners-known :
      is_owned_by cm.meta rs.meta ≡ true
      → released_owners p rs cm ≡ keep (λ ref. not (ref.uid == p.uid)) cm.meta.owner_references
  unfolding released_owners
  released_owners-known h = rw h

  released_owners-unknown :
      is_owned_by cm.meta rs.meta ≡ false
      → released_owners p rs cm ≡ keep (λ ref. not (ref.uid == p.uid)) added
  unfolding released_owners
  released_owners-unknown h = rw h

  uid-reference : reference.uid ≡ rs.meta.uid
  unfolding new_owner_ref
  uid-reference = refl

  -- After applyOwnerRefToCM has found the replica set, the config map is owned by no object with
  -- the UID of the proxy, and by any other object exactly if it was owned by it before or the
  -- object has the UID of the replica set.
  pub is_owned_by-released :
      (o : ObjectMeta)
      → is_owned_by released.meta o
        ≡ not (o.uid == p.uid) && (is_owned_by cm.meta o || (rs.meta.uid == o.uid))
  is_owned_by-released o = elim (Bool-cases (is_owned_by cm.meta rs.meta)) [
    | inl h ↦
        unfold is_owned_by in
        ap (has_uid o.uid) (released_owners-known h)
        ∙ has_uid-keep o.uid p.uid cm.meta.owner_references
        ∙ ap (λ (b : Bool). not (o.uid == p.uid) && b) (owned_same o h)
    | inr h ↦
        unfold is_owned_by in
        ap (has_uid o.uid) (released_owners-unknown h)
        ∙ has_uid-keep o.uid p.uid added
        ∙ ap (λ (b : Bool). not (o.uid == p.uid) && b)
            (has_uid-append o.uid cm.meta.owner_references reference
              ∙ ap (λ (u : String). has_uid o.uid cm.meta.owner_references || (u == o.uid))
                  uid-reference)
  ]

-- What makes a reference the controller.
abbrev marked : OwnerReference → Bool
marked x = elim x.controller [ none ↦ false | some b ↦ b ]

controlled-owned :
    (u : String) (refs : List OwnerReference) (r : OwnerReference)
    → find_first marked refs ≡ some r
    → (r.uid == u) ≡ true
    → has_uid u refs ≡ true
controlled-owned u [] r h e = cc
controlled-owned u (x ∷ refs) r h e = elim (Bool-cases (marked x)) [
  | inl here ↦
      let same : x ≡ r = cc (rw here at h) in
      rw (subst (λ (y : OwnerReference). (y.uid == u) ≡ true) (sym same) e)
  | inr later ↦ rw (controlled-owned u refs r (rw later at h) e) (or-true (x.uid == u))
]

-- An object that is controlled by another one in the sense of IsControlledBy is owned by it in
-- the sense of IsOwnedBy.
is_owned_by-is_controlled_by :
    (m owner : ObjectMeta) → is_controlled_by m owner ≡ true → is_owned_by m owner ≡ true
unfolding is_owned_by is_controlled_by get_controller_of
is_owned_by-is_controlled_by m owner h = elim (Option-cases (get_controller_of m)) [
  | inl e ↦ cc (rw (e, is_controlled_by) at h)
  | inr (r, e) ↦ controlled-owned owner.uid m.owner_references r e (rw (e, is_controlled_by) at h)
]

-- After applyOwnerRefToCM has found the replica set, the config map is not controlled by the
-- proxy in the sense of IsControlledBy.
is_controlled_by-released :
    (p : ObjectMeta) (rs : ReplicaSet) (cm : ConfigMap)
    → is_controlled_by (released p rs cm).meta p ≡ false
is_controlled_by-released p rs cm = elim (Bool-cases (is_controlled_by (released p rs cm).meta p)) [
  | inr h ↦ h
  | inl h ↦ cc (
    is_owned_by-is_controlled_by (released p rs cm).meta p h,
    is_owned_by-released p rs cm p,
    eq_refl p.uid,
  )
]
