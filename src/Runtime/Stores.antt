-- ===== src/Runtime/Stores.antt =====
-- What the cache gives back after a write through a pointer.
use memcached_operator.Prelude.{
  String, eq_iff, eq_refl, ◌≡◌, ap, ◌∙◌, Bool, true, inl, inr, Option, some, List, [], ◌∷◌, arith,
  find_first, Bool-cases, subst,
}
use memcached_operator.Api.Meta.{ObjectMeta}
use memcached_operator.Runtime.Listers.{named, replace}

find_first_sound {ℓ} :
    {A : Type ℓ} (p : A → Bool) (xs : List A) (x : A) → find_first p xs ≡ some x → p x ≡ true
find_first_sound p [] x h = cc
find_first_sound p (y ∷ ys) x h = elim (Bool-cases (p y)) [
  | inl e ↦ subst (λ z. p z ≡ true) (y-is e) e
  | inr e ↦ find_first_sound p ys x (rw e at h)
]
  where
    y-is : p y ≡ true → y ≡ x
    y-is e = ground arith

named-eq :
    (ns n : String) (m : ObjectMeta) → named ns n m ≡ true → (m.namespace ≡ ns) × (m.name ≡ n)
named-eq ns n m h = ground (arith, eq_iff m.namespace ns, eq_iff m.name n)

module _ {A : Type 0} (meta : A → ObjectMeta) (ns n : String) where
  abbrev find : List A → Option A
  find xs = find_first (λ x. named ns n (meta x)) xs

  found_in_replace :
      (a : A) (xs : List A) (x : A)
      → (meta a).namespace ≡ ns
      → (meta a).name ≡ n
      → find xs ≡ some x
      → find (replace meta a xs) ≡ some a
  found_in_replace a [] x same_ns same_n h = cc
  found_in_replace a (y ∷ ys) x same_ns same_n h = elim (Bool-cases (named ns n (meta y))) [
    | inl e ↦ rw (same_ns, same_n, e, same_ns, same_n, eq_refl ns, eq_refl n)
    | inr e ↦ rw (same_ns, same_n, e, e) (found_in_replace a ys x same_ns same_n (rw e at h))
  ]

  -- The object that was found is written: the next search finds what was written.
  pub find-replace :
      (a : A) (xs : List A) (x : A)
      → meta a ≡ meta x
      → find xs ≡ some x
      → find (replace meta a xs) ≡ some a
  find-replace a xs x same h =
      let (same_ns, same_n) =
        named-eq ns n (meta x) (find_first_sound (λ y. named ns n (meta y)) xs x h) in
      found_in_replace a xs x (ap (λ m. m.namespace) same ∙ same_ns)
        (ap (λ m. m.name) same ∙ same_n) h
