-- ===== src/Prelude/Kept.antt =====
-- What a filter and a permutation leave of a property that all elements have.
use mathlib.Core.Logic.{∥∥₁_elim}
use mathlib.Core.List.{List, [], ◌∷◌, Permᴰ, Perm}
use memcached_operator.Prelude.Tests.{Bool-cases}
use memcached_operator.Prelude.Lists.{All, keep}
use mathlib.Core.Path.{sym, subst}
use mathlib.Core.Logic.{inl, inr}
use mathlib.Core.Bool.{Bool}

module _ {A : Type 0} (P : A → Type 0) where
  pub All-keep : (p : A → Bool) (xs : List A) → All P xs → All P (keep p xs)
  All-keep p [] h = tt
  All-keep p (x ∷ xs) (h, hs) = elim (Bool-cases (p x)) [
    | inl e ↦ rw e (h, All-keep p xs hs)
    | inr e ↦ rw e (All-keep p xs hs)
  ]

  All-permᴰ : {xs ys : List A} → Permᴰ xs ys → All P ys → All P xs
  All-permᴰ Permᴰ.nil h = tt
  All-permᴰ (Permᴰ.cons e d) (h, hs) = (subst P (sym e) h, All-permᴰ d hs)
  All-permᴰ (Permᴰ.swap e e') (h, (h', hs)) = (subst P (sym e) h', (subst P (sym e') h, hs))
  All-permᴰ (Permᴰ.trans d d') h = All-permᴰ d (All-permᴰ d' h)

  module _ (proposition : (x : A) → IsProp (P x)) where
    pub All-IsProp : (xs : List A) → IsProp (All P xs)
    All-IsProp [] h k = λ i. tt
    All-IsProp (x ∷ xs) (h, hs) (k, ks) = λ i. (proposition x h k i, All-IsProp xs hs ks i)

    pub All-perm : (xs ys : List A) → Perm xs ys → All P ys → All P xs
    All-perm xs ys p h = ∥∥₁_elim p (All-IsProp xs) (λ d. All-permᴰ d h)
