-- ===== src/Tests/Sorting.antt =====
-- The insertion sort of the test libraries keeps the contract of sort.Slice.
use mathlib.Core.List.{Perm}
use mathlib.Core.List.Perm
use memcached_operator.Prelude.{◌≡◌, Bool, false, List, [], ◌∷◌, Bool-cases, inl, inr}
use memcached_operator.Api.Objects.{Deployment}
use memcached_operator.Operator.Lookup.Newest.{IsStrictWeak, InOrder, SortsSlice}
use memcached_operator.Tests.Data.{insert_sorted, insertion_sort}

module _ (less : Deployment → Deployment → Bool) where
  perm-insert_sorted :
      (d : Deployment) (ds : List Deployment) → Perm (insert_sorted less d ds) (d ∷ ds)
  perm-insert_sorted d [] = Perm.refl (d ∷ [])
  perm-insert_sorted d (e ∷ ds) = elim (Bool-cases (less d e)) [
    | inl h ↦ rw h (Perm.refl (d ∷ e ∷ ds))
    | inr h ↦ rw h (Perm.trans (Perm.cons e (perm-insert_sorted d ds)) (Perm.swap d e ds))
  ]

  perm-insertion_sort : (ds : List Deployment) → Perm (insertion_sort less ds) ds
  perm-insertion_sort [] = Perm.nil
  perm-insertion_sort (d ∷ ds) =
      Perm.trans (perm-insert_sorted d (insertion_sort less ds))
        (Perm.cons d (perm-insertion_sort ds))

  module _ (order : IsStrictWeak less) where
    insert_after-InOrder :
        (b d : Deployment) (ds : List Deployment)
        → less d b ≡ false
        → InOrder less (b ∷ ds)
        → InOrder less (b ∷ insert_sorted less d ds)
    insert_after-InOrder b d [] after h = (after, tt)
    insert_after-InOrder b d (e ∷ ds) after (first, rest) = elim (Bool-cases (less d e)) [
      | inl m ↦ rw m (after, (order.asymmetric d e m, rest))
      | inr m ↦ rw m (first, insert_after-InOrder e d ds m rest)
    ]

    insert_sorted-InOrder :
        (d : Deployment) (ds : List Deployment)
        → InOrder less ds
        → InOrder less (insert_sorted less d ds)
    insert_sorted-InOrder d [] h = tt
    insert_sorted-InOrder d (e ∷ ds) h = elim (Bool-cases (less d e)) [
      | inl m ↦ rw m (order.asymmetric d e m, h)
      | inr m ↦ rw m (insert_after-InOrder e d ds m h)
    ]

    insertion_sort-InOrder : (ds : List Deployment) → InOrder less (insertion_sort less ds)
    insertion_sort-InOrder [] = tt
    insertion_sort-InOrder (d ∷ ds) =
        insert_sorted-InOrder d (insertion_sort less ds) (insertion_sort-InOrder ds)

pub insertion_sort-SortsSlice : SortsSlice insertion_sort
insertion_sort-SortsSlice = record {
  perm = λ less ds order. perm-insertion_sort less ds;
  ordered = λ less ds order. insertion_sort-InOrder less order ds;
}
