-- ===== src/Informers.antt =====
-- The factory of shared informers: internal/client/informers/externalversions/factory.go. A reflect.Type is a
-- text, and an informer is a value of a type of which nothing is known. The factory's lock makes each call one
-- step.
pub mod Laws
use memcached_operator.Prelude.{
  String, Bool, true, false, Option, none, some, List, [], ◌∷◌, Dict, lookup, insert, if◌then◌else◌,
}

-- The fields of sharedInformerFactory that its methods change.
pub record Factory (Informer : Type 0) : Type 0 where
  pub informers : Dict Informer
  pub started_informers : Dict Bool

module _ {Informer : Type 0} where
  -- NewFilteredSharedInformerFactory
  unfoldable pub new_factory : Factory Informer
  new_factory = record { informers = []; started_informers = [] }

  -- f.startedInformers[informerType]
  unfoldable pub is_started : String → Factory Informer → Bool
  is_started type f = elim (lookup type f.started_informers) [ none ↦ false | some b ↦ b ]

  -- InformerFor, given the type of the object and what newFunc would return; newFunc is called only where the
  -- type has no informer.
  unfoldable pub informer_for :
      String → (new_func : Unit {0} → Informer) → Factory Informer → Informer × Factory Informer
  informer_for type new_func f = elim (lookup type f.informers) [
    | some informer ↦ (informer, f)
    | none ↦
        let informer = new_func tt in
        (informer, record f { informers = insert type informer f.informers })
  ]

  -- f.startedInformers[informerType] = true
  unfoldable pub mark_started : String → Factory Informer → Factory Informer
  mark_started type f = record f { started_informers = insert type true f.started_informers }

  -- The loop of Start, over the entries of the map: the informers that it runs, with their types.
  unfoldable pub start_all :
      Dict Informer → Factory Informer → List (String × Informer) × Factory Informer
  start_all [] f = ([], f)
  start_all ((type, informer) ∷ rest) f =
      let before = is_started type f in
      let (run, f') = start_all rest (if before then f else mark_started type f) in
      (if before then run else (type, informer) ∷ run, f')

  unfoldable pub start : Factory Informer → List (String × Informer) × Factory Informer
  start f = start_all f.informers f

  -- The map of the started informers that WaitForCacheSync makes.
  unfoldable pub started : Dict Informer → Factory Informer → Dict Informer
  started [] f = []
  started ((type, informer) ∷ rest) f =
      let others = started rest f in if is_started type f then (type, informer) ∷ others else others

  abbrev pub sync_results : (Informer → Bool) → Dict Informer → Dict Bool
  sync_results synced [] = []
  sync_results synced ((type, informer) ∷ rest) = (type, synced informer) ∷ sync_results synced rest

  -- WaitForCacheSync, given what cache.WaitForCacheSync says of an informer.
  unfoldable pub wait_for_cache_sync : (Informer → Bool) → Factory Informer → Dict Bool
  wait_for_cache_sync synced f = sync_results synced (started f.informers f)
