-- ===== src/Operator/Lookup/Newest.antt =====
-- GetDeploymentsForProxy: the newest deployment comes first. sort.Slice is known by its contract.
use mathlib.Core.List.{Perm}
use memcached_operator.Prelude.{
  ◌≤◌, ◌≡◌, arith, true, false, refl, sym, Bool, Option, none, some, List, [], ◌∷◌, All, keep,
  subst,
}
use memcached_operator.Api.Meta.{ObjectMeta, is_controlled_by}
use memcached_operator.Api.Objects.{Deployment}
use memcached_operator.Runtime.Effects.{Error}
use memcached_operator.Runtime.Env.{Env, Resource}
use memcached_operator.Runtime.Sync.{Cache, pure}
use memcached_operator.Runtime.Listers.{in_namespace, list_deployments}
use memcached_operator.Operator.Lookup.{newer, get_deployments_for_proxy, split_first}

-- Created at the same time as the first deployment or earlier.
abbrev pub NotNewer : Deployment → Deployment → Type 0
NotNewer d d' = d'.meta.creation_timestamp ≤ d.meta.creation_timestamp

abbrev Descending : List Deployment → Type 0
Descending [] = Unit
Descending (d ∷ ds) = All (NotNewer d) ds × Descending ds

-- What sort.Slice asks of its test: a strict weak order.
pub record IsStrictWeak (less : Deployment → Deployment → Bool) : Type 0 where
  pub asymmetric : (a b : Deployment) → less a b ≡ true → less b a ≡ false
  pub negatively_transitive :
      (a b c : Deployment) → less a b ≡ false → less b c ≡ false → less a c ≡ false

-- What sort.SliceIsSorted tests: no element comes before its left neighbour.
abbrev pub InOrder : (Deployment → Deployment → Bool) → List Deployment → Type 0
InOrder less [] = Unit
InOrder less (d ∷ []) = Unit
InOrder less (d ∷ e ∷ ds) = (less e d ≡ false) × InOrder less (e ∷ ds)

-- The contract of sort.Slice: for a test that is a strict weak order, a permutation of the elements that
-- is in the order of the test. Elements that are equal for the test may change places.
pub record SortsSlice
    (sort_slice : (Deployment → Deployment → Bool) → List Deployment → List Deployment)
    : Type 0 where
  pub perm :
      (less : Deployment → Deployment → Bool) (ds : List Deployment)
      → IsStrictWeak less
      → Perm (sort_slice less ds) ds
  pub ordered :
      (less : Deployment → Deployment → Bool) (ds : List Deployment)
      → IsStrictWeak less
      → InOrder less (sort_slice less ds)

-- The test of the operator is one, by the creation times.
pub newer-IsStrictWeak : IsStrictWeak newer
newer-IsStrictWeak = record {
  asymmetric = λ a b h. ground arith;
  negatively_transitive = λ a b c h h'. ground arith;
}

not_newer : (d e : Deployment) → newer e d ≡ false → NotNewer d e
not_newer d e h = ground arith

All-NotNewer :
    (d e : Deployment) (ds : List Deployment)
    → NotNewer d e
    → All (NotNewer e) ds
    → All (NotNewer d) ds
All-NotNewer d e [] h hs = tt
All-NotNewer d e (x ∷ ds) h (hx, hs) = (omega arith, All-NotNewer d e ds h hs)

InOrder-Descending : (ds : List Deployment) → InOrder newer ds → Descending ds
InOrder-Descending [] h = tt
InOrder-Descending (d ∷ []) h = (tt, tt)
InOrder-Descending (d ∷ e ∷ ds) (h, hs) =
    let rest = InOrder-Descending (e ∷ ds) hs in
    let first = not_newer d e h in ((first, All-NotNewer d e ds first rest.0), rest)

-- The deployments in the cache that the proxy controls.
abbrev pub controlled : ObjectMeta → Cache → List Deployment
controlled p c =
    keep (λ d. is_controlled_by d.meta p)
      (keep (λ d. in_namespace p.namespace d.meta) c.deployments)

-- What the caller has in hand: the newest deployment, and the others.
abbrev pub all_found : Option Deployment × List Deployment → List Deployment
all_found (none, ds) = ds
all_found (some d, ds) = d ∷ ds

abbrev pub NewestFirst : Option Deployment × List Deployment → Type 0
NewestFirst (none, ds) = ds ≡ []
NewestFirst (some d, ds) = All (NotNewer d) ds

module _ (env : Env) (p : ObjectMeta) (c : Cache) where
  -- The value that is returned where the lister gives no error.
  abbrev sorted : List Deployment
  sorted = env.sort_slice newer (controlled p c)

  first-perm : (ds : List Deployment) → all_found (split_first ds) ≡ ds
  first-perm [] = refl
  first-perm (d ∷ ds) = refl

  first-newest : (ds : List Deployment) → Descending ds → NewestFirst (split_first ds)
  first-newest [] h = refl
  first-newest (d ∷ ds) h = h.0

  pub get_deployments_for_proxy-listed :
      env.lister_error Resource.deployments ≡ none
      → get_deployments_for_proxy env p c ≡ pure (split_first sorted) c
  unfolding get_deployments_for_proxy list_deployments
  get_deployments_for_proxy-listed listed = rw listed

  -- If sort.Slice keeps its contract for every test that is a strict weak order, and the lister
  -- gives no error, GetDeploymentsForProxy returns, without effect on the cache, the deployments
  -- of the cache that the proxy controls, each as often as it is there, and no other deployment
  -- is newer than the first one that it returns.
  pub get_deployments_for_proxy-newest :
      SortsSlice env.sort_slice
      → env.lister_error Resource.deployments ≡ none
      → (found : Option Deployment × List Deployment) × (get_deployments_for_proxy env p c
          ≡ pure found c)
        × Perm (all_found found) (controlled p c)
        × NewestFirst found
  get_deployments_for_proxy-newest sorts listed = (
    split_first sorted,
    get_deployments_for_proxy-listed listed,
    subst (λ ds. Perm ds (controlled p c)) (sym (first-perm sorted))
        (sorts.perm newer (controlled p c) newer-IsStrictWeak),
    first-newest sorted
        (InOrder-Descending sorted (sorts.ordered newer (controlled p c) newer-IsStrictWeak)),
  )

  -- An error of the lister is reported as the absence of deployments.
  pub get_deployments_for_proxy-error :
      (e : Error)
      → env.lister_error Resource.deployments ≡ some e
      → get_deployments_for_proxy env p c ≡ pure (none, []) c
  unfolding get_deployments_for_proxy list_deployments
  get_deployments_for_proxy-error e failed = rw failed
