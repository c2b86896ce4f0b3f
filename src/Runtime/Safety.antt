-- ===== src/Runtime/Safety.antt =====
-- Actions that never panic, and how they are put together.
use memcached_operator.Prelude.{◌≡◌, ◌≢◌, refl, Option, none, some}
use memcached_operator.Runtime.Effects.{Error, not_found, api_error, errorf, wrapped}
use memcached_operator.Runtime.Sync.{
  Cache, Result, ok, err, panic, Sync, ◌>>=◌, continue, check, or_missing, branch_found, attempt,
}
use memcached_operator.Worker.{wrapping, rethrow}

abbrev pub IsSafe : {A : Type 0} → Sync A → Type 0
IsSafe m = (c : Cache) → (m c).result ≢ panic

pub check-IsSafe : (e : Option Error) → IsSafe (check e)
check-IsSafe none c h = cc
check-IsSafe (some e) c h = cc

module _ {A B : Type 0} where
  pub continue-safe :
      (r : Result A) (f : A → Sync B) (c : Cache)
      → r ≢ panic
      → ((a : A) → r ≡ ok a → (f a c).result ≢ panic)
      → (continue r f c).result ≢ panic
  continue-safe (ok a) f c h h' = h' a refl
  continue-safe (err e) f c h h' = λ k. cc
  continue-safe panic f c h h' = absurd (h refl)

  -- One action after another.
  pub bind-IsSafe :
      (m : Sync A) (f : A → Sync B) → IsSafe m → ((a : A) → IsSafe (f a)) → IsSafe (m >>= f)
  bind-IsSafe m f h h' c = continue-safe (m c).result f (m c).cache (h c) (λ a e. h' a (m c).cache)

  branch_found-IsSafe :
      (r : Result A) (missing : Sync B) (f : A → Sync B)
      → r ≢ panic
      → IsSafe missing
      → ((a : A) → IsSafe (f a))
      → IsSafe (branch_found r missing f)
  branch_found-IsSafe (ok a) missing f h h' h'' = h'' a
  branch_found-IsSafe (err not_found) missing f h h' h'' = h'
  branch_found-IsSafe (err (api_error s)) missing f h h' h'' = λ c k. cc
  branch_found-IsSafe (err (errorf s args)) missing f h h' h'' = λ c k. cc
  branch_found-IsSafe (err (wrapped s arg e)) missing f h h' h'' = λ c k. cc
  branch_found-IsSafe panic missing f h h' h'' = absurd (h refl)

  pub or_missing-IsSafe :
      (m : Sync A) (missing : Sync B) (f : A → Sync B)
      → IsSafe m
      → IsSafe missing
      → ((a : A) → IsSafe (f a))
      → IsSafe (or_missing m missing f)
  or_missing-IsSafe m missing f h h' h'' c =
      branch_found-IsSafe (m c).result missing f (h c) h' h'' (m c).cache

  -- An action that looks at the result of the first.
  pub attempt-IsSafe :
      (m : Sync A) (f : Result A → Sync B)
      → IsSafe m
      → ((r : Result A) → r ≢ panic → IsSafe (f r))
      → IsSafe (attempt m f)
  attempt-IsSafe m f h h' c = h' (m c).result (h c) (m c).cache

module _ {A : Type 0} (f : Error → Error) where
  rethrow-safe : (r : Result A) → r ≢ panic → rethrow f r ≢ panic
  rethrow-safe (ok a) h k = cc
  rethrow-safe (err e) h k = cc
  rethrow-safe panic h k = absurd (h refl)

  pub wrapping-IsSafe : (m : Sync A) → IsSafe m → IsSafe (wrapping f m)
  wrapping-IsSafe m h c = rethrow-safe (m c).result (h c)
