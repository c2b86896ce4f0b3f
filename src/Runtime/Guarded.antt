-- ===== src/Runtime/Guarded.antt =====
-- Actions that keep a property of the cache, return values with a property, and never panic.
use memcached_operator.Prelude.{
  ◌≢◌, refl, Option, none, some, List, All, Bool, find_first, find_first-All, Option-cases, inl,
  inr,
}
use memcached_operator.Runtime.Effects.{Error, not_found, api_error, errorf, wrapped}
use memcached_operator.Runtime.Sync.{
  Cache, Result, ok, err, panic, Run, Sync, ◌>>=◌, ◌>>◌, continue, check, gets, lift, or_missing,
  branch_found,
}
use memcached_operator.Runtime.Listers.{found}

abbrev pub Outcome : {A : Type 0} → (A → Type 0) → Result A → Type 0
Outcome Q (ok a) = Q a
Outcome Q (err e) = Unit
Outcome Q panic = ⊥

-- Any value.
abbrev pub Always : {A : Type 0} → A → Type 0
Always a = Unit

pub ne_panic-Outcome : {A : Type 0} (r : Result A) → r ≢ panic → Outcome Always r
ne_panic-Outcome (ok a) h = tt
ne_panic-Outcome (err e) h = tt
ne_panic-Outcome panic h = absurd (h refl)

module _ (P : Cache → Type 0) where
  abbrev pub Good : {A : Type 0} → (A → Type 0) → Run A → Type 0
  Good Q r = P r.cache × Outcome Q r.result

  abbrev pub Guards : {A : Type 0} → (A → Type 0) → Sync A → Type 0
  Guards Q m = (c : Cache) → P c → Good Q (m c)

  pub check-Guards : (e : Option Error) → Guards Always (check e)
  check-Guards none c h = (h, tt)
  check-Guards (some e) c h = (h, tt)

  module _ {A B : Type 0} (Q : A → Type 0) (R : B → Type 0) where
    continue-Good :
        (r : Result A) (f : A → Sync B) (c : Cache)
        → P c
        → Outcome Q r
        → ((a : A) → Q a → Guards R (f a))
        → Good R (continue r f c)
    continue-Good (ok a) f c h q h' = h' a q c h
    continue-Good (err e) f c h q h' = (h, tt)
    continue-Good panic f c h q h' = absurd q

    -- One action after another.
    pub bind-Guards :
        (m : Sync A) (f : A → Sync B)
        → Guards Q m
        → ((a : A) → Q a → Guards R (f a))
        → Guards R (m >>= f)
    bind-Guards m f h h' c p =
        let (kept, q) = h c p in continue-Good (m c).result f (m c).cache kept q h'

    branch_found-Good :
        (r : Result A) (missing : Sync B) (f : A → Sync B) (c : Cache)
        → P c
        → Outcome Q r
        → Guards R missing
        → ((a : A) → Q a → Guards R (f a))
        → Good R (branch_found r missing f c)
    branch_found-Good (ok a) missing f c h q h' h'' = h'' a q c h
    branch_found-Good (err not_found) missing f c h q h' h'' = h' c h
    branch_found-Good (err (api_error s)) missing f c h q h' h'' = (h, tt)
    branch_found-Good (err (errorf s args)) missing f c h q h' h'' = (h, tt)
    branch_found-Good (err (wrapped s arg e)) missing f c h q h' h'' = (h, tt)
    branch_found-Good panic missing f c h q h' h'' = absurd q

    pub or_missing-Guards :
        (m : Sync A) (missing : Sync B) (f : A → Sync B)
        → Guards Q m
        → Guards R missing
        → ((a : A) → Q a → Guards R (f a))
        → Guards R (or_missing m missing f)
    or_missing-Guards m missing f h h' h'' c p =
        let (kept, q) = h c p in branch_found-Good (m c).result missing f (m c).cache kept q h' h''

  pub lift-Guards : {A : Type 0} (Q : A → Type 0) (r : Result A) → Outcome Q r → Guards Q (lift r)
  lift-Guards Q r q c h = (h, q)

  module _ {A : Type 0} (Q : A → Type 0) (e : Option Error) (objects : Cache → List A) where
    module _ (all : (c : Cache) → P c → All Q (objects c)) where
      -- A lister that finds one object of the cache, and one that lists some.
      pub find-Guards :
          (p : A → Bool)
          → Guards Q (check e >> (gets (λ c. find_first p (objects c)) >>= λ o. lift (found o)))
      find-Guards p = bind-Guards Always Q (check e) _ (check-Guards e) (λ u _ c h.
          elim (Option-cases (find_first p (objects c))) [
            | inl missing ↦ rw missing (h, tt)
            | inr (a, hit) ↦ rw hit (h, find_first-All Q p (objects c) a (all c h) hit)
          ])

  pub list-Guards :
      {A : Type 0} (Q : List A → Type 0) (e : Option Error) (list : Cache → List A)
      → ((c : Cache) → P c → Q (list c))
      → Guards Q (check e >> gets list)
  list-Guards Q e list all =
      bind-Guards Always Q (check e) _ (check-Guards e) (λ u _ c h. (h, all c h))
