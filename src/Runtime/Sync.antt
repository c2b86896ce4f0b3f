-- ===== src/Runtime/Sync.antt =====
-- The actions of a controller. An action reads and writes the informers' cache, since listers hand out
-- pointers into it, returns a value, an error or a panic, and has effects.
use memcached_operator.Prelude.{Option, none, some, List, [], ◌∷◌, ◌++◌}
use memcached_operator.Api.Proxy.{MemcachedProxy}
use memcached_operator.Api.Objects.{Service, ConfigMap, Deployment, ReplicaSet, Endpoints}
use memcached_operator.Runtime.Effects.{Error, not_found, Effect}

pub record Cache : Type 0 where
  pub proxies : List MemcachedProxy
  pub config_maps : List ConfigMap
  pub deployments : List Deployment
  pub replica_sets : List ReplicaSet
  pub services : List Service
  pub endpoints : List Endpoints

-- `panic` is a run-time panic, such as the dereference of a nil pointer.
pub data Result (A : Type 0) : Type 0 where
  ok : A → Result A
  err : Error → Result A
  panic : Result A

pub record Run (A : Type 0) : Type 0 where
  pub result : Result A
  pub cache : Cache
  pub effects : List Effect

abbrev pub Sync : Type 0 → Type 0
Sync A = Cache → Run A

module _ {A : Type 0} where
  abbrev pub pure : A → Sync A
  pure a c = record { result = ok a; cache = c; effects = [] }

  abbrev pub fail : Error → Sync A
  fail e c = record { result = err e; cache = c; effects = [] }

  abbrev pub panics : Sync A
  panics c = record { result = panic; cache = c; effects = [] }

  -- An error, if there is one, ends the action.
  abbrev pub lift : Result A → Sync A
  lift r c = record { result = r; cache = c; effects = [] }

abbrev pub emit : Effect → Sync Unit
emit e c = record { result = ok tt; cache = c; effects = e ∷ [] }

abbrev pub gets : {A : Type 0} → (Cache → A) → Sync A
gets f c = record { result = ok (f c); cache = c; effects = [] }

abbrev pub modify : (Cache → Cache) → Sync Unit
modify f c = record { result = ok tt; cache = f c; effects = [] }

abbrev after : {A : Type 0} → List Effect → Run A → Run A
after es r = record r { effects = es ++ r.effects }

module _ {A B : Type 0} where
  abbrev pub continue : Result A → (A → Sync B) → Sync B
  continue (ok a) f c = f a c
  continue (err e) f c = fail e c
  continue panic f c = panics c

  infixl 5 ◌>>=◌ ◌>>◌
  abbrev pub ◌>>=◌ : Sync A → (A → Sync B) → Sync B
  ◌>>=◌ m f c = let r = m c in after r.effects (continue r.result f r.cache)

  abbrev pub ◌>>◌ : Sync A → Sync B → Sync B
  m >> n = m >>= λ _. n

-- `return err` if there is an error.
abbrev pub check : Option Error → Sync Unit
check none = pure tt
check (some e) = fail e

-- `if errors.IsNotFound(err)`: what to do without the object, and with it. Other errors are returned.
module _ {A B : Type 0} where
  abbrev pub branch_found : Result A → Sync B → (A → Sync B) → Sync B
  branch_found (ok a) missing f = f a
  branch_found (err not_found) missing f = missing
  branch_found (err e) missing f = fail e
  branch_found panic missing f = panics

  abbrev pub or_missing : Sync A → Sync B → (A → Sync B) → Sync B
  or_missing m missing f c =
      let r = m c in after r.effects (branch_found r.result missing f r.cache)

-- An action whose result the rest looks at, an error included.
abbrev pub attempt : {A B : Type 0} → Sync A → (Result A → Sync B) → Sync B
attempt m f c = let r = m c in after r.effects (f r.result r.cache)

-- What `if err != nil { return err }` returns.
abbrev pub returned : Option Error → Result Unit
returned none = ok tt
returned (some e) = err e
