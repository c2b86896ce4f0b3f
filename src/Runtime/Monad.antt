-- ===== src/Runtime/Monad.antt =====
-- Laws of actions.
use memcached_operator.Prelude.{◌≡◌, refl, List, append-nil}
use memcached_operator.Runtime.Effects.{Effect}
use memcached_operator.Runtime.Sync.{
  Cache, Result, ok, err, panic, Run, Sync, ◌>>=◌, ◌>>◌, pure, continue,
}

module _ (m : Sync Unit) (c : Cache) where
  then-cases :
      (result : Result Unit) (cache : Cache) (effects : List Effect)
      → m c ≡ record { result = result; cache = cache; effects = effects }
      → (m >> pure tt) c ≡ m c
  then-cases (ok u) cache effects e = rw (e, append-nil)
  then-cases (err x) cache effects e = rw (e, append-nil)
  then-cases panic cache effects e = rw (e, append-nil)

  -- Nothing more to do.
  pub then-pure : (m >> pure tt) c ≡ m c
  then-pure = then-cases (m c).result (m c).cache (m c).effects refl

-- An action that returned: so did its first part.
module _ {A B : Type 0} (m : Sync A) (f : A → Sync B) (c : Cache) where
  bind-cases :
      (r : Run A) {b : B}
      → m c ≡ r
      → ((m >>= f) c).result ≡ ok b
      → (a : A) × (r.result ≡ ok a) × ((f a r.cache).result ≡ ok b)
  bind-cases r e h = continued r.result (rw e at h)
    where
      continued :
          (result : Result A) {b : B}
          → (continue result f r.cache).result ≡ ok b
          → (a : A) × (result ≡ ok a) × ((f a r.cache).result ≡ ok b)
      continued (ok a) h' = (a, refl, h')
      continued (err x) h' = cc
      continued panic h' = cc

  pub bind-ok :
      {b : B}
      → ((m >>= f) c).result ≡ ok b
      → (a : A) × ((m c).result ≡ ok a) × ((f a (m c).cache).result ≡ ok b)
  bind-ok h = bind-cases (m c) refl h

  -- An action whose first part returns at once.
  pub pure-bind : (a : A) → m c ≡ pure a c → (m >>= f) c ≡ f a c
  pure-bind a e = rw e
