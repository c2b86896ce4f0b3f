-- ===== src/System/Turns.antt =====
-- Rounds of the worker of a controller between changes of the informers' cache, each in an environment of
-- its moment.
use memcached_operator.Prelude.{String, ◌≡◌, ◌≢◌, refl, sym, subst, ap, List, [], ◌∷◌, All}
use memcached_operator.Runtime.Effects.{Item, key, other}
use memcached_operator.Runtime.Env.{Env}
use memcached_operator.Runtime.Sync.{Cache, Result, ok, err, panic, Run, Sync, ◌>>◌, pure, modify}
use memcached_operator.Runtime.Guarded.{Always, Outcome, Guards}
use memcached_operator.Worker.{work}
use memcached_operator.Worker.Laws.{work_lem, work-other, work-ok}

-- The worker serves an item, in an environment of that moment, or the informers change the cache.
pub data Turn : Type 0 where
  serve : Env → Item → Turn
  deliver : Cache → Turn

unfoldable pub turns : (Env → String → Sync Unit) → List Turn → Sync Unit
turns sync_handler [] = pure tt
turns sync_handler (serve env obj ∷ rest) = do work (sync_handler env) obj; turns sync_handler rest
turns sync_handler (deliver c ∷ rest) = do modify (λ old. c); turns sync_handler rest

Outcome-ne-panic : (r : Result Unit) → Outcome Always r → r ≢ panic
Outcome-ne-panic (ok u) h = λ e. cc
Outcome-ne-panic (err e) h = λ e'. cc
Outcome-ne-panic panic h = absurd h

module _ (P : Cache → Type 0) where
  -- What holds of the environments that items are served in, and of the caches that are delivered.
  abbrev pub Fits : (Env → Type 0) → Turn → Type 0
  Fits E (serve env obj) = E env
  Fits E (deliver c) = P c

  module _ (sync : String → Sync Unit) (guards : (k : String) → Guards P Always (sync k)) where
    work-kept : (obj : Item) (c : Cache) → P c → P (work sync obj c).cache
    work-kept (key k) c h =
        subst P (sym (ap (λ (r : Run Unit). r.cache) (work_lem sync k c))) (guards k c h).0
    work-kept other c h = subst P (sym (ap (λ (r : Run Unit). r.cache) (work-other sync c))) h

    work-served : (obj : Item) (c : Cache) → P c → (work sync obj c).result ≡ ok tt
    work-served obj c h =
        work-ok sync obj c (λ k. Outcome-ne-panic (sync k c).result (guards k c h).1)

  -- If syncHandler keeps a property of the cache and never panics there, and the caches that are
  -- delivered have the property, all items are served.
  pub turns-served :
      (E : Env → Type 0) (sync_handler : Env → String → Sync Unit)
      → ((env : Env) (k : String) → E env → Guards P Always (sync_handler env k))
      → (ts : List Turn) (c : Cache) → P c
      → All (Fits E) ts
      → (turns sync_handler ts c).result ≡ ok tt
  unfolding turns
  turns-served E sync_handler guards [] c h hs = refl
  turns-served E sync_handler guards (serve env obj ∷ rest) c h (e, hs) =
      let sync_guards : (k : String) → Guards P Always (sync_handler env k) = λ k. guards env k e in
      rw (work-served (sync_handler env) sync_guards obj c h) (
        turns-served E sync_handler guards rest (work (sync_handler env) obj c).cache
          (work-kept (sync_handler env) sync_guards obj c h) hs)
  turns-served E sync_handler guards (deliver c' ∷ rest) c h (h', hs) =
      turns-served E sync_handler guards rest c' h' hs
