-- ===== src/Worker/Laws.antt =====
-- The worker: what happens to an item after its sync, and the keys that a change of an object enqueues.
use memcached_operator.Prelude.{
  String, ◌<>◌, ◌≡◌, ◌≢◌, refl, ap, ◌∙◌, Option, none, some, List, [], ◌∷◌, ◌++◌, append_assoc,
  append-nil, arith, ◌↔◌, eq_iff, ◌==◌, ◌&&◌, if◌then◌else◌, Option-cases, inl, inr,
}
use memcached_operator.Api.Meta.{ObjectMeta, OwnerReference, get_controller_of}
use memcached_operator.Operator.Owners.{scheme_group_version}
use memcached_operator.Runtime.Effects.{
  Effect, queue, Item, key, other, add, add_rate_limited, forget, done,
}
use memcached_operator.Runtime.Sync.{Cache, Result, ok, err, panic, Run, Sync}
use memcached_operator.Worker.{object, updated, on_owned, owner_key, work, worker}

-- The effects of a round on a key, by the result of its sync.
abbrev rest_of_round : String → Result Unit → List Effect
rest_of_round k (ok _) = queue (forget (key k)) ∷ queue (done (key k)) ∷ []
rest_of_round k (err e) = queue (done (key k)) ∷ queue (add_rate_limited (key k)) ∷ []
rest_of_round k panic = queue (done (key k)) ∷ []

-- The result of a round: an error is handled, a panic is not.
abbrev result_of_round : Result Unit → Result Unit
result_of_round (ok _) = ok tt
result_of_round (err e) = ok tt
result_of_round panic = panic

-- The call of Add for a key, if there is one.
abbrev adds : Option String → List Effect
adds none = []
adds (some k) = queue (add (key k)) ∷ []

module _ (sync : String → Sync Unit) (k : String) (c : Cache) where
  round_cases :
      (result : Result Unit) (cache : Cache) (effects : List Effect)
      → sync k c ≡ record { result = result; cache = cache; effects = effects }
      → work sync (key k) c ≡ record {
        result = result_of_round result;
        cache = cache;
        effects = effects ++ rest_of_round k result;
      }
  unfolding work
  round_cases (ok _) cache effects e = rw e (simp (append_assoc, append-nil))
  round_cases (err _) cache effects e = rw e (simp (append_assoc, append-nil))
  round_cases panic cache effects e = rw e (simp (append_assoc, append-nil))

  -- One round of the worker on a key runs syncHandler once, keeps its effects and its cache, and
  -- then: after a success it calls Forget and Done; after an error it calls Done and then
  -- AddRateLimited, and goes on; after a panic it calls Done, and the panic goes on.
  pub work_lem : work sync (key k) c ≡ record {
    result = result_of_round (sync k c).result;
    cache = (sync k c).cache;
    effects = (sync k c).effects ++ rest_of_round k (sync k c).result;
  }
  work_lem = round_cases (sync k c).result (sync k c).cache (sync k c).effects refl

-- The round on an item that is no key: it is forgotten, done, and added again.
pub work-other :
    (sync : String → Sync Unit) (c : Cache)
    → work sync other c ≡ record {
      result = ok tt;
      cache = c;
      effects = queue (forget other) ∷ queue (done other) ∷ queue (add_rate_limited other) ∷ [];
    }
unfolding work
work-other sync c = refl

-- Nothing that the worker does in a round is a panic, unless the sync panics.
pub work-ok :
    (sync : String → Sync Unit) (obj : Item) (c : Cache)
    → ((k : String) → (sync k c).result ≢ panic)
    → (work sync obj c).result ≡ ok tt
work-ok sync other c safe = rw work-other
work-ok sync (key k) c safe =
    ap (λ (r : Run Unit). r.result) (work_lem sync k c) ∙ not_panic (sync k c).result (safe k)
  where
    not_panic : (r : Result Unit) → r ≢ panic → result_of_round r ≡ ok tt
    not_panic (ok _) h = refl
    not_panic (err e) h = refl
    not_panic panic h = absurd (h refl)

-- If syncHandler panics for no key and no cache, the worker handles every item that the queue
-- gives, keys and others, and ends without an error.
pub worker-ok :
    (sync : String → Sync Unit) (items : List Item) (c : Cache)
    → ((k : String) (c' : Cache) → (sync k c').result ≢ panic)
    → (worker sync items c).result ≡ ok tt
unfolding worker
worker-ok sync [] c safe = refl
worker-ok sync (obj ∷ rest) c safe =
    rw (work-ok sync obj c (λ k. safe k c)) (worker-ok sync rest (work sync obj c).cache safe)

-- An update of an owned object adds to the queue the key of the proxy that controlled it before,
-- if there is one, and then that of the proxy that controls it now, if there is one, and does
-- nothing else.
on_owned-updated :
    (old new : ObjectMeta) (c : Cache)
    → on_owned (updated (object old) (object new)) c
      ≡ record { result = ok tt; cache = c; effects = adds (owner_key old) ++ adds (owner_key new) }
unfolding on_owned
on_owned-updated old new c = ground arith

of_reference :
    (o : ObjectMeta) (r : OwnerReference) (k : String)
    → (if r.api_version == scheme_group_version && r.kind == "MemcachedProxy"
        then some (o.namespace <> ("/" <> r.name))
        else none)
      ≡ some k
    → (r.api_version ≡ scheme_group_version)
      × (r.kind ≡ "MemcachedProxy")
      × (k ≡ o.namespace <> ("/" <> r.name))
of_reference o r k h =
    ground (arith, eq_iff r.api_version scheme_group_version, eq_iff r.kind "MemcachedProxy")

-- enqueueOwned has a key for an object exactly if the object has a controlling owner reference
-- with the group and version of this operator and the kind MemcachedProxy; the key is the
-- namespace of the object, a slash and the name in that reference.
pub owner_key_iff :
    (o : ObjectMeta) (k : String)
    → (owner_key o ≡ some k) ↔ (
        (r : OwnerReference) × (get_controller_of o ≡ some r)
        × (r.api_version ≡ scheme_group_version)
        × (r.kind ≡ "MemcachedProxy")
        × (k ≡ o.namespace <> ("/" <> r.name)))
owner_key_iff o k = (
  λ h. elim (Option-cases (get_controller_of o)) [
    | inl e ↦ cc (rw (e, owner_key) at h)
    | inr (r, e) ↦
        let (version, kind, same) = of_reference o r k (rw (e, owner_key) at h) in
        (r, e, version, kind, same)
  ],
  λ (r, e, version, kind, same).
      rw (e, owner_key, (eq_iff _ _).1 version, (eq_iff _ _).1 kind, same),
)
