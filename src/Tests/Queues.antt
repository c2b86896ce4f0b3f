-- ===== src/Tests/Queues.antt =====
-- The worker on a sync that works and on one that fails, and the keys of a changed owner.
use memcached_operator.Prelude.{String, ◌<>◌, ◌≡◌, ◌↔◌, refl, some, [], ◌∷◌}
use memcached_operator.Api.Meta.{OwnerReference, get_controller_of}
use memcached_operator.Operator.Owners.{scheme_group_version}
use memcached_operator.Runtime.Effects.{queue, key, add_rate_limited, done}
use memcached_operator.Runtime.Sync.{ok, Sync, fail}
use memcached_operator.Worker.{owner_key, work}
use memcached_operator.Worker.Laws.{work_lem, owner_key_iff}
use memcached_operator.Tests.Data.{conflict, owned, fresh}

abbrev failing : String → Sync Unit
failing k = fail conflict

work_lem_example : work failing (key "p") fresh ≡ record {
  result = ok tt;
  cache = fresh;
  effects = queue (done (key "p")) ∷ queue (add_rate_limited (key "p")) ∷ [];
}
work_lem_example = work_lem failing "p" fresh

owner_key-owned : owner_key (owned "p-config") ≡ some "default/p"
unfolding get_controller_of
owner_key-owned = refl

owner_key_iff_example : (owner_key (owned "p-config") ≡ some "default/p") ↔ (
    (r : OwnerReference) × (get_controller_of (owned "p-config") ≡ some r)
    × (r.api_version ≡ scheme_group_version)
    × (r.kind ≡ "MemcachedProxy")
    × ("default/p" ≡ "default" <> ("/" <> r.name)))
owner_key_iff_example = owner_key_iff (owned "p-config") "default/p"
