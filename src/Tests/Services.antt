-- ===== src/Tests/Services.antt =====
-- The service controller on a proxy without a service, and on one whose service has another selector.
use memcached_operator.Runtime.Env.{Libs}
use memcached_operator.Prelude.{
  String, ◌≡◌, ◌↔◌, refl, true, none, some, [], ◌∷◌, lookup, same_map, if◌then◌else◌, find_first,
  ◌≤◌,
}
use Prim.Native.String.{count}
use memcached_operator.Operator.Names.Bounds.{max_name, get_proxy_service_name-fits_iff}
use memcached_operator.Operator.Names.{
  make_name, get_proxy_service_name, get_proxy_service_selector,
}
use memcached_operator.Runtime.Effects.{Effect, update}
use memcached_operator.Runtime.Sync.{Cache, ok, err, pure}
use memcached_operator.Runtime.Listers.{named}
use memcached_operator.ProxyService.{record_service_event, update_service, sync_proxy}
use memcached_operator.ProxyService.Laws.Handler.{
  with_service, sync_proxy-heals, sync_proxy-loses_update,
}
use memcached_operator.Tests.Data.{env, refusing, conflict, proxy_meta, ready, stray, fresh}

name-ready : get_proxy_service_name env.libs proxy_meta ≡ "p-memcached-p0000"
unfolding get_proxy_service_name make_name
name-ready = refl

-- The cache in which the service has a changed selector.
abbrev with_stray : Cache
with_stray = record fresh { services = stray ∷ [] }

found_stray :
    find_first
      (λ x. named "default" (get_proxy_service_name env.libs proxy_meta) x.meta)
      with_stray.services
    ≡ some stray
unfolding get_proxy_service_name make_name
found_stray = refl

missing_service :
    find_first
      (λ x. named "default" (get_proxy_service_name env.libs proxy_meta) x.meta)
      fresh.services
    ≡ none
unfolding get_proxy_service_name make_name
missing_service = refl

changed_stray : (update_service env ready stray).1 ≡ true
unfolding update_service get_proxy_service_selector make_name same_map
changed_stray = refl

changed_refusing : (update_service refusing ready stray).1 ≡ true
unfolding update_service get_proxy_service_selector make_name same_map
changed_refusing = refl

sync_proxy-heals_example :
    let healed = (update_service env ready stray).0 in
    sync_proxy env "p" "default" ready with_stray ≡ (
      if (update_service env ready stray).1
      then record {
        result = ok tt;
        cache = with_service healed with_stray;
        effects =
            Effect.update_service "default" healed
            ∷ record_service_event update proxy_meta healed none
            ∷ [];
      }
      else pure tt with_stray)
sync_proxy-heals_example =
    sync_proxy-heals env "p" "default" ready with_stray stray refl refl found_stray

sync_proxy-loses_update_example :
    ((sync_proxy refusing "p" "default" ready with_stray).result ≡ err conflict)
    × (sync_proxy refusing "p" "default" ready
          (sync_proxy refusing "p" "default" ready with_stray).cache
        ≡ pure tt (sync_proxy refusing "p" "default" ready with_stray).cache)
sync_proxy-loses_update_example =
    sync_proxy-loses_update refusing "p" "default" ready with_stray stray refl refl found_stray
      conflict changed_refusing refl

-- A library whose hashes all have the same digits.
abbrev same_digits : Libs
same_digits = record env.libs { digest = λ s. "0123456789" }

get_proxy_service_name-fits_iff_example :
    ((count (get_proxy_service_name same_digits proxy_meta) ≤ max_name)
      ↔ (count proxy_meta.name ≤ 47))
    × (label : String) × (lookup "mcrouter" (get_proxy_service_selector same_digits proxy_meta)
        ≡ some label)
    × ((count label ≤ max_name) ↔ (count proxy_meta.name ≤ 57))
get_proxy_service_name-fits_iff_example =
    get_proxy_service_name-fits_iff same_digits (λ s. refl) proxy_meta
