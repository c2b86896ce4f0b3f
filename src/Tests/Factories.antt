-- ===== src/Tests/Factories.antt =====
-- A factory of informers that are numbers: two types, and a third one after the first Start.
use memcached_operator.Prelude.{
  ℕ, ◌≡◌, refl, true, List, [], ◌∷◌, lookup, insert, nat_eq, Option-map,
}
use memcached_operator.Informers.{
  Factory, new_factory, informer_for, start, start_all, mark_started, is_started,
  wait_for_cache_sync,
}
use memcached_operator.Informers.Laws.{
  Call, informer_call, start_call, calls, IsDistinct, calls-IsDistinct, wait_for_cache_sync-start,
}

abbrev sequence : List (Call ℕ)
sequence =
    informer_call "proxies" 1
    ∷ informer_call "services" 2
    ∷ start_call
    ∷ informer_call "proxies" 3
    ∷ informer_call "endpoints" 4
    ∷ start_call
    ∷ start_call
    ∷ []

calls-sequence : (calls sequence new_factory).0 ≡ "proxies" ∷ "services" ∷ "endpoints" ∷ []
unfolding calls new_factory informer_for start start_all mark_started is_started lookup insert
calls-sequence = refl

calls-IsDistinct_example : IsDistinct (calls sequence new_factory).0
calls-IsDistinct_example = calls-IsDistinct sequence

abbrev requested : Factory ℕ
requested = record {
  informers = ("proxies", 1) ∷ ("services", 2) ∷ [];
  started_informers = ("proxies", true) ∷ [];
}

wait_for_cache_sync-start_example :
    lookup "services" (wait_for_cache_sync (nat_eq 2) (start requested).1)
    ≡ Option-map (nat_eq 2) (lookup "services" requested.informers)
wait_for_cache_sync-start_example = wait_for_cache_sync-start (nat_eq 2) requested "services"
