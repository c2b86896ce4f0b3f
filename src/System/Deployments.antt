-- ===== src/System/Deployments.antt =====
-- Rounds of the worker of the deployment controller between changes of the informers' cache.
use memcached_operator.Prelude.{String, ◌≡◌, List, All}
use memcached_operator.Api.Proxy.{MemcachedProxy}
use memcached_operator.Operator.Lookup.Newest.{SortsSlice}
use memcached_operator.Runtime.Env.{Env, Resource}
use memcached_operator.Runtime.Sync.{Cache, ok, lift}
use memcached_operator.Runtime.Listers.{named, get_proxy, split_or_fail}
use memcached_operator.Runtime.Listers.Safety.{split-ne-panic}
use memcached_operator.Runtime.Guarded.{
  Always, ne_panic-Outcome, Guards, bind-Guards, lift-Guards, find-Guards, or_missing-Guards,
}
use memcached_operator.ProxyDeployment.{sync_handler, sync_proxy}
use memcached_operator.ProxyDeployment.Laws.Guarded.{IsSound, sync_proxy-Guards}
use memcached_operator.System.Rounds.{Delivered}
use memcached_operator.System.Steps.{Reachable-default_spec, port-default_spec}
use memcached_operator.System.Turns.{Turn, turns, Fits, turns-served}

-- sort.Slice keeps its contract.
abbrev pub Sorts : Env → Type 0
Sorts env = SortsSlice env.sort_slice

module _ (env : Env) where
  Delivered-Guards :
      (k : String) (p : MemcachedProxy)
      → Sorts env
      → Delivered p
      → Guards (IsSound Delivered) Always (sync_proxy env k p)
  Delivered-Guards k p sorts (start, new, reached) =
      sync_proxy-Guards Delivered env sorts k p
        (λ observed. port-default_spec p (Reachable-default_spec start p new reached observed))

  get_proxy-Guards :
      (ns name : String) → Guards (IsSound Delivered) Delivered (get_proxy env ns name)
  unfolding get_proxy
  get_proxy-Guards ns name =
      find-Guards (IsSound Delivered) Delivered (env.lister_error Resource.proxies) (λ c. c.proxies)
        (λ c h. h.0) (λ p. named ns name p.meta)

  sync_handler-Guards :
      (k : String) → Sorts env → Guards (IsSound Delivered) Always (sync_handler env k)
  unfolding sync_handler
  sync_handler-Guards k sorts =
      bind-Guards (IsSound Delivered) Always Always (lift (split_or_fail env k)) _
        (lift-Guards (IsSound Delivered) Always _
          (ne_panic-Outcome (split_or_fail env k) (split-ne-panic env k)))
        (λ parts _.
          or_missing-Guards (IsSound Delivered) Delivered Always (get_proxy env parts.0 parts.1) _ _
            (get_proxy-Guards parts.0 parts.1) (λ c h. (h, tt)) (λ p. Delivered-Guards k p sorts))

-- Suppose sort.Slice keeps its contract in each round, each proxy of the cache at the start, and
-- of each cache that the informers deliver later, is a version that the proxy had in the sense of
-- Rounds.turns-ok, and each volume named "config" of a deployment there has a ConfigMap source.
-- Then the worker of the deployment controller serves all items that its queue gives between the
-- deliveries, and ends without an error or a panic, whatever the items are and whatever the
-- listers and the API server answer in each round.
pub deployment_turns-ok :
    (ts : List Turn) (c : Cache)
    → IsSound Delivered c
    → All (Fits (IsSound Delivered) Sorts) ts
    → (turns sync_handler ts c).result ≡ ok tt
deployment_turns-ok = turns-served (IsSound Delivered) Sorts sync_handler sync_handler-Guards
