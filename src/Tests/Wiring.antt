-- ===== src/Tests/Wiring.antt =====
-- A change of a proxy, as main.go wires the controllers.
use memcached_operator.Prelude.{◌≡◌, refl, [], ◌∷◌}
use memcached_operator.Runtime.Effects.{queue, add, key}
use memcached_operator.Runtime.Sync.{ok}
use memcached_operator.Worker.{object, updated}
use memcached_operator.Main.{proxy_deployment, default_flags, proxy_change, handle}
use memcached_operator.Main.Laws.{handle-proxy_change}
use memcached_operator.Tests.Data.{env, proxy_meta, fresh}

handle-proxy_change_example :
    handle env default_flags proxy_deployment
      (proxy_change (updated (object proxy_meta) (object proxy_meta)))
      fresh
    ≡ record { result = ok tt; cache = fresh; effects = queue (add (key "default/p")) ∷ [] }
handle-proxy_change_example =
    handle-proxy_change env default_flags fresh proxy_deployment
      (updated (object proxy_meta) (object proxy_meta)) "default/p" refl
