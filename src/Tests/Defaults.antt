-- ===== src/Tests/Defaults.antt =====
-- The defaults and the proxy controller on a new proxy.
use memcached_operator.Prelude.{◌≡◌, ◌≢◌, ◌⊎◌, ◌↔◌, refl, ap, arith, some, [], ◌∷◌, ℤ}
use memcached_operator.Api.Proxy.{MemcachedProxyStatus, apply_defaults}
use memcached_operator.Api.Defaults.Fixed.{apply_defaults-fixed_iff}
use memcached_operator.Api.Defaults.Complete.{IsComplete, apply_defaults-IsComplete}
use memcached_operator.Runtime.Effects.{update_proxy}
use memcached_operator.Runtime.Sync.{pure}
use memcached_operator.Proxy.{update_status, sync_proxy}
use memcached_operator.Proxy.Laws.{settled, sync_proxy-settled, sync_proxy-cases}
use memcached_operator.Tests.Data.{env, draft, fresh}

-- The defaults of a new proxy.
port-draft : (apply_defaults draft).spec.mc_router.port ≡ some (ℤ.pos 11211)
unfolding apply_defaults
port-draft = refl

apply_defaults-fixed_iff_example : (apply_defaults draft ≡ draft) ↔ IsComplete draft
apply_defaults-fixed_iff_example = apply_defaults-fixed_iff draft (λ e. cc)

apply_defaults-IsComplete_example : IsComplete (apply_defaults draft)
apply_defaults-IsComplete_example = apply_defaults-IsComplete draft (λ e. cc)

sync_proxy-settled_example : sync_proxy env "p" (settled draft) fresh ≡ pure tt fresh
sync_proxy-settled_example = sync_proxy-settled env "p" draft fresh

sync_proxy-cases_example :
    ((sync_proxy env "p" draft fresh ≡ pure tt fresh)
      × (draft.spec ≡ (settled draft).spec)
      × (draft.status ≡ (settled draft).status))
    ⊎ (((sync_proxy env "p" draft fresh).effects
          ≡ update_proxy (settled draft).meta.namespace (settled draft) ∷ [])
        × ((sync_proxy env "p" draft fresh).cache ≡ fresh)
        × (draft ≢ settled draft))
sync_proxy-cases_example = sync_proxy-cases env "p" draft fresh

pub status-draft : draft.status ≢ (settled draft).status
unfolding update_status apply_defaults
status-draft e = ground (arith, ap (λ (s : MemcachedProxyStatus). s.observed_generation) e)
