-- ===== src/System/Steps.antt =====
-- A MemcachedProxy at the API server over time: users edit its specification, and the proxy controller
-- writes it. What the generation check of the other controllers lets through.
use memcached_operator.Prelude.{
  String, ◌≡◌, ◌≢◌, ◌⊎◌, refl, ap, sym, ◌∙◌, inl, inr, none, [], ◌∷◌, Bool-cases, Option-cases,
  int_eq, int_eq_iff,
}
use memcached_operator.Api.Meta.{ObjectMeta}
use memcached_operator.Api.Proxy.{MemcachedProxy, MemcachedProxySpec, apply_defaults, default_spec}
use memcached_operator.Api.Defaults.{default_spec_idem}
use memcached_operator.Api.Defaults.Complete.{port-ne-none}
use memcached_operator.Runtime.Effects.{update_proxy}
use memcached_operator.Runtime.Env.{Env}
use memcached_operator.Runtime.Sync.{Cache, panic, Run}
use memcached_operator.Proxy
use memcached_operator.Proxy.{update_status}
use memcached_operator.Proxy.Laws.{settled, sync_proxy-cases}
use memcached_operator.ProxyService
use memcached_operator.ProxyService.Laws.Handler.{sync_proxy-waits}
use memcached_operator.System.{sync_proxy-safe}

-- The metadata that the API server gives to an object that it stores: it stays in its namespace.
abbrev Stored : MemcachedProxy → ObjectMeta → Type 0
Stored p meta = meta.namespace ≡ p.meta.namespace

-- One change of the stored object. The server accepts an update only of the version that it has, so a
-- write of the controller rests on the object as it is. A new generation is one not seen before.
pub data Step : MemcachedProxy → MemcachedProxy → Type 0 where
  edit :
      {p : MemcachedProxy} (spec : MemcachedProxySpec) (meta : ObjectMeta)
      → Stored p meta
      → meta.generation ≢ p.status.observed_generation
      → Step p (record p { meta = meta; spec = spec })
  accept :
      {p : MemcachedProxy} (env : Env) (k ns : String) (c : Cache) (sent : MemcachedProxy)
      (meta : ObjectMeta)
      → (Proxy.sync_proxy env k p c).effects ≡ update_proxy ns sent ∷ []
      → Stored p meta
      → (meta.generation ≡ sent.meta.generation)
        ⊎ (meta.generation ≢ sent.status.observed_generation)
      → Step p (record sent { meta = meta })

pub data Reachable (start : MemcachedProxy) : MemcachedProxy → Type 0 where
  here : Reachable start start
  step : {p q : MemcachedProxy} → Reachable start p → Step p q → Reachable start q

-- Where the generation has been observed, the specification has its defaults.
abbrev IsGuarded : MemcachedProxy → Type 0
IsGuarded p =
    p.meta.generation ≡ p.status.observed_generation → p.spec ≡ default_spec p.meta.namespace p.spec

spec-settled : (p : MemcachedProxy) → (settled p).spec ≡ default_spec p.meta.namespace p.spec
unfolding update_status apply_defaults
spec-settled p = refl

sent-settled :
    (env : Env) (k ns : String) (p sent : MemcachedProxy) (c : Cache)
    → (Proxy.sync_proxy env k p c).effects ≡ update_proxy ns sent ∷ []
    → sent ≡ settled p
sent-settled env k ns p sent c h = elim (sync_proxy-cases env k p c) [
  | inl (none_sent, _, _) ↦ cc (ap (λ (r : Run Unit). r.effects) none_sent)
  | inr (one_sent, _, _) ↦ cc
]

accepted-IsGuarded :
    (p sent : MemcachedProxy) (meta : ObjectMeta)
    → sent ≡ settled p
    → Stored p meta
    → IsGuarded (record sent { meta = meta })
accepted-IsGuarded p sent meta same stored observed =
    let defaults : sent.spec ≡ default_spec p.meta.namespace p.spec =
      ap (λ (q : MemcachedProxy). q.spec) same ∙ spec-settled p in
    defaults
    ∙ sym (default_spec_idem p.meta.namespace p.spec)
    ∙ ap (default_spec p.meta.namespace) (sym defaults)
    ∙ ap (λ ns. default_spec ns sent.spec) (sym stored)

Step-IsGuarded : {p q : MemcachedProxy} → Step p q → IsGuarded q
Step-IsGuarded (edit spec meta stored new) = λ observed. absurd (new observed)
Step-IsGuarded (accept {p} env k ns c sent meta h stored generation) =
    accepted-IsGuarded p sent meta (sent-settled env k ns p sent c h) stored

reached-IsGuarded : {start p : MemcachedProxy} → IsGuarded start → Reachable start p → IsGuarded p
reached-IsGuarded h here = h
reached-IsGuarded h (step before last) = Step-IsGuarded last

-- A proxy that was just created has observed no generation.
new-IsGuarded :
    (p : MemcachedProxy) → p.meta.generation ≢ p.status.observed_generation → IsGuarded p
new-IsGuarded p new observed = absurd (new observed)

-- Suppose the generation of a stored proxy was not observed at the start, and the proxy changes
-- only by edits of its specification that give it a generation that is not the observed one, and
-- by writes of the proxy controller on the stored version, where the API server keeps the
-- namespace and either keeps the generation or sets one that is not the observed one. Then, after
-- any number of such changes, if the generation is observed, the specification is equal to its
-- own defaulted form.
pub Reachable-default_spec :
    (start p : MemcachedProxy)
    → start.meta.generation ≢ start.status.observed_generation
    → Reachable start p
    → p.meta.generation ≡ p.status.observed_generation
    → p.spec ≡ default_spec p.meta.namespace p.spec
Reachable-default_spec start p new reached observed =
    reached-IsGuarded (new-IsGuarded start new) reached observed

pub port-default_spec :
    (p : MemcachedProxy)
    → p.spec ≡ default_spec p.meta.namespace p.spec
    → p.spec.mc_router.port ≢ none
unfolding apply_defaults update_status
port-default_spec p h e =
    port-ne-none p
      (ap (λ (s : MemcachedProxySpec). s.mc_router.port) (sym (h ∙ sym (spec-settled p))) ∙ e)

-- For a proxy whose generation was not observed at the start and which has changed in the way of
-- Reachable-default_spec, no run of syncHandler of the service controller panics, whatever the
-- cache, the listers and the API server do.
pub Reachable-safe :
    (start p : MemcachedProxy) (env : Env) (k ns : String) (c : Cache)
    → start.meta.generation ≢ start.status.observed_generation
    → Reachable start p
    → (ProxyService.sync_proxy env k ns p c).result ≢ panic
Reachable-safe start p env k ns c new reached =
    elim (Bool-cases (int_eq p.meta.generation p.status.observed_generation)) [
      | inl e ↦ elim (Option-cases p.spec.mc_router.port) [
        | inl missing ↦ absurd (
            port-default_spec p (Reachable-default_spec start p new reached ((int_eq_iff _ _).0 e))
              missing)
        | inr (port, given) ↦ sync_proxy-safe env ns c k p port given
      ]
      | inr e ↦
          let waiting = sync_proxy-waits env k ns p c (λ same. cc ((int_eq_iff _ _).1 same, e)) in
          λ h. cc (ap (λ (r : Run Unit). r.result) waiting, h)
    ]
