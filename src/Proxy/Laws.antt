-- ===== src/Proxy/Laws.antt =====
-- The proxy controller: when it writes, what it writes, and that it stops.
use mathlib.Core.Bool.{and-eq-true_iff}
use memcached_operator.Prelude.{
  String, ◌≡◌, ◌≢◌, refl, sym, ap, ◌⊎◌, inl, inr, Bool, true, false, ◌&&◌, none, some, [], ◌∷◌,
  arith, decided, and-false, Bool-cases,
}
use memcached_operator.Api.Proxy.{MemcachedProxy, MemcachedProxySpec, apply_defaults}
use memcached_operator.Api.Equality.{MemcachedProxySpec-discrete, MemcachedProxyStatus-discrete}
use memcached_operator.Api.Defaults.{default_spec_idem}
use memcached_operator.Runtime.Effects.{Error, wrapped, update_proxy}
use memcached_operator.Runtime.Env.{Env}
use memcached_operator.Runtime.Sync.{Cache, ok, err, pure}
use memcached_operator.Proxy.{update_status, sync_proxy}

-- The object that the controller wants to see: defaults applied, generation observed.
abbrev pub settled : MemcachedProxy → MemcachedProxy
settled p = update_status (apply_defaults p)

decided-yes {ℓ} : {P : Type ℓ} (d : Dec P) → P → decided d ≡ true
decided-yes (yes p) h = refl
decided-yes (no n) h = absurd (n h)

decided-eq-true {ℓ} : {P : Type ℓ} (d : Dec P) → decided d ≡ true → P
decided-eq-true (yes p) h = p
decided-eq-true (no n) h = cc

decided-no {ℓ} : {P : Type ℓ} (d : Dec P) → ¬ P → decided d ≡ false
decided-no (yes p) n = absurd (n p)
decided-no (no n') n = refl

settled_idem : (p : MemcachedProxy) → settled (settled p) ≡ settled p
unfolding update_status apply_defaults
settled_idem p =
    ap (λ (spec : MemcachedProxySpec). record (settled p) { spec = spec })
      (default_spec_idem p.meta.namespace p.spec)

-- What the controller compares.
abbrev same_spec_as_settled : MemcachedProxy → Bool
same_spec_as_settled p = decided (MemcachedProxySpec-discrete p.spec (settled p).spec)

abbrev same_status_as_settled : MemcachedProxy → Bool
same_status_as_settled p = decided (MemcachedProxyStatus-discrete p.status (settled p).status)

settled_test :
    (p : MemcachedProxy) → p ≡ settled p → same_spec_as_settled p && same_status_as_settled p ≡ true
settled_test p e = rw (
  decided-yes (MemcachedProxySpec-discrete p.spec (settled p).spec) (ap (λ q. q.spec) e),
  decided-yes (MemcachedProxyStatus-discrete p.status (settled p).status) (ap (λ q. q.status) e),
)

unsettled_test :
    (p : MemcachedProxy)
    → (p.spec ≢ (settled p).spec) ⊎ (p.status ≢ (settled p).status)
    → same_spec_as_settled p && same_status_as_settled p ≡ false
unsettled_test p (inl h) = rw (decided-no (MemcachedProxySpec-discrete p.spec (settled p).spec) h)
unsettled_test p (inr h) = rw (
  decided-no (MemcachedProxyStatus-discrete p.status (settled p).status) h,
  and-false (same_spec_as_settled p),
)

module _ (env : Env) (key : String) where
  -- On the object that the proxy controller itself writes, with defaults applied and the
  -- generation observed, syncHandler has no effect, succeeds and leaves the cache as it is.
  pub sync_proxy-settled :
      (p : MemcachedProxy) (c : Cache) → sync_proxy env key (settled p) c ≡ pure tt c
  unfolding sync_proxy
  sync_proxy-settled p c = rw (
    decided-yes (MemcachedProxySpec-discrete (settled p).spec (settled (settled p)).spec)
        (ap (λ q. q.spec) (sym (settled_idem p))),
    decided-yes (MemcachedProxyStatus-discrete (settled p).status (settled (settled p)).status)
        (ap (λ q. q.status) (sym (settled_idem p))),
  )

  -- A run of syncHandler of the proxy controller on a proxy either changes nothing and succeeds,
  -- and then the specification has its defaults and the generation is observed; or its only
  -- effect is one update, of the object with defaults and observed generation, the cache stays as
  -- it is, and the proxy was different from that object.
  pub sync_proxy-cases :
      (p : MemcachedProxy) (c : Cache)
      → ((sync_proxy env key p c ≡ pure tt c)
          × (p.spec ≡ (settled p).spec)
          × (p.status ≡ (settled p).status))
        ⊎ (((sync_proxy env key p c).effects
              ≡ update_proxy (settled p).meta.namespace (settled p) ∷ [])
            × ((sync_proxy env key p c).cache ≡ c)
            × (p ≢ settled p))
  sync_proxy-cases p c = elim (Bool-cases (same_spec_as_settled p && same_status_as_settled p)) [
    | inl same ↦
        let (specs, statuses) = (and-eq-true_iff _ _).0 same in
        inl (
          unfold sync_proxy in rw same,
          decided-eq-true (MemcachedProxySpec-discrete p.spec (settled p).spec) specs,
          decided-eq-true (MemcachedProxyStatus-discrete p.status (settled p).status) statuses,
        )
    | inr differs ↦ inr (
      unfold sync_proxy in rw differs (ground arith),
      unfold sync_proxy in rw differs (ground arith),
      λ e. cc (settled_test p e, differs),
    )
  ]

  -- What the update answers is what the sync returns: an error comes back, so that the item is retried.
  result-sync_proxy :
      (p : MemcachedProxy) (c : Cache) (e : Error)
      → (p.spec ≢ (settled p).spec) ⊎ (p.status ≢ (settled p).status)
      → ((env.on_update_proxy (settled p)).1 ≡ some e
          → (sync_proxy env key p c).result ≡ err (wrapped "failed to update %q: %v" key e))
        × ((env.on_update_proxy (settled p)).1 ≡ none → (sync_proxy env key p c).result ≡ ok tt)
  result-sync_proxy p c e h =
      let differs = unsettled_test p h in
      (
        λ answer. unfold sync_proxy in rw differs (ground arith),
        λ answer. unfold sync_proxy in rw differs (ground arith),
      )

  -- A proxy that is not settled is written.
  pub sync_proxy-writes :
      (p : MemcachedProxy) (c : Cache)
      → (p.spec ≢ (settled p).spec) ⊎ (p.status ≢ (settled p).status)
      → (sync_proxy env key p c).effects ≡ update_proxy (settled p).meta.namespace (settled p) ∷ []
  sync_proxy-writes p c h = unfold sync_proxy in rw (unsettled_test p h) (ground arith)
