-- ===== src/Api/Defaults/Fixed.antt =====
-- The proxies that ApplyDefaults leaves as they are (types.go).
use memcached_operator.Prelude.{
  String, ◌==◌, eq_iff, ◌≡◌, ◌≢◌, ◌↔◌, refl, subst, Option, none, some, arith, All, All-append_left,
  All-append_right, if◌then◌else◌,
}
use memcached_operator.Api.Rules.{
  ServiceSpec, RuleSpec, rule, RuleSpecs, nil, cons, default_service, default_rule,
  default_children, all_services, all_services_of_children, root_type,
}
use memcached_operator.Api.Proxy.{
  MemcachedProxy, apply_defaults, or_default, default_image, default_port, default_security_context,
  default_stats_root,
}
use memcached_operator.Api.Defaults.Complete.{IsComplete, apply_defaults-IsComplete}

abbrev HasNamespace : ServiceSpec → Type 0
HasNamespace s = s.namespace ≢ ""

kept_text : (a d : String) → a ≢ "" → (if a == "" then d else a) ≡ a
kept_text a d h = ground (arith, eq_iff a "")

kept_option : {A : Type 0} (a : Option A) (d : A) → a ≢ none → or_default a d ≡ a
kept_option none d h = absurd (h refl)
kept_option (some v) d h = refl

kept_service : (ns : String) (s : ServiceSpec) → HasNamespace s → default_service ns s ≡ s
unfolding default_service
kept_service ns s h = λ i. record s { namespace = kept_text s.namespace ns h i }

kept_children :
    (ns : String) (rs : RuleSpecs)
    → All HasNamespace (all_services_of_children rs)
    → default_children ns rs ≡ rs
unfolding default_rule all_services
kept_children ns nil h = refl
kept_children ns (cons (rule type none children) rs) h =
    let first = All-append_left HasNamespace (all_services_of_children children) _ h in
    let later = All-append_right HasNamespace (all_services_of_children children) _ h in
    rw (kept_children ns children first, kept_children ns rs later)
kept_children ns (cons (rule type (some s) children) rs) (named, h) =
    let first = All-append_left HasNamespace (all_services_of_children children) _ h in
    let later = All-append_right HasNamespace (all_services_of_children children) _ h in
    rw (kept_service ns s named, kept_children ns children first, kept_children ns rs later)

kept_rule :
    (ns : String) (r : RuleSpec)
    → root_type r ≢ ""
    → All HasNamespace (all_services r)
    → default_rule ns r ≡ r
unfolding default_rule all_services
kept_rule ns (rule type none children) h hs =
    λ i. rule (kept_text type "sharded" h i) none (kept_children ns children hs i)
kept_rule ns (rule type (some s) children) h (named, hs) = λ i.
    rule (kept_text type "sharded" h i) (some (kept_service ns s named i))
      (kept_children ns children hs i)

kept_proxy : (p : MemcachedProxy) → IsComplete p → apply_defaults p ≡ p
unfolding apply_defaults
kept_proxy p h = λ i. record p {
  spec = record {
    rules = kept_rule p.meta.namespace p.spec.rules h.type h.namespaces i;
    mc_router = record {
      image = kept_text p.spec.mc_router.image default_image h.image i;
      resources = p.spec.mc_router.resources;
      port = kept_option p.spec.mc_router.port default_port h.port i;
      security_context =
          kept_option p.spec.mc_router.security_context default_security_context h.security_context
            i;
      stats_root = kept_text p.spec.mc_router.stats_root default_stats_root h.stats_root i;
    };
  };
}

-- ApplyDefaults leaves a proxy that has a namespace as it is exactly if the image, the port, the
-- security context, the stats root and the type of the root rule are set, and every service in
-- the tree of rules has a namespace.
pub apply_defaults-fixed_iff :
    (p : MemcachedProxy) → p.meta.namespace ≢ "" → (apply_defaults p ≡ p) ↔ IsComplete p
apply_defaults-fixed_iff p h =
    (λ e. subst IsComplete e (apply_defaults-IsComplete p h), kept_proxy p)
