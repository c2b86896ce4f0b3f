-- ===== src/Memory/Proxies.antt =====
-- DeepCopy and ApplyDefaults of a whole MemcachedProxy on memory, as syncHandler of the proxy
-- controller runs them on an object of the informer's cache.
use memcached_operator.Prelude.{
  ℕ, suc, ◌⊎◌, ◌<◌, ◌≤◌, ◌≡◌, ◌≢◌, ◌∙◌, refl, Option, some, inl, inr, arith,
}
use memcached_operator.Api.Rules.{default_rule, root_type}
use memcached_operator.Api.Proxy.{
  MemcachedProxy, MemcachedProxyStatus, McRouterSpec, apply_defaults, default_spec,
}
use memcached_operator.Memory.{
  Ptr, RuleStruct, Memory, head_cell, rule_cell, port_cell, context_cell, router_cell, put, write,
  zero_rule, zero_router, zero_head, load_head_lem, store_lem, write-same, write-other,
}
use memcached_operator.Memory.Copy.{copy_spec_into, copy_proxy_into, copy_proxy}
use memcached_operator.Memory.Copy.Trees.{copy_rule_into_lem}
use memcached_operator.Memory.Defaults.{default_spec_at, apply_defaults_at}
use memcached_operator.Memory.Defaults.Trees.{default_rule_at_lem}
use memcached_operator.Memory.Frame.{
  PointsTo-frame, PointsTo-widen, Denotes-frame, Owns-frame, Owns-Denotes, Owns-le,
}
use memcached_operator.Memory.Routers.{copy_router_into_lem, default_router_at_lem}
use memcached_operator.Memory.Shape.{DenotesRouter, DenotesProxy, Owns, size}

pub DenotesRouter-frame :
    (m m' : Memory) (above above' below below' : Ptr) (a : Ptr) (s : McRouterSpec)
    → ((b : Ptr) → above ≤ b → b < below → m'.cell b ≡ m.cell b)
    → m'.cell a ≡ m.cell a
    → above' ≤ above
    → below ≤ below'
    → DenotesRouter m above below a s
    → DenotesRouter m' above' below' a s
DenotesRouter-frame m m' above above' below below' a s same here le le' (lt, v, h, i, r, t, p, q) =
    (
      omega arith,
      v,
      here ∙ h,
      i,
      r,
      t,
      PointsTo-widen port_cell m' above above' below below' v.port s.port le le'
          (PointsTo-frame m m' port_cell above below v.port s.port same p),
      PointsTo-widen context_cell m' above above' below below' v.security_context s.security_context
          le le'
          (PointsTo-frame m m' context_cell above below v.security_context s.security_context same
            q),
    )

-- The memory after `new(MemcachedProxy)`.
abbrev with_proxy : Memory → Memory
with_proxy m =
    let n = m.next in
    let c1 = write m.cell n zero_head in
    let c2 = write c1 (suc n) (rule_cell zero_rule) in
    let c3 = write c2 (suc (suc n)) (router_cell zero_router) in
    record { next = suc (suc (suc n)); cell = c3 }

module _ (m : Memory) where
  with_proxy-below : (a : Ptr) → a < m.next → (with_proxy m).cell a ≡ m.cell a
  with_proxy-below a l = ground arith

  with_proxy-head : (with_proxy m).cell m.next ≡ some zero_head
  with_proxy-head = ground arith

  with_proxy-rules : (with_proxy m).cell (suc m.next) ≡ some (rule_cell zero_rule)
  with_proxy-rules = ground arith

  with_proxy-router : (with_proxy m).cell (suc (suc m.next)) ≡ some (router_cell zero_router)
  with_proxy-router = ground arith

-- The structs from an address on stand for a proxy, and share nothing with each other or with what
-- stood below the address.
pub record StandsApart (memory : Memory) (out : Ptr) (p : MemcachedProxy) : Type 0 where
  pub at_out : memory.cell out ≡ some (head_cell p.meta p.status)
  pub rules : RuleStruct
  pub at_rules : memory.cell (suc out) ≡ some (rule_cell rules)
  pub mid : Ptr
  pub owns : Owns memory rules (suc (suc (suc out))) mid p.spec.rules
  pub fits : mid ≤ memory.next
  pub routes : DenotesRouter memory mid memory.next (suc (suc out)) p.spec.mc_router

-- A run that gives such a proxy, and changes no cell below it.
pub record Makes {A : Type 0} (run : Option (A × Memory)) (m : Memory) (a : A) (p : MemcachedProxy)
    : Type 0 where
  pub memory : Memory
  pub returns : run ≡ some (a, memory)
  pub keeps : (b : Ptr) → b < m.next → memory.cell b ≡ m.cell b
  pub apart : StandsApart memory m.next p

module _ (m : Memory) (out : Ptr) (p : MemcachedProxy) (apart : StandsApart m out p) where
  StandsApart-le : suc (suc (suc out)) ≤ apart.mid
  StandsApart-le = Owns-le m apart.rules (suc (suc (suc out))) apart.mid p.spec.rules apart.owns

  pub StandsApart-Denotes : DenotesProxy m m.next out p
  StandsApart-Denotes = (
    apart.at_out,
    Owns-Denotes m (suc out) (suc (suc (suc out))) apart.mid m.next apart.rules p.spec.rules
        apart.at_rules apart.owns (omega (arith, StandsApart-le, apart.fits)) apart.fits,
    DenotesRouter-frame m m apart.mid 0 m.next m.next (suc (suc out)) p.spec.mc_router
        (λ b l u. refl) refl (omega arith) (omega arith) apart.routes,
  )

  -- Another status for the same proxy.
  pub put-StandsApart :
      (status : MemcachedProxyStatus)
      → StandsApart (put out (head_cell p.meta status) m) out (record p { status = status })
  put-StandsApart status =
      let m' = put out (head_cell p.meta status) m in
      let same : (b : Ptr) → out < b → m'.cell b ≡ m.cell b =
        λ b l. write-other m out b (head_cell p.meta status) (omega arith) in
      record {
        at_out = write-same m out out (head_cell p.meta status);
        rules = apart.rules;
        at_rules = same (suc out) (omega arith) ∙ apart.at_rules;
        mid = apart.mid;
        owns =
            Owns-frame m m' apart.rules (suc (suc (suc out))) apart.mid p.spec.rules
              (λ b l u. same b (omega arith)) apart.owns;
        fits = apart.fits;
        routes =
            DenotesRouter-frame m m' apart.mid apart.mid m.next m.next (suc (suc out))
              p.spec.mc_router (λ b l u. same b (omega (arith, StandsApart-le)))
              (same (suc (suc out)) (omega arith)) (omega arith) (omega arith) apart.routes;
      }

module _ (fuel : ℕ) (m : Memory) (from : Ptr) (p : MemcachedProxy) where
  pub copy_proxy_lem :
      DenotesProxy m m.next from p
      → size p.spec.rules ≤ fuel
      → Makes (copy_proxy fuel from m) m m.next p
  unfolding copy_proxy copy_proxy_into copy_spec_into
  copy_proxy_lem (h, d, router) enough =
      let n = m.next in
      let head = head_cell p.meta p.status in
      let m1 = with_proxy m in
      let m2 = put n head m1 in
      let same : (a : Ptr) → a < n → m2.cell a ≡ m.cell a =
        λ a l. write-other m1 n a head (omega arith) ∙ with_proxy-below m a l in
      let rules =
        copy_rule_into_lem fuel m2 n (suc from) (suc n) p.spec.rules (rule_cell zero_rule)
          (Denotes-frame m m2 n same (suc from) p.spec.rules d) (omega arith) (omega arith)
          (write-other m1 n (suc n) head (omega arith) ∙ with_proxy-rules m) enough in
      let m3 = rules.memory in
      let below3 : (a : Ptr) → a < n → m3.cell a ≡ m.cell a =
        λ a l. rules.keeps a (omega arith) (omega arith) ∙ same a l in
      let router' =
        DenotesRouter-frame m m3 0 0 n n (suc (suc from)) p.spec.mc_router (λ a _ l. below3 a l)
          (below3 (suc (suc from)) (router.0)) (omega arith) (omega arith) router in
      let routes =
        copy_router_into_lem m3 0 n p.spec.mc_router (suc (suc from)) (suc (suc n))
          (router_cell zero_router) router' (omega arith) (omega (arith, rules.grows))
          (rules.keeps (suc (suc n)) (omega arith) (omega arith)
            ∙ write-other m1 n (suc (suc n)) head (omega arith)
            ∙ with_proxy-router m) in
      let kept : (a : Ptr) → a < m3.next → a ≢ suc (suc n) → routes.memory.cell a ≡ m3.cell a =
        routes.keeps in
      record {
        memory = routes.memory;
        returns =
            rw
              (
                load_head_lem from m1 p.meta p.status
                    (with_proxy-below m from (omega (arith, router.0)) ∙ h),
                store_lem n m1 zero_head head (with_proxy-head m),
                rules.returns,
                routes.returns,
              )
              refl;
        keeps = λ a l. kept a (omega (arith, rules.grows)) (omega arith) ∙ below3 a l;
        apart = record {
          at_out =
              kept n (omega (arith, rules.grows)) (omega arith)
              ∙ rules.keeps n (omega arith) (omega arith)
              ∙ write-same m1 n n head;
          rules = rules.copied;
          at_rules = kept (suc n) (omega (arith, rules.grows)) (omega arith) ∙ rules.at_out;
          mid = m3.next;
          owns =
              Owns-frame m3 routes.memory rules.copied (suc (suc (suc n))) m3.next p.spec.rules
                (λ a l u. kept a u (omega arith)) rules.owns;
          fits = routes.grows;
          routes = routes.denotes;
        };
      }

  pub apply_defaults_at_lem :
      (before : Memory)
      → StandsApart before m.next p
      → size p.spec.rules ≤ fuel
      → ((b : Ptr) → b < m.next → before.cell b ≡ m.cell b)
      → Makes (apply_defaults_at fuel m.next before) m tt (apply_defaults p)
  unfolding apply_defaults_at default_spec_at apply_defaults default_spec
  apply_defaults_at_lem before c enough unchanged =
      let n = m.next in
      let lo = suc (suc (suc n)) in
      let ordered = StandsApart-le before n p c in
      let fits = c.fits in
      let routes =
        default_router_at_lem before c.mid before.next p.spec.mc_router (suc (suc n)) c.routes fits
          (omega arith) in
      let m5 = routes.memory in
      let grown = routes.grows in
      let rules =
        default_rule_at_lem p.meta.namespace fuel m5 (suc n) lo c.mid c.rules p.spec.rules
          (routes.keeps (suc n) (omega arith) (omega arith) ∙ c.at_rules)
          (Owns-frame before m5 c.rules lo c.mid p.spec.rules
            (λ a l u. routes.keeps a (omega arith) (omega arith)) c.owns)
          (inl (omega arith)) (omega arith) (omega arith) enough in
      let m6 = rules.memory in
      let kept : (a : Ptr)
          → a < m5.next
          → a ≢ suc n
          → (a < lo) ⊎ (c.mid ≤ a)
          → m6.cell a ≡ m5.cell a =
        rules.keeps in
      record {
        memory = m6;
        returns =
            rw (load_head_lem n before p.meta p.status c.at_out, routes.returns, rules.returns)
              refl;
        keeps = λ a l.
            kept a (omega arith) (omega arith) (inl (omega arith))
            ∙ routes.keeps a (omega arith) (omega arith)
            ∙ unchanged a l;
        apart = record {
          at_out =
              kept n (omega arith) (omega arith) (inl (omega arith))
              ∙ routes.keeps n (omega arith) (omega arith)
              ∙ c.at_out;
          rules = record c.rules { type = root_type (default_rule p.meta.namespace p.spec.rules) };
          at_rules = rules.at_p;
          mid = c.mid;
          owns = rules.owns;
          fits = omega (arith, rules.grows);
          routes =
              DenotesRouter-frame m5 m6 c.mid c.mid m5.next m6.next (suc (suc n))
                (apply_defaults p).spec.mc_router (λ a l u. kept a u (omega arith) (inr l))
                (kept (suc (suc n)) (omega arith) (omega arith) (inl (omega arith))) (omega arith)
                rules.grows routes.denotes;
        };
      }
