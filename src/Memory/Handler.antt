-- ===== src/Memory/Handler.antt =====
-- The part of syncHandler of internal/controller/proxy/controller.go that works on memory: it copies the
-- proxy of the informer's cache, sets the defaults of the copy, and its observed generation.
use memcached_operator.Prelude.{ℕ, suc, ◌<◌, ◌≤◌, ◌≡◌, ◌∙◌, refl, some, arith}
use memcached_operator.Api.Proxy.{MemcachedProxy, apply_defaults}
use memcached_operator.Proxy.{update_status}
use memcached_operator.Proxy.Laws.{settled}
use memcached_operator.Memory.{
  Ptr, Memory, Cmd, ◌>>=◌, ◌>>◌, pure, head_cell, put, load_head, store, load_head_lem, store_lem,
  write-other,
}
use memcached_operator.Memory.Copy.{copy_proxy}
use memcached_operator.Memory.Defaults.{apply_defaults_at}
use memcached_operator.Memory.Frame.{Denotes-frame}
use memcached_operator.Memory.Proxies.{
  DenotesRouter-frame, copy_proxy_lem, apply_defaults_at_lem, StandsApart-Denotes, put-StandsApart,
}
use memcached_operator.Memory.Shape.{DenotesProxy, size}

-- Controller.updateStatus
unfoldable pub update_status_at : Ptr → Cmd (Unit {0})
update_status_at p = do
  (meta, status) ← load_head p
  store p (head_cell meta (record { observed_generation = meta.generation }))

-- `pCopy`, given the proxy of the lister. The fuel bounds the depth of the rules.
unfoldable pub settled_copy : ℕ → Ptr → Cmd Ptr
settled_copy fuel from = do
  out ← copy_proxy fuel from
  apply_defaults_at fuel out
  update_status_at out
  pure out

DenotesProxy-frame :
    (m m' : Memory) (below : Ptr) (a : Ptr) (p : MemcachedProxy)
    → ((b : Ptr) → b < below → m'.cell b ≡ m.cell b)
    → DenotesProxy m below a p
    → DenotesProxy m' below a p
DenotesProxy-frame m m' below a p same (h, d, r) = (
  same a (omega (arith, r.0)) ∙ h,
  Denotes-frame m m' below same (suc a) p.spec.rules d,
  DenotesRouter-frame m m' 0 0 below below (suc (suc a)) p.spec.mc_router (λ b _ l. same b l)
      (same (suc (suc a)) (r.0)) (omega arith) (omega arith) r,
)

-- Suppose the structs at an address of the memory, which may share values with others, stand for
-- a proxy, and the fuel is at least the number of its rules. Then the steps of syncHandler of the
-- proxy controller that copy the proxy, set the defaults of the copy and its observed generation
-- return without a fault; the structs at the returned address, which was not allocated before,
-- stand for the proxy with defaults and observed generation; the old structs stand for the old
-- proxy still, and no cell that was allocated before has changed.
pub settled_copy-settled :
    (fuel : ℕ) (m : Memory) (from a : Ptr) (p : MemcachedProxy)
    → DenotesProxy m m.next from p
    → size p.spec.rules ≤ fuel
    → a < m.next
    → (m' : Memory) × (settled_copy fuel from m ≡ some (m.next, m'))
      × DenotesProxy m' m'.next m.next (settled p)
      × DenotesProxy m' m.next from p
      × (m'.cell a ≡ m.cell a)
unfolding settled_copy update_status_at update_status apply_defaults
settled_copy-settled fuel m from a p d enough below =
    let copied = copy_proxy_lem fuel m from p d enough in
    let given =
      apply_defaults_at_lem fuel m from p copied.memory copied.apart enough copied.keeps in
    let n = m.next in
    let m2 = given.memory in
    let status = (settled p).status in
    let head = head_cell p.meta status in
    let m3 = put n head m2 in
    let same : (b : Ptr) → b < n → m3.cell b ≡ m.cell b =
      λ b l. write-other m2 n b head (omega arith) ∙ given.keeps b l in
    (
      m3,
      rw
          (
            copied.returns,
            given.returns,
            load_head_lem n m2 p.meta p.status given.apart.at_out,
            store_lem n m2 (head_cell p.meta p.status) head given.apart.at_out,
          )
          refl,
      StandsApart-Denotes m3 n (settled p)
          (put-StandsApart m2 n (apply_defaults p) given.apart status),
      DenotesProxy-frame m m3 n from p same d,
      same a below,
    )
