-- ===== src/Operator/Names/Bounds.antt =====
-- The lengths of the names that MakeName makes, against the limit that Kubernetes has for the name of a
-- Service and for the value of a label.
use Prim.Native.String.{count, slice}
use package.text.Mathlib.TextLemmas.{length-append}
use memcached_operator.Prelude.{
  ℕ, String, ◌<>◌, ◌+◌, ◌≤◌, ◌≡◌, ◌↔◌, refl, List, [], ◌∷◌, arith, some, lookup,
}
use memcached_operator.Api.Meta.{ObjectMeta}
use memcached_operator.Runtime.Env.{Libs}
use memcached_operator.Operator.Names.{
  make_name, get_proxy_service_name, get_proxy_service_selector,
}

abbrev pub max_name : ℕ
max_name = 63

-- The digits that are taken from a hash are five, in lower case too.
abbrev pub HasFiveDigits : Libs → Type 0
HasFiveDigits libs = (s : String) → count (libs.to_lower (slice (libs.digest s) 2 7)) ≡ 5

module _ (libs : Libs) (five : HasFiveDigits libs) where
  count-make_name :
      (prefix : String) (values : List String)
      → count (make_name libs prefix values) ≡ count prefix + 5
  unfolding make_name
  count-make_name prefix values = omega (arith, length-append prefix _, five _)

  count-get_proxy_service_name :
      (p : ObjectMeta) → count (get_proxy_service_name libs p) ≡ count p.name + 16
  unfolding get_proxy_service_name
  count-get_proxy_service_name p = omega (
    arith,
    count-make_name (p.name <> "-memcached-") (p.name ∷ []),
    length-append p.name "-memcached-",
  )

  -- Where a hash gives five digits, in lower case too: the name of the Service of a proxy has at
  -- most 63 characters exactly if the name of the proxy has at most 47, and the value of the
  -- label "mcrouter" by which the Service selects its pods has at most 63 exactly if the name of
  -- the proxy has at most 57.
  pub get_proxy_service_name-fits_iff :
      (p : ObjectMeta)
      → ((count (get_proxy_service_name libs p) ≤ max_name) ↔ (count p.name ≤ 47))
        × (label : String) × (lookup "mcrouter" (get_proxy_service_selector libs p) ≡ some label)
        × ((count label ≤ max_name) ↔ (count p.name ≤ 57))
  unfolding get_proxy_service_selector lookup
  get_proxy_service_name-fits_iff p =
      let label = make_name libs (p.name <> "-") (p.namespace ∷ p.name ∷ []) in
      let service = count-get_proxy_service_name p in
      let value : count label ≡ count p.name + 6 = omega (
        arith,
        count-make_name (p.name <> "-") (p.namespace ∷ p.name ∷ []),
        length-append p.name "-",
      ) in
      ((λ h. omega arith, λ h. omega arith), label, refl, (λ h. omega arith, λ h. omega arith))
