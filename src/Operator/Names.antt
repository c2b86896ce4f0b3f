-- ===== src/Operator/Names.antt =====
-- Generated names: internal/controller/names.go.
pub mod Bounds
use memcached_operator.Prelude.{String, ◌<>◌, List, [], ◌∷◌, Dict}
use memcached_operator.Api.Meta.{ObjectMeta}
use memcached_operator.Runtime.Env.{Libs}
use Prim.Native.String.{slice}

-- What is written to the hasher, value after value.
abbrev concat : List String → String
concat [] = ""
concat (v ∷ vs) = v <> concat vs

module _ (libs : Libs) where
  open libs use {digest, to_lower}

  -- The prefix and five digits of the hash of the values.
  unfoldable pub make_name : String → List String → String
  make_name prefix hash_values = prefix <> to_lower (slice (digest (concat hash_values)) 2 7)

  unfoldable pub get_proxy_service_name : ObjectMeta → String
  get_proxy_service_name p = make_name (p.name <> "-memcached-") (p.name ∷ [])

  unfoldable pub get_proxy_service_selector : ObjectMeta → Dict String
  get_proxy_service_selector p =
      ("memcached-operator", "true")
      ∷ ("mcrouter", make_name (p.name <> "-") (p.namespace ∷ p.name ∷ []))
      ∷ []
