-- ===== src/Api/Proxy.antt =====
-- MemcachedProxy, its specification and status, and its defaults (types.go).
use memcached_operator.Prelude.{
  String, ◌==◌, Bool, true, Option, none, some, Dict, ℤ, if◌then◌else◌,
}
use memcached_operator.Api.Meta.{ObjectMeta}
use memcached_operator.Api.Rules.{RuleSpec, default_rule}

-- corev1.ResourceRequirements: quantities as texts.
pub record ResourceRequirements : Type 0 where
  pub limits : Dict String
  pub requests : Dict String

-- The two fields of corev1.SecurityContext that the defaults set.
pub record SecurityContext : Type 0 where
  pub run_as_non_root : Option Bool
  pub read_only_root_filesystem : Option Bool

pub record McRouterSpec : Type 0 where
  pub image : String
  pub resources : ResourceRequirements
  pub port : Option ℤ
  pub security_context : Option SecurityContext
  pub stats_root : String

pub record MemcachedProxySpec : Type 0 where
  pub rules : RuleSpec
  pub mc_router : McRouterSpec

pub record MemcachedProxyStatus : Type 0 where
  pub observed_generation : ℤ

pub record MemcachedProxy : Type 0 where
  pub meta : ObjectMeta
  pub spec : MemcachedProxySpec
  pub status : MemcachedProxyStatus

abbrev pub default_image : String
default_image = "ianmlewis/mcrouter:v0.36.0-2"

abbrev pub default_port : ℤ
default_port = ℤ.pos 11211

abbrev pub default_stats_root : String
default_stats_root = "/var/mcrouter/stats"

abbrev pub default_security_context : SecurityContext
default_security_context = record {
  run_as_non_root = some true;
  read_only_root_filesystem = some true;
}

abbrev pub or_default {ℓ} : {A : Type ℓ} → Option A → A → Option A
or_default none d = some d
or_default (some a) d = some a

-- McRouterSpec.ApplyDefaults
unfoldable pub default_mc_router : McRouterSpec → McRouterSpec
default_mc_router s = record {
  image = if s.image == "" then default_image else s.image;
  resources = s.resources;
  port = or_default s.port default_port;
  security_context = or_default s.security_context default_security_context;
  stats_root = if s.stats_root == "" then default_stats_root else s.stats_root;
}

-- MemcachedProxySpec.ApplyDefaults, given the namespace of the proxy.
unfoldable pub default_spec : String → MemcachedProxySpec → MemcachedProxySpec
unfolding default_mc_router
default_spec ns s = record {
  rules = default_rule ns s.rules;
  mc_router = default_mc_router s.mc_router;
}

-- MemcachedProxy.ApplyDefaults
unfoldable pub apply_defaults : MemcachedProxy → MemcachedProxy
unfolding default_spec
apply_defaults p = record p { spec = default_spec p.meta.namespace p.spec }
