-- ===== src/Api/Equality.antt =====
-- reflect.DeepEqual on the types of types.go.
use native.Mathlib.Decide.{ℕ_discrete}
use memcached_operator.Prelude.{Bool, String-discrete, decided}
use memcached_operator.Api.Proxy.{MemcachedProxySpec, MemcachedProxyStatus}

unfoldable pub MemcachedProxySpec-discrete : Discrete MemcachedProxySpec
MemcachedProxySpec-discrete = hlevel (ℕ_discrete, String-discrete)

unfoldable pub MemcachedProxyStatus-discrete : Discrete MemcachedProxyStatus
MemcachedProxyStatus-discrete = hlevel ℕ_discrete

abbrev pub same_spec : MemcachedProxySpec → MemcachedProxySpec → Bool
same_spec a b = decided (MemcachedProxySpec-discrete a b)

abbrev pub same_status : MemcachedProxyStatus → MemcachedProxyStatus → Bool
same_status a b = decided (MemcachedProxyStatus-discrete a b)
