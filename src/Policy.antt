-- ===== src/Policy.antt =====
-- app/internal/service/policy_resolver.go: the policies attached to a link, resolved to one set of
-- limits. The repository call of Resolve is in Enforcement/Checks; here is its loop.
pub mod Restrictive
pub mod Order
mod Tests
use session_proxy.Base.{Option, none, some, List, [], ◌∷◌, if◌then◌else◌}
use session_proxy.Base.Int.{ℤ, ltb_ℤ}
use session_proxy.Domain.{AccessPolicy, EffectivePolicy, default_max_violation_count}

unfoldable pub min_ptr : Option ℤ → Option ℤ → Option ℤ
min_ptr none b = b
min_ptr (some a) none = some a
min_ptr (some a) (some b) = if ltb_ℤ a b then some a else some b

unfoldable pub min_int64 : ℤ → ℤ → ℤ
min_int64 a b = if ltb_ℤ a b then a else b

-- `if p.MaxViolationCount != nil { ... }`
min_violations : ℤ → Option ℤ → ℤ
min_violations a none = a
min_violations a (some b) = min_int64 a b

-- The body of the loop.
unfoldable pub tighten : EffectivePolicy → AccessPolicy → EffectivePolicy
unfolding min_violations
tighten e p = record {
  max_requests = min_ptr e.max_requests p.max_requests;
  max_bytes_transferred = min_ptr e.max_bytes_transferred p.max_bytes_transferred;
  max_ttl_seconds = min_ptr e.max_ttl_seconds p.max_ttl_seconds;
  max_violation_count = min_violations e.max_violation_count p.max_violation_count;
}

unfoldable pub tighten_all : EffectivePolicy → List AccessPolicy → EffectivePolicy
tighten_all e [] = e
tighten_all e (p ∷ ps) = tighten_all (tighten e p) ps

abbrev pub unrestricted : EffectivePolicy
unrestricted = record {
  max_requests = none;
  max_bytes_transferred = none;
  max_ttl_seconds = none;
  max_violation_count = default_max_violation_count;
}

unfoldable pub resolve_policies : List AccessPolicy → EffectivePolicy
resolve_policies ps = tighten_all unrestricted ps
