-- ===== src/Policy/Tests.antt =====
-- Policies of a link, and the theorems of Policy at them.
use mathlib.Core.List.Perm
use session_proxy.Base.{◌≡◌, refl, none, some, [], ◌∷◌}
use session_proxy.Base.Int.{pos, ◌≤ℤ◌}
use session_proxy.Domain.{AccessPolicy}
use session_proxy.Policy.{resolve_policies, unrestricted, tighten_all, tighten, min_ptr, min_int64}
use session_proxy.Policy.Restrictive.{Rejects, resolve_most_restrictive, violation_limit_capped}
use session_proxy.Policy.Order.{resolve_order_irrelevant}

abbrev generous : AccessPolicy
generous = record {
  id = 1;
  user_id = 7;
  name = "generous";
  max_requests = some (pos 1000);
  max_bytes_transferred = some (pos 1000000);
  max_ttl_seconds = none;
  max_violation_count = some (pos 10);
  created_at = 0;
}

abbrev strict_requests_only : AccessPolicy
strict_requests_only = record {
  id = 2;
  user_id = 7;
  name = "strict-requests-only";
  max_requests = some (pos 50);
  max_bytes_transferred = none;
  max_ttl_seconds = none;
  max_violation_count = none;
  created_at = 0;
}

stricter_wins : resolve_policies (generous ∷ strict_requests_only ∷ []) ≡ record {
  max_requests = some (pos 50);
  max_bytes_transferred = some (pos 1000000);
  max_ttl_seconds = none;
  max_violation_count = pos 3;
}
unfolding resolve_policies tighten_all tighten min_ptr min_int64
stricter_wins = refl

resolve_most_restrictive_example :
    Rejects unrestricted (resolve_policies (generous ∷ [])) (generous ∷ []) (pos 5)
resolve_most_restrictive_example = resolve_most_restrictive (generous ∷ []) (pos 5)

violation_limit_capped_example : (resolve_policies (generous ∷ [])).max_violation_count ≤ℤ pos 3
violation_limit_capped_example = violation_limit_capped (generous ∷ [])

resolve_order_irrelevant_example :
    resolve_policies (generous ∷ strict_requests_only ∷ [])
    ≡ resolve_policies (strict_requests_only ∷ generous ∷ [])
resolve_order_irrelevant_example =
    resolve_order_irrelevant (generous ∷ strict_requests_only ∷ [])
      (strict_requests_only ∷ generous ∷ []) (Perm.swap _ _ [])
