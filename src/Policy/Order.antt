-- ===== src/Policy/Order.antt =====
-- The resolved limits do not depend on the order in which the policies are listed.
use mathlib.Core.List.{Perm, Permᴰ}
use mathlib.Core.Logic.{∥∥₁_elim}
use session_proxy.Base.{◌≡◌, refl, ap, ◌∙◌, Option, none, some, List, arith}
use session_proxy.Base.Int.{ℤ}
use session_proxy.Domain.{AccessPolicy, EffectivePolicy}
use session_proxy.Policy.{
  min_ptr, min_int64, min_violations, tighten, tighten_all, resolve_policies, unrestricted,
}

min_int64_swap : (e a b : ℤ) → min_int64 (min_int64 e a) b ≡ min_int64 (min_int64 e b) a
unfolding min_int64
min_int64_swap e a b = ground arith

min_ptr_swap : (e a b : Option ℤ) → min_ptr (min_ptr e a) b ≡ min_ptr (min_ptr e b) a
unfolding min_ptr
min_ptr_swap e a b = ground arith

min_violations_swap :
    (e : ℤ) (a b : Option ℤ)
    → min_violations (min_violations e a) b ≡ min_violations (min_violations e b) a
unfolding min_violations
min_violations_swap e none b = refl
min_violations_swap e (some a) none = refl
min_violations_swap e (some a) (some b) = min_int64_swap e a b

tighten_swap :
    (e : EffectivePolicy) (p q : AccessPolicy) → tighten (tighten e p) q ≡ tighten (tighten e q) p
unfolding tighten
tighten_swap e p q = λ i. record {
  max_requests = min_ptr_swap e.max_requests p.max_requests q.max_requests i;
  max_bytes_transferred =
      min_ptr_swap e.max_bytes_transferred p.max_bytes_transferred q.max_bytes_transferred i;
  max_ttl_seconds = min_ptr_swap e.max_ttl_seconds p.max_ttl_seconds q.max_ttl_seconds i;
  max_violation_count =
      min_violations_swap e.max_violation_count p.max_violation_count q.max_violation_count i;
}

tighten_all-perm :
    {ps qs : List AccessPolicy} (e : EffectivePolicy)
    → Permᴰ ps qs
    → tighten_all e ps ≡ tighten_all e qs
unfolding tighten_all
tighten_all-perm e Permᴰ.nil = refl
tighten_all-perm e (Permᴰ.cons {a = p} {b = q} {l₂ = l} x h) =
    tighten_all-perm (tighten e p) h ∙ ap (λ r. tighten_all (tighten e r) l) x
tighten_all-perm e (Permᴰ.swap {a = p} {b = q} {l = l} x y) = rw (tighten_swap e p q, x, y)
tighten_all-perm e (Permᴰ.trans h k) = tighten_all-perm e h ∙ tighten_all-perm e k

EffectivePolicy-set : IsSet EffectivePolicy
EffectivePolicy-set = hlevel

-- Two listings of the same policies, in any order, resolve to the same limits.
pub resolve_order_irrelevant :
    (ps qs : List AccessPolicy) → Perm ps qs → resolve_policies ps ≡ resolve_policies qs
unfolding resolve_policies
resolve_order_irrelevant ps qs h =
    ∥∥₁_elim h (EffectivePolicy-set _ _) (tighten_all-perm unrestricted)
