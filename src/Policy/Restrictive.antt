-- ===== src/Policy/Restrictive.antt =====
-- The resolved limits reject exactly what one of the policies, or the default, rejects.
use session_proxy.Base.{
  ◌≡◌, refl, Bool, false, ◌||◌, Option, none, some, List, [], ◌∷◌, arith, any_row,
}
use session_proxy.Base.Int.{ℤ, pos, leb_ℤ, ◌≤ℤ◌}
use session_proxy.Domain.{AccessPolicy, EffectivePolicy}
use session_proxy.Policy.{
  min_ptr, min_int64, min_violations, tighten, tighten_all, unrestricted, resolve_policies,
}

-- An amount is at or past an optional limit.
abbrev pub reached : Option ℤ → ℤ → Bool
reached none n = false
reached (some limit) n = leb_ℤ limit n

pub reached-min_ptr :
    (a b : Option ℤ) (n : ℤ) → reached (min_ptr a b) n ≡ (reached a n || reached b n)
unfolding min_ptr
reached-min_ptr none b n = refl
reached-min_ptr (some a) none n = ground arith
reached-min_ptr (some a) (some b) n = ground arith

reached-min_violations :
    (a : ℤ) (b : Option ℤ) (n : ℤ) → leb_ℤ (min_violations a b) n ≡ (leb_ℤ a n || reached b n)
unfolding min_violations min_int64
reached-min_violations a none n = ground arith
reached-min_violations a (some b) n = ground arith

or_assoc : (a b c : Bool) → (a || b || c) ≡ (a || (b || c))
or_assoc a b c = ground arith

-- The four limits of an effective policy, as tests on an amount.
pub record Rejects (e f : EffectivePolicy) (ps : List AccessPolicy) (n : ℤ) : Type 0 where
  pub requests :
      reached f.max_requests n
      ≡ (reached e.max_requests n || any_row (λ p. reached p.max_requests n) ps)
  pub bytes :
      reached f.max_bytes_transferred n
      ≡ (reached e.max_bytes_transferred n || any_row (λ p. reached p.max_bytes_transferred n) ps)
  pub ttl :
      reached f.max_ttl_seconds n
      ≡ (reached e.max_ttl_seconds n || any_row (λ p. reached p.max_ttl_seconds n) ps)
  pub violations :
      leb_ℤ f.max_violation_count n
      ≡ (leb_ℤ e.max_violation_count n || any_row (λ p. reached p.max_violation_count n) ps)

or_false : (a : Bool) → a ≡ (a || false)
or_false a = ground arith

tighten_all-Rejects :
    (e : EffectivePolicy) (ps : List AccessPolicy) (n : ℤ) → Rejects e (tighten_all e ps) ps n
unfolding tighten_all tighten
tighten_all-Rejects e [] n = record {
  requests = or_false _;
  bytes = or_false _;
  ttl = or_false _;
  violations = or_false _;
}
tighten_all-Rejects e (p ∷ ps) n =
    let ih = tighten_all-Rejects (tighten e p) ps n in
    record {
      requests = rw (ih.requests, reached-min_ptr e.max_requests p.max_requests n, or_assoc);
      bytes =
          rw
            (ih.bytes, reached-min_ptr e.max_bytes_transferred p.max_bytes_transferred n, or_assoc);
      ttl = rw (ih.ttl, reached-min_ptr e.max_ttl_seconds p.max_ttl_seconds n, or_assoc);
      violations = rw (
        ih.violations,
        reached-min_violations e.max_violation_count p.max_violation_count n,
        or_assoc,
      );
    }

-- For every list of policies and every amount, each of the four resolved limits is reached exactly
-- when some policy of the list sets that limit and it is reached, or, for violations only, when
-- the default limit of three is reached: a null limit takes no part.
pub resolve_most_restrictive :
    (ps : List AccessPolicy) (n : ℤ) → Rejects unrestricted (resolve_policies ps) ps n
unfolding resolve_policies
resolve_most_restrictive ps n = tighten_all-Rejects unrestricted ps n

tighten_all-violations-le :
    (e : EffectivePolicy) (ps : List AccessPolicy)
    → (tighten_all e ps).max_violation_count ≤ℤ e.max_violation_count
unfolding tighten_all tighten min_violations min_int64
tighten_all-violations-le e [] = omega arith
tighten_all-violations-le e (p ∷ ps) = ground (arith, tighten_all-violations-le (tighten e p) ps)

-- The effective violation limit is never above three, whatever limits the policies set.
pub violation_limit_capped :
    (ps : List AccessPolicy) → (resolve_policies ps).max_violation_count ≤ℤ pos 3
unfolding resolve_policies
violation_limit_capped ps = tighten_all-violations-le unrestricted ps
