-- ===== src/Limiter/Rows.antt =====
-- What a flush of one link leaves as it is in usage_counters and shared_links.
use session_proxy.Base.{
  ℕ, ◌≡◌, refl, ap, ◌∙◌, inl, inr, false, some, List, [], ◌∷◌, ◌++◌, arith, ◌==◌, if◌then◌else◌,
  ==_iff, Bool-cases, first_row, update_rows, any_row,
}
use session_proxy.Domain.{UsageCounters}
use session_proxy.Store.Db.{Db}
use session_proxy.Repo.Guests.{upsert_usage, usage_of}
use session_proxy.Limiter.{Counters}
use session_proxy.Limiter.Flush.{flushed, fits_columns}

usage_kept_update :
    (link j : ℕ) (row : UsageCounters) (us : List UsageCounters)
    → row.shared_link_id ≡ link
    → (link == j) ≡ false
    → first_row
        (λ u. u.shared_link_id == j)
        (update_rows (λ u. u.shared_link_id == link) (λ u. row) us)
      ≡ first_row (λ u. u.shared_link_id == j) us
usage_kept_update link j row [] e h = refl
usage_kept_update link j row (u ∷ us) e h = elim (Bool-cases (u.shared_link_id == link)) [
  | inl t ↦
      rw (t, ap (λ k. k == j) e ∙ h, ap (λ k. k == j) ((==_iff u.shared_link_id link).0 t) ∙ h)
        (usage_kept_update link j row us e h)
  | inr f ↦
      rw f (
        ap (λ r. if u.shared_link_id == j then some u else r) (usage_kept_update link j row us e h))
]

usage_kept_add :
    (j : ℕ) (row : UsageCounters) (us : List UsageCounters)
    → (row.shared_link_id == j) ≡ false
    → first_row (λ u. u.shared_link_id == j) (us ++ row ∷ [])
      ≡ first_row (λ u. u.shared_link_id == j) us
usage_kept_add j row [] h = rw h refl
usage_kept_add j row (u ∷ us) h =
    ap (λ r. if u.shared_link_id == j then some u else r) (usage_kept_add j row us h)

pub usage_of-upsert_usage :
    (link j : ℕ) (c : Counters) (now : ℕ) (d : Db)
    → (link == j) ≡ false
    → usage_of j (upsert_usage (flushed link c 0) now d).1 ≡ usage_of j d
unfolding upsert_usage
usage_of-upsert_usage link j c now d h = elim (Bool-cases (fits_columns c)) [
  | inr f ↦ rw f refl
  | inl f ↦ elim (Bool-cases (any_row (λ u. u.shared_link_id == link) d.usage_counters)) [
    | inl e ↦ rw (f, e) (usage_kept_update link j _ d.usage_counters refl h)
    | inr e ↦ elim (Bool-cases (any_row (λ l. l.id == link) d.shared_links)) [
      | inl k ↦ rw (f, e, k) (usage_kept_add j _ d.usage_counters h)
      | inr k ↦ rw (f, e, k) refl
    ]
  ]
]

pub shared_links-upsert_usage :
    (u : UsageCounters) (now : ℕ) (d : Db) → (upsert_usage u now d).1.shared_links ≡ d.shared_links
unfolding upsert_usage
shared_links-upsert_usage u now d = ground arith
