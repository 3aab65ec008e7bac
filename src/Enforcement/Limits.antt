-- ===== src/Enforcement/Limits.antt =====
-- What BeforeProxy does when a limit is reached.
use session_proxy.Base.{
  subst, sym, ap, ◌∙◌, ℕ, ◌≡◌, refl, String, true, false, Option, none, some, [], ◌∷◌, ◌++◌, str_eq,
  first_row, any_row, All, Bool-cases, inl, inr, if◌then◌else◌,
}
use session_proxy.Base.Int.{pos, leb_ℤ}
use session_proxy.Domain.{
  SharedLink, LinkWithSession, EffectivePolicy, link_status_terminated, reason_ttl_expired,
  reason_request_limit, reason_traffic_limit, reason_violation_limit,
}
use session_proxy.Store.Redis.{Redis}
use session_proxy.Store.App.{command, settle, Result, ok, World, AllAnswered, pure, ◌>>=◌, ◌>>◌}
use session_proxy.Repo.Links.{link_by_id}
use session_proxy.Repo.Logs.{terminations_of}
use session_proxy.Limiter.{read_counters}
use session_proxy.Limiter.{Counters}
use session_proxy.Limiter
use session_proxy.LinkService.Termination.{
  automatic, auto_terminate-active, closed, closed_row, record_added,
}
use session_proxy.Enforcement.{
  judge, check_limits, Verdict, refuse, pass, at_limit, past_ttl, notify, after_termination,
  auto_terminate,
}

-- The status and the reason of the first limit that is reached: TTL, requests, traffic, violations.
abbrev pub due : EffectivePolicy → ℕ → ℕ → Counters → Option (ℕ × String)
due e created now c =
    if past_ttl e.max_ttl_seconds created now
    then some (410, reason_ttl_expired)
    else if at_limit e.max_requests c.requests
    then some (403, reason_request_limit)
    else if at_limit e.max_bytes_transferred c.bytes
    then some (403, reason_traffic_limit)
    else if leb_ℤ e.max_violation_count (pos c.violations)
    then some (403, reason_violation_limit)
    else none

-- The link is there and not terminated, the schema has the reason, and every call is answered.
pub record CanEnd {R : Type 0} (link : ℕ) (row : SharedLink) (w : World R) : Type 0 where
  pub calls : AllAnswered w
  pub found : first_row (link_by_id link) w.db.shared_links ≡ some row
  pub active : str_eq row.status link_status_terminated ≡ false
  pub known :
      All
        (λ reason. any_row (λ c. str_eq c reason) w.db.revocation_reasons ≡ true)
        (reason_ttl_expired ∷ reason_request_limit ∷ reason_traffic_limit ∷ reason_violation_limit
          ∷ [])

-- A refusal with a status, after which the link is terminated for a reason.
pub record Ended {R : Type 0} (link : ℕ) (row : SharedLink) (status : ℕ) (reason : String)
    (w : World R) (r : Result Verdict × World R) : Type 0 where
  pub verdict : Verdict
  pub returned : r.0 ≡ ok verdict
  pub rejected : verdict.allowed ≡ false
  pub with_status : verdict.status ≡ status
  pub terminated :
      first_row (link_by_id link) r.1.db.shared_links
      ≡ some (record row { status = link_status_terminated })
  pub recorded :
      terminations_of link r.1.db ≡ terminations_of link w.db ++ automatic link reason w.now ∷ []

module _ {R : Type 0} (link : ℕ) (row : SharedLink) (w : World R) (h : CanEnd link row w) where
  ended :
      (reason : String) (status : ℕ) (message : String)
      → any_row (λ c. str_eq c reason) w.db.revocation_reasons ≡ true
      → Ended link row status reason w
          ((auto_terminate link reason >> pure (refuse status message)) w)
  unfolding auto_terminate after_termination notify ◌>>=◌
  ended reason status message k =
      rw (auto_terminate-active link reason w row h.calls h.found h.active k) (record {
        verdict = refuse status message;
        returned = refl;
        rejected = refl;
        with_status = refl;
        terminated = closed_row link w.db row h.found;
        recorded =
            record_added link (automatic link reason w.now) w.db (closed link w.db).shared_links
              refl;
      })

module _ (rd : Redis) (l : LinkWithSession) (e : EffectivePolicy) (row : SharedLink)
    (w : World rd.Store) (h : CanEnd l.link.id row w) where
  -- Refused as described, or let pass with nothing changed.
  abbrev pub EndedBy : Option (ℕ × String) → Result Verdict × World rd.Store → Type 0
  EndedBy none r = r ≡ (ok pass, w)
  EndedBy (some (status, reason)) r = Ended l.link.id row status reason w r

  passed : pure pass w ≡ (ok pass, w)
  unfolding ◌>>=◌
  passed = refl

  judge-EndedBy :
      (c : Counters)
      → past_ttl e.max_ttl_seconds l.link.created_at w.now ≡ false
      → EndedBy (due e l.link.created_at w.now c) (judge rd l.link.id e c w)
  unfolding judge
  judge-EndedBy c fresh = rw fresh (elim (Bool-cases (at_limit e.max_requests c.requests)) [
    | inl a ↦ rw a (ended l.link.id row w h reason_request_limit 403 _ h.known.1.0)
    | inr a ↦ rw a (elim (Bool-cases (at_limit e.max_bytes_transferred c.bytes)) [
      | inl b ↦ rw b (ended l.link.id row w h reason_traffic_limit 403 _ h.known.1.1.0)
      | inr b ↦ rw b (elim (Bool-cases (leb_ℤ e.max_violation_count (pos c.violations))) [
        | inl v ↦ rw v (ended l.link.id row w h reason_violation_limit 403 _ h.known.1.1.1.0)
        | inr v ↦ rw v passed
      ])
    ])
  ])

  check_limits-read :
      (c : Counters)
      → read_counters rd l.link.id w.redis ≡ ok c
      → past_ttl e.max_ttl_seconds l.link.created_at w.now ≡ false
      → check_limits rd l e w ≡ judge rd l.link.id e c (record w { outcomes = [] })
  unfolding check_limits Limiter.get command settle ◌>>=◌
  check_limits-read c r fresh = simp (fresh, h.calls, r)

  check_limits-past :
      past_ttl e.max_ttl_seconds l.link.created_at w.now ≡ true
      → check_limits rd l e w
        ≡ (auto_terminate l.link.id reason_ttl_expired
              >> pure (refuse 410 "link TTL (from access policy) has expired"))
            w
  unfolding check_limits ◌>>=◌
  check_limits-past k = simp k

  -- The limit check of BeforeProxy, when every call is answered, on an open link whose counters can
  -- be read and with the reasons of the schema. Where the TTL is over or the requests, the bytes or
  -- the violations have reached their limit, it refuses with status 410 for the TTL and 403 for
  -- the others, makes the link's row terminated and adds exactly one record, with the reason of the
  -- first of these; where none is reached, it lets pass and changes nothing.
  pub check_limits_exact :
      (c : Counters)
      → read_counters rd l.link.id w.redis ≡ ok c
      → EndedBy (due e l.link.created_at w.now c) (check_limits rd l e w)
  check_limits_exact c r = elim (Bool-cases (past_ttl e.max_ttl_seconds l.link.created_at w.now)) [
    | inl k ↦
        subst (EndedBy (due e l.link.created_at w.now c)) (sym (check_limits-past k))
          (rw k (ended l.link.id row w h reason_ttl_expired 410 _ h.known.0))
    | inr k ↦
        subst (EndedBy (due e l.link.created_at w.now c))
          (sym (
            check_limits-read c r k
            ∙ ap (λ os. judge rd l.link.id e c (record w { outcomes = os })) (sym h.calls)))
          (judge-EndedBy c k)
  ]
