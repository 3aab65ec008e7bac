-- ===== src/Repo/Guests.antt =====
-- app/internal/repository/pgx/guests.go: GuestRepo, GuestSessionRepo, UsageCounterRepo.
use session_proxy.Base.{
  ℕ, suc, String, Bool, ◌&&◌, Option, none, some, List, [], ◌∷◌, ◌++◌, ◌==◌, str_eq, if◌then◌else◌,
  first_row, any_row, where_rows, update_rows, take, drop, ltb, not,
}
use session_proxy.Domain.{
  Guest, GuestSession, UsageCounters, guest_session_active, guest_session_terminated,
}
use session_proxy.Store.Db.{Db}
use session_proxy.Store.App.{
  App, Statement, Result, ok, err, no_rows, constraint, query, pure, throw, attempt, ◌>>=◌, ◌>>◌,
}
use session_proxy.Repo.Order.{order_desc, one_row, head_row, null_if_empty, coalesce, same_text}

-- The guests of an address and a fingerprint, the one first seen last in front.
abbrev pub guests_like : String → String → Db → List Guest
guests_like ip fingerprint d =
    order_desc (λ g. g.first_seen_at)
      (where_rows
        (λ g.
          same_text g.ip_address (null_if_empty ip)
          && same_text g.browser_fingerprint (null_if_empty fingerprint))
        d.guests)

unfoldable pub select_guest : String → String → Statement Guest
unfolding null_if_empty order_desc
select_guest ip fingerprint now d = (one_row (head_row (guests_like ip fingerprint d)), d)

unfoldable pub touch_guest : ℕ → Statement (Unit {0})
touch_guest id now d = (
  ok tt,
  record d {
    guests = update_rows (λ g. g.id == id) (λ g. record g { last_seen_at = some now }) d.guests;
  },
)

unfoldable pub insert_guest : String → String → String → Statement Guest
unfolding null_if_empty
insert_guest ip user_agent fingerprint now d =
    let row : Guest = record {
      id = d.next_id;
      ip_address = null_if_empty ip;
      user_agent = null_if_empty user_agent;
      browser_fingerprint = null_if_empty fingerprint;
      first_seen_at = now;
      last_seen_at = none;
    } in
    (ok row, record d { guests = d.guests ++ row ∷ []; next_id = suc d.next_id })

unfoldable pub select_guests : ℕ → ℕ → Statement (List Guest)
select_guests limit offset now d =
    (ok (take limit (drop offset (order_desc (λ g. g.first_seen_at) d.guests))), d)

unfoldable pub insert_guest_session : GuestSession → Statement GuestSession
unfolding null_if_empty
insert_guest_session gs now d =
    let row = record gs {
      id = d.next_id;
      status = coalesce (null_if_empty gs.status) guest_session_active;
      started_at = now;
      last_request_at = none;
      terminated_at = none;
    } in
    if any_row (λ l. l.id == gs.shared_link_id) d.shared_links
    then (
      ok row,
      record d { guest_sessions = d.guest_sessions ++ row ∷ []; next_id = suc d.next_id },
    )
    else (err constraint, d)

abbrev same_id : Option ℕ → Option ℕ → Bool
same_id none none = Bool.true
same_id (some a) (some b) = a == b
same_id _ _ = Bool.false

-- The active sessions of a link and a guest, the one started last in front.
abbrev pub active_sessions : ℕ → Option ℕ → Db → List GuestSession
active_sessions link guest d =
    order_desc (λ s. s.started_at)
      (where_rows
        (λ s.
          s.shared_link_id == link
          && same_id s.guest_id guest
          && str_eq s.status guest_session_active)
        d.guest_sessions)

unfoldable pub select_active : ℕ → Option ℕ → Statement (Option GuestSession)
unfolding order_desc
select_active link guest now d = (ok (head_row (active_sessions link guest d)), d)

unfoldable pub select_guest_sessions : ℕ → Statement (List GuestSession)
select_guest_sessions link now d = (
  ok (order_desc (λ s. s.started_at) (where_rows (λ s. s.shared_link_id == link) d.guest_sessions)),
  d,
)

unfoldable pub terminate_guest_session : ℕ → Statement (Unit {0})
terminate_guest_session id now d = (
  ok tt,
  record d {
    guest_sessions =
        update_rows (λ s. s.id == id)
          (λ s. record s { status = guest_session_terminated; terminated_at = some now })
          d.guest_sessions;
  },
)

unfoldable pub touch_guest_session : ℕ → Statement (Unit {0})
touch_guest_session id now d = (
  ok tt,
  record d {
    guest_sessions =
        update_rows (λ s. s.id == id) (λ s. record s { last_request_at = some now })
          d.guest_sessions;
  },
)

abbrev pub usage_of : ℕ → Db → Option UsageCounters
usage_of link d = first_row (λ u. u.shared_link_id == link) d.usage_counters

unfoldable pub select_usage : ℕ → Statement UsageCounters
select_usage link now d = (one_row (usage_of link d), d)

-- request_count and violation_count are int columns; bytes_transferred is a bigint, which holds
-- every int64 of the code.
abbrev pub usage_fits : UsageCounters → Bool
usage_fits c = ltb c.request_count 2147483648 && ltb c.violation_count 2147483648

-- shared_link_id is unique, so ON CONFLICT updates the one row of the link.
unfoldable pub upsert_usage : UsageCounters → Statement (Unit {0})
upsert_usage c now d =
    let row = record c { updated_at = now } in
    if not (usage_fits c)
    then (err constraint, d)
    else if any_row (λ u. u.shared_link_id == c.shared_link_id) d.usage_counters
    then (
      ok tt,
      record d {
        usage_counters =
            update_rows (λ u. u.shared_link_id == c.shared_link_id) (λ u. row) d.usage_counters;
      },
    )
    else if any_row (λ l. l.id == c.shared_link_id) d.shared_links
    then (ok tt, record d { usage_counters = d.usage_counters ++ row ∷ [] })
    else (err constraint, d)

module _ {R : Type 0} where
  -- A failed update of last_seen_at is not looked at.
  unfoldable pub found_or_created : String → String → String → Result Guest → App R Guest
  found_or_created ip user_agent fingerprint (ok g) = do attempt (query (touch_guest g.id)); pure g
  found_or_created ip user_agent fingerprint (err no_rows) =
      query (insert_guest ip user_agent fingerprint)
  found_or_created ip user_agent fingerprint (err e) = throw e

  unfoldable pub get_or_create : String → String → String → App R Guest
  unfolding found_or_created
  get_or_create ip user_agent fingerprint = do
    found ← attempt (query (select_guest ip fingerprint))
    found_or_created ip user_agent fingerprint found

  unfoldable pub create_session : GuestSession → App R GuestSession
  create_session gs = query (insert_guest_session gs)

  unfoldable pub get_active_by_link_and_guest : ℕ → Option ℕ → App R (Option GuestSession)
  get_active_by_link_and_guest link guest = query (select_active link guest)

  unfoldable pub list_by_link : ℕ → App R (List GuestSession)
  list_by_link link = query (select_guest_sessions link)

  unfoldable pub terminate : ℕ → App R (Unit {0})
  terminate id = query (terminate_guest_session id)

  unfoldable pub touch_last_request : ℕ → App R (Unit {0})
  touch_last_request id = query (touch_guest_session id)

  unfoldable pub get_usage_by_link : ℕ → App R UsageCounters
  get_usage_by_link link = query (select_usage link)

  unfoldable pub upsert : UsageCounters → App R (Unit {0})
  upsert c = query (upsert_usage c)

  unfoldable pub list : ℕ → ℕ → App R (List Guest)
  list limit offset = query (select_guests limit offset)
