-- ===== src/Repo/Logs.antt =====
-- app/internal/repository/pgx/logs.go: ProxyAccessLogRepo, LinkTerminationRepo and
-- SecurityEventRepo. SendBatch sends its statements without a transaction of their own, so that
-- Postgres does all of them or none.
use session_proxy.Base.{
  ℕ, Option, none, List, [], ◌∷◌, ◌++◌, ◌==◌, str_eq, if◌then◌else◌, any_row, where_rows, take,
  String, Bool, not, ◌&&◌, true, leb, map, some, length, ltb,
}
use session_proxy.Base.Bytes.{Bytes}
use session_proxy.Domain.{ProxyAccessLog, LinkTermination, SecurityEvent}
use session_proxy.Store.Db.{Db}
use session_proxy.Store.App.{App, Statement, ok, err, constraint, query, pure}
use session_proxy.Repo.Order.{order_desc, head_row}

-- zeroTimeToNil and COALESCE($8, now())
abbrev pub log_row : ℕ → ProxyAccessLog → ProxyAccessLog
log_row now l = record l { requested_at = if l.requested_at == 0 then now else l.requested_at }

-- The link exists, and the guest session if there is one.
abbrev pub log_refers : Db → ProxyAccessLog → Bool
log_refers d l =
    any_row (λ s. s.id == l.shared_link_id) d.shared_links
    && elim l.guest_session_id [ none ↦ true | some g ↦ any_row (λ s. s.id == g) d.guest_sessions ]

abbrev fits_int : Option ℕ → Bool
fits_int none = true
fits_int (some n) = ltb n 2147483648

-- What the columns hold: varchar(2048) and varchar(10), counted on ASCII texts, and int. A
-- status has three digits.
abbrev pub log_fits : ProxyAccessLog → Bool
log_fits l =
    leb (length l.target_url) 2048
    && leb (length l.http_method) 10
    && fits_int l.bytes_transferred
    && fits_int l.response_time_ms

abbrev pub insertable : Db → ProxyAccessLog → Bool
insertable d l = log_refers d l && log_fits l

unfoldable pub insert_log : ProxyAccessLog → Statement (Unit {0})
insert_log l now d =
    if insertable d l
    then (ok tt, record d { proxy_access_logs = d.proxy_access_logs ++ log_row now l ∷ [] })
    else (err constraint, d)

unfoldable pub insert_logs : List ProxyAccessLog → Statement (Unit {0})
insert_logs ls now d =
    if any_row (λ l. not (insertable d l)) ls
    then (err constraint, d)
    else (ok tt, record d { proxy_access_logs = d.proxy_access_logs ++ map (log_row now) ls })

unfoldable pub select_logs : ℕ → ℕ → Statement (List ProxyAccessLog)
select_logs link limit now d = (
  ok (
      take limit (
        order_desc (λ l. l.requested_at)
          (where_rows (λ l. l.shared_link_id == link) d.proxy_access_logs))),
  d,
)

-- By their codes.
unfoldable pub select_reasons : Statement (List String)
select_reasons now d = (ok d.revocation_reasons, d)

-- INSERT ... SELECT: a code that revocation_reasons does not hold inserts no row and is no error.
unfoldable pub insert_termination : LinkTermination → Statement (Unit {0})
insert_termination t now d =
    let row = record t { terminated_at = now } in
    if any_row (λ c. str_eq c t.reason_code) d.revocation_reasons
    then if any_row (λ l. l.id == t.shared_link_id) d.shared_links
      then (ok tt, record d { link_terminations = d.link_terminations ++ row ∷ [] })
      else (err constraint, d)
    else (ok tt, d)

-- The terminations of a link, in the order of their rows.
abbrev pub terminations_of : ℕ → Db → List LinkTermination
terminations_of link d = where_rows (λ t. t.shared_link_id == link) d.link_terminations

unfoldable pub select_termination : ℕ → Statement (Option LinkTermination)
unfolding order_desc
select_termination link now d =
    (ok (head_row (order_desc (λ t. t.terminated_at) (terminations_of link d))), d)

-- varchar(2048), varchar(10) and varchar(50), counted on ASCII texts; the type is a constant of
-- the code.
abbrev fits_text : ℕ → Option Bytes → Bool
fits_text n none = true
fits_text n (some s) = leb (length s) n

abbrev pub event_fits : SecurityEvent → Bool
event_fits e = fits_text 2048 e.target_url && fits_text 10 e.http_method

-- The link exists, and the guest session if there is one.
abbrev pub event_refers : Db → SecurityEvent → Bool
event_refers d e =
    any_row (λ l. l.id == e.shared_link_id) d.shared_links
    && elim e.guest_session_id [ none ↦ true | some g ↦ any_row (λ s. s.id == g) d.guest_sessions ]

unfoldable pub insert_event : SecurityEvent → Statement (Unit {0})
insert_event e now d =
    let row = record e { occurred_at = now } in
    if event_refers d e && event_fits e
    then (ok tt, record d { security_events = d.security_events ++ row ∷ [] })
    else (err constraint, d)

unfoldable pub select_events : ℕ → ℕ → Statement (List SecurityEvent)
select_events link limit now d = (
  ok (
      take limit (
        order_desc (λ e. e.occurred_at)
          (where_rows (λ e. e.shared_link_id == link) d.security_events))),
  d,
)

unfoldable pub select_recent_events : ℕ → Statement (List SecurityEvent)
select_recent_events limit now d =
    (ok (take limit (order_desc (λ e. e.occurred_at) d.security_events)), d)

module _ {R : Type 0} where
  unfoldable pub insert : ProxyAccessLog → App R (Unit {0})
  insert l = query (insert_log l)

  -- No call where there are no logs.
  unfoldable pub insert_batch : List ProxyAccessLog → App R (Unit {0})
  insert_batch [] = pure tt
  insert_batch (l ∷ ls) = query (insert_logs (l ∷ ls))

  unfoldable pub list_logs_by_link : ℕ → ℕ → App R (List ProxyAccessLog)
  list_logs_by_link link limit = query (select_logs link limit)

  unfoldable pub list_reasons : App R (List String)
  list_reasons = query select_reasons

  unfoldable pub list_recent_events : ℕ → App R (List SecurityEvent)
  list_recent_events limit = query (select_recent_events limit)

  unfoldable pub create_termination : LinkTermination → App R (Unit {0})
  create_termination t = query (insert_termination t)

  unfoldable pub get_termination_by_link : ℕ → App R (Option LinkTermination)
  get_termination_by_link link = query (select_termination link)

  unfoldable pub create_event : SecurityEvent → App R (Unit {0})
  create_event e = query (insert_event e)

  unfoldable pub list_events_by_link : ℕ → ℕ → App R (List SecurityEvent)
  list_events_by_link link limit = query (select_events link limit)
