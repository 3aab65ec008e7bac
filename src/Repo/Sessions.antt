-- ===== src/Repo/Sessions.antt =====
-- app/internal/repository/pgx/sessions.go: TargetSiteRepo, OriginalSessionRepo, SessionCookieRepo,
-- SessionTokenRepo.
use session_proxy.Base.{
  ℕ, suc, String, not, ◌||◌, List, [], ◌∷◌, ◌++◌, ◌==◌, str_eq, if◌then◌else◌, first_row, any_row,
  where_rows, update_rows,
}
use session_proxy.Base.Bytes.{Bytes, codes}
use session_proxy.Domain.{
  TargetSite, OriginalSession, SessionCookie, SessionToken, session_status_active,
}
use session_proxy.Store.App.{
  App, Statement, Result, ok, err, constraint, query, pure, attempt, ◌>>=◌, ◌>>◌,
}
use session_proxy.Repo.Order.{order_desc, one_row, null_if_empty, coalesce}

unfoldable pub insert_site : TargetSite → Statement TargetSite
insert_site s now d =
    let row = record s { id = d.next_id; created_at = now } in
    (ok row, record d { target_sites = d.target_sites ++ row ∷ []; next_id = suc d.next_id })

unfoldable pub select_site : ℕ → Statement TargetSite
select_site id now d = (one_row (first_row (λ s. s.id == id) d.target_sites), d)

unfoldable pub select_site_by_domain : String → Statement TargetSite
select_site_by_domain domain now d =
    (one_row (first_row (λ s. str_eq s.base_domain domain) d.target_sites), d)

-- ORDER BY name, in the order of the database's collation
unfoldable pub select_sites : (List TargetSite → List TargetSite) → Statement (List TargetSite)
select_sites order_by_name now d = (ok (order_by_name d.target_sites), d)

unfoldable pub insert_session : OriginalSession → Statement OriginalSession
unfolding null_if_empty
insert_session s now d =
    let row = record s {
      id = d.next_id;
      status = coalesce (null_if_empty s.status) session_status_active;
      imported_at = now;
    } in
    if not (any_row (λ u. u.id == s.user_id) d.users)
      || not (any_row (λ t. t.id == s.target_site_id) d.target_sites)
    then (err constraint, d)
    else (
      ok row,
      record d { original_sessions = d.original_sessions ++ row ∷ []; next_id = suc d.next_id },
    )

unfoldable pub select_session : ℕ → Statement OriginalSession
select_session id now d = (one_row (first_row (λ s. s.id == id) d.original_sessions), d)

unfoldable pub select_sessions_of : ℕ → Statement (List OriginalSession)
select_sessions_of user now d = (
  ok (order_desc (λ s. s.imported_at) (where_rows (λ s. s.user_id == user) d.original_sessions)),
  d,
)

unfoldable pub update_session_status : ℕ → String → Statement (Unit {0})
update_session_status id status now d = (
  ok tt,
  record d {
    original_sessions =
        update_rows (λ s. s.id == id) (λ s. record s { status = status }) d.original_sessions;
  },
)

-- COALESCE(nullIfEmptyPath(path), '/')
abbrev pub path_or_root : Bytes → Bytes
path_or_root [] = codes "/"
path_or_root (b ∷ bs) = b ∷ bs

unfoldable pub insert_cookie : SessionCookie → Statement (Unit {0})
insert_cookie c now d =
    let row = record c { id = d.next_id; path = path_or_root c.path; created_at = now } in
    if any_row (λ s. s.id == c.original_session_id) d.original_sessions
    then (
      ok tt,
      record d { session_cookies = d.session_cookies ++ row ∷ []; next_id = suc d.next_id },
    )
    else (err constraint, d)

unfoldable pub select_cookies : ℕ → Statement (List SessionCookie)
select_cookies session now d =
    (ok (d.scan_cookies (where_rows (λ c. c.original_session_id == session) d.session_cookies)), d)

unfoldable pub insert_token : SessionToken → Statement (Unit {0})
insert_token t now d =
    let row = record t { id = d.next_id; created_at = now } in
    if any_row (λ s. s.id == t.original_session_id) d.original_sessions
    then (
      ok tt,
      record d { session_tokens = d.session_tokens ++ row ∷ []; next_id = suc d.next_id },
    )
    else (err constraint, d)

unfoldable pub select_tokens : ℕ → Statement (List SessionToken)
select_tokens session now d =
    (ok (d.scan_tokens (where_rows (λ t. t.original_session_id == session) d.session_tokens)), d)

module _ {R : Type 0} where
  unfoldable pub create_site : TargetSite → App R TargetSite
  create_site s = query (insert_site s)

  -- Any failure of the lookup, not only a missing row, leads to an insert.
  unfoldable pub site_or_created : TargetSite → Result TargetSite → App R TargetSite
  site_or_created new (ok site) = pure site
  site_or_created new (err e) = create_site new

  unfoldable pub get_or_create_by_domain : String → String → Bytes → App R TargetSite
  unfolding site_or_created create_site
  get_or_create_by_domain domain name base_url = do
    found ← attempt (query (select_site_by_domain domain))
    site_or_created
        (record { id = 0; base_domain = domain; name = name; base_url = base_url; created_at = 0 })
        found

  unfoldable pub get_site : ℕ → App R TargetSite
  get_site id = query (select_site id)

  unfoldable pub list_sites : (List TargetSite → List TargetSite) → App R (List TargetSite)
  list_sites order_by_name = query (select_sites order_by_name)

  unfoldable pub create : OriginalSession → App R OriginalSession
  create s = query (insert_session s)

  unfoldable pub get_by_id : ℕ → App R OriginalSession
  get_by_id id = query (select_session id)

  unfoldable pub list_by_user : ℕ → App R (List OriginalSession)
  list_by_user user = query (select_sessions_of user)

  unfoldable pub update_status : ℕ → String → App R (Unit {0})
  update_status id status = query (update_session_status id status)

  unfoldable pub create_cookies : List SessionCookie → App R (Unit {0})
  create_cookies [] = pure tt
  create_cookies (c ∷ cs) = do query (insert_cookie c); create_cookies cs

  unfoldable pub list_cookies : ℕ → App R (List SessionCookie)
  list_cookies session = query (select_cookies session)

  unfoldable pub create_tokens : List SessionToken → App R (Unit {0})
  create_tokens [] = pure tt
  create_tokens (t ∷ ts) = do query (insert_token t); create_tokens ts

  unfoldable pub list_tokens : ℕ → App R (List SessionToken)
  list_tokens session = query (select_tokens session)
