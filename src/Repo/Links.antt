-- ===== src/Repo/Links.antt =====
-- app/internal/repository/pgx/links.go: SharedLinkRepo.
use session_proxy.Base.{
  ℕ, suc, String, Bool, not, ◌&&◌, ◌||◌, Option, none, some, List, [], ◌∷◌, ◌++◌, ◌==◌, str_eq,
  if◌then◌else◌, first_row, any_row, where_rows, update_rows,
}
use session_proxy.Base.Int.{ℤ, floor_micros}
use session_proxy.Base.Bytes.{Bytes, bytes_eq}
use session_proxy.Domain.{
  SharedLink, OriginalSession, TargetSite, LinkWithSession, link_status_active,
}
use session_proxy.Store.Db.{Db}
use session_proxy.Store.App.{App, Statement, Result, ok, err, no_rows, constraint, query}
use session_proxy.Repo.Order.{order_desc, one_row, null_if_empty, coalesce}

-- `id = $1` on shared_links and on original_sessions
abbrev pub link_by_id : ℕ → SharedLink → Bool
link_by_id id l = l.id == id

abbrev pub session_by_id : ℕ → OriginalSession → Bool
session_by_id id s = s.id == id

-- The session is missing, or the token is taken.
abbrev pub conflicts : SharedLink → Db → Bool
conflicts l d =
    not (any_row (session_by_id l.original_session_id) d.original_sessions)
    || any_row (λ k. bytes_eq k.token l.token) d.shared_links

-- timestamptz holds microseconds: pgx sends the seconds and the nanoseconds of an instant without
-- their part below.
abbrev pub stored_instant : Option ℤ → Option ℤ
stored_instant none = none
stored_instant (some t) = some (floor_micros t)

unfoldable pub insert_link : SharedLink → Statement SharedLink
unfolding null_if_empty
insert_link l now d =
    let row = record l {
      id = d.next_id;
      status = coalesce (null_if_empty l.status) link_status_active;
      created_at = now;
      expires_at = stored_instant l.expires_at;
    } in
    if conflicts l d
    then (err constraint, d)
    else (ok row, record d { shared_links = d.shared_links ++ row ∷ []; next_id = suc d.next_id })

unfoldable pub select_link : ℕ → Statement SharedLink
select_link id now d = (one_row (first_row (link_by_id id) d.shared_links), d)

-- The three tables joined, from the link on.
join_site : SharedLink → OriginalSession → Option TargetSite → Result LinkWithSession
join_site l s none = err no_rows
join_site l s (some t) =
    ok (record { link = l; original_session = s; target_site = t; owner_user_id = s.user_id })

join_session : Db → SharedLink → Option OriginalSession → Result LinkWithSession
unfolding join_site
join_session d l none = err no_rows
join_session d l (some s) = join_site l s (first_row (λ t. t.id == s.target_site_id) d.target_sites)

join_link : Db → Option SharedLink → Result LinkWithSession
unfolding join_session
join_link d none = err no_rows
join_link d (some l) =
    join_session d l (first_row (session_by_id l.original_session_id) d.original_sessions)

unfoldable pub select_by_token : Bytes → Statement LinkWithSession
unfolding join_link
select_by_token token now d =
    (join_link d (first_row (λ l. bytes_eq l.token token) d.shared_links), d)

-- Rows whose session belongs to the user, all statuses for an empty one, newest first.
unfoldable pub select_links_of : ℕ → String → Statement (List SharedLink)
select_links_of user status now d = (
  ok (
      order_desc (λ l. l.created_at)
        (where_rows
          (λ l.
            any_row (λ s. s.id == l.original_session_id && s.user_id == user) d.original_sessions
            && (str_eq status "" || str_eq l.status status))
          d.shared_links)),
  d,
)

unfoldable pub set_status : String → SharedLink → SharedLink
set_status status l = record l { status = status }

unfoldable pub update_link_status : ℕ → String → Statement (Unit {0})
unfolding set_status
update_link_status id status now d = (
  ok tt,
  record d { shared_links = update_rows (link_by_id id) (set_status status) d.shared_links },
)

owner_of_session : Option OriginalSession → Result ℕ
owner_of_session none = err no_rows
owner_of_session (some s) = ok s.user_id

owner_of_link : Db → Option SharedLink → Result ℕ
unfolding owner_of_session
owner_of_link d none = err no_rows
owner_of_link d (some l) =
    owner_of_session (first_row (session_by_id l.original_session_id) d.original_sessions)

unfoldable pub select_owner : ℕ → Statement ℕ
unfolding owner_of_link
select_owner link now d = (owner_of_link d (first_row (link_by_id link) d.shared_links), d)

-- The methods of the repository.
module _ {R : Type 0} where
  unfoldable pub create : SharedLink → App R SharedLink
  create l = query (insert_link l)

  unfoldable pub get_by_id : ℕ → App R SharedLink
  get_by_id id = query (select_link id)

  unfoldable pub get_by_token : Bytes → App R LinkWithSession
  get_by_token token = query (select_by_token token)

  unfoldable pub list_by_user : ℕ → String → App R (List SharedLink)
  list_by_user user status = query (select_links_of user status)

  unfoldable pub update_status : ℕ → String → App R (Unit {0})
  update_status id status = query (update_link_status id status)

  unfoldable pub owner_user_id : ℕ → App R ℕ
  owner_user_id link = query (select_owner link)
