-- ===== src/Dashboard.antt =====
-- app/internal/transport/webui/handlers.go and RequireSessionCookie of
-- app/internal/transport/http/middleware/auth.go. The templates are generated code: a page is a
-- value of what it is rendered from. A response that is sent in parts is the list of its events.
pub mod Feed
mod Tests
use session_proxy.Base.{
  ℕ, ◌+◌, String, Bool, false, not, Option, none, some, List, [], ◌∷◌, if◌then◌else◌,
}
use session_proxy.Base.Bytes.{Bytes, codes}
use session_proxy.Domain.{SharedLink, OriginalSession, User}
use session_proxy.Pubsub.{Event}
use session_proxy.Store.App.{
  App, World, Result, ok, err, Error, pure, attempt, gets, lift, ◌>>=◌, ◌>>◌,
}
use session_proxy.Repo.Links
use session_proxy.Auth
use session_proxy.LinkService
use session_proxy.Crypto.{Aead}
use session_proxy.SessionImport.{CookieInput, import_session}
use session_proxy.Grpc.{Received, at_tables, owned_by}

-- The fields of an event's JSON object, with a nanosecond instant for its text.
pub data Page : Type 0 where
  login_page : String → Page
  links_page : List SharedLink → Page
  link_row : SharedLink → Page
  import_page : String → Page
  imported_page : ℕ → Page
  security_feed_page : Page
  error_text : String → Page
  redirect : String → Page
  feed : List Event → Page

-- The cookie sp_session; a negative MaxAge deletes it.
pub data SetCookie : Type 0 where
  unchanged deleted : SetCookie
  session_cookie : Bytes → Bool → ℕ → SetCookie

pub record Shown : Type 0 where
  pub status : ℕ
  pub page : Page
  pub cookie : SetCookie

abbrev pub show : ℕ → Page → Shown
show status page = record { status = status; page = page; cookie = unchanged }

abbrev pub to_login : Shown
to_login = show 303 (redirect "/dashboard/login")

-- time.Hour
abbrev pub hour : ℕ
hour = 3600000000000

-- The form of an import.
pub record ImportForm : Type 0 where
  pub base_domain : String
  pub base_url : Bytes
  pub cookie_name : Bytes
  pub cookie_value : Bytes

module _ {R : Type 0} (hash_password : String → Result String)
    (compare_password : String → String → Bool) (issue_jwt : ℕ → ℕ → Result Bytes) where
  unfoldable pub logged_in : Bool → Result (Bytes × User) → App R Shown
  logged_in tls (err e) = pure (show 401 (login_page "invalid email or password"))
  logged_in tls (ok (token, user)) = do
    now ← gets (λ w. w.now)
    pure (record {
      status = 303;
      page = redirect "/dashboard/links";
      cookie = session_cookie token tls (now + hour);
    })

  unfoldable pub handle_login_submit : String → String → Bool → App R Shown
  unfolding logged_in
  handle_login_submit email password tls = do
    r ← attempt (Auth.login hash_password compare_password issue_jwt email password)
    logged_in tls r

abbrev pub handle_login_page : Shown
handle_login_page = show 200 (login_page "")

abbrev pub handle_logout : Shown
handle_logout = record { status = 303; page = redirect "/dashboard/login"; cookie = deleted }

abbrev pub links_shown : Result (List SharedLink) → Shown
links_shown (err e) = show 500 (error_text "internal error")
links_shown (ok ls) = show 200 (links_page ls)

abbrev pub row_shown : Result SharedLink → Shown
row_shown (err e) = show 500 (error_text "internal error")
row_shown (ok l) = show 200 (link_row l)

abbrev pub import_shown : Result OriginalSession → Shown
import_shown (err e) = show 200 (import_page "import failed - check server logs")
import_shown (ok s) = show 200 (imported_page s.id)

module _ {R : Type 0} (user : ℕ) where
  unfoldable pub handle_links_list : App R Shown
  handle_links_list = do links ← attempt (Links.list_by_user user ""); pure (links_shown links)

  unfoldable pub row_of_terminated : ℕ → Result (Unit {0}) → App R Shown
  row_of_terminated link (err e) = pure (show 500 (error_text "could not terminate link"))
  row_of_terminated link (ok u) = do l ← attempt (Links.get_by_id link); pure (row_shown l)

  unfoldable pub handle_terminate : Option ℕ → App R Shown
  unfolding row_of_terminated
  handle_terminate none = pure (show 400 (error_text "invalid link id"))
  handle_terminate (some link) = do
    r ← attempt (LinkService.terminate_link user link "terminated via dashboard")
    row_of_terminated link r

  unfoldable pub handle_import_submit : Aead → ImportForm → App R Shown
  handle_import_submit aead form = do
    r ← attempt (
        import_session aead user form.base_domain form.base_domain form.base_url
          (record {
            name = form.cookie_name;
            value = form.cookie_value;
            domain = [];
            path = codes "/";
            secure = false;
            http_only = false;
            same_site = [];
          }
            ∷ [])
          [])
    pure (import_shown r)

  -- A turn writes the event of an owned link; a write that fails ends the response.
  unfoldable pub write_event : Result ℕ → Received → App R (List Event) → App R (List Event)
  write_event owner r rest =
      if not (owned_by user owner)
      then rest
      else if not r.sendable
      then pure []
      else (do written ← rest; pure (r.event ∷ written))

  -- The loop of handleSecurityFeedSSE, until the context is done or the channel is closed.
  unfoldable pub feed_loop : List Received → App R (List Event)
  unfolding at_tables write_event
  feed_loop [] = pure []
  feed_loop (r ∷ rs) = do
    at_tables r.tables
    owner ← attempt (Links.owner_user_id r.event.link_id)
    write_event owner r (feed_loop rs)

  unfoldable pub handle_security_feed_sse : List Received → App R Shown
  handle_security_feed_sse rs = do events ← feed_loop rs; pure (show 200 (feed events))

-- The group behind RequireSessionCookie.
pub data DashboardCall : Type 0 where
  links_list import_page_call feed_page_call : DashboardCall
  terminate_call : Option ℕ → DashboardCall
  import_submit : ImportForm → DashboardCall
  feed_call : List Received → DashboardCall

unfoldable pub serve_dashboard : {R : Type 0} → Aead → ℕ → DashboardCall → App R Shown
serve_dashboard aead user links_list = handle_links_list user
serve_dashboard aead user (terminate_call link) = handle_terminate user link
serve_dashboard aead user import_page_call = pure (show 200 (import_page ""))
serve_dashboard aead user (import_submit form) = handle_import_submit user aead form
serve_dashboard aead user feed_page_call = pure (show 200 security_feed_page)
serve_dashboard aead user (feed_call rs) = handle_security_feed_sse user rs

module _ {R : Type 0} (verify_jwt : ℕ → Bytes → Result ℕ) where
  unfoldable pub with_session : (ℕ → App R Shown) → Result ℕ → App R Shown
  with_session next (err e) = pure to_login
  with_session next (ok user) = next user

  -- The value of the cookie, none where there is none
  unfoldable pub require_session_cookie : Option Bytes → (ℕ → App R Shown) → App R Shown
  unfolding with_session
  require_session_cookie none next = pure to_login
  require_session_cookie (some []) next = pure to_login
  require_session_cookie (some (b ∷ bs)) next = do
    now ← gets (λ w. w.now)
    with_session next (verify_jwt now (b ∷ bs))
