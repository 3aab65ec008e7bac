-- ===== src/Api/Links.antt =====
-- app/internal/transport/http/handlers_links.go.
pub mod Expiry
use session_proxy.Base.{ℕ, String, Option, none, some, List, ◌==◌, if◌then◌else◌}
use session_proxy.Base.Int.{ℤ, pos, ltb_ℤ, seconds_to_duration}
use session_proxy.Domain.{LinkStats, LinkTermination}
use session_proxy.Store.App.{
  App, Result, ok, err, Error, session_not_owned, session_not_active, link_already_terminated, pure,
  query,
}
use session_proxy.Repo.Links
use session_proxy.Repo.Guests
use session_proxy.Repo.Logs
use session_proxy.Repo.Blacklists
use session_proxy.LinkService
use session_proxy.Api.Reply.{
  Reply, write_json, write_error, no_content, internal_error, respond, respond_or_500, info, link,
  links, stats, logs, guest_sessions, security_events, termination,
}

pub record CreateLinkRequest : Type 0 where
  pub original_session_id : ℕ
  pub label : String
  pub ttl_seconds : ℤ
  pub policy_ids : List ℕ
  pub endpoint_ids : List ℕ

-- time.Duration(req.TTLSeconds) * time.Second, where it is set
unfoldable pub ttl_of : ℤ → ℤ
unfolding seconds_to_duration
ttl_of seconds = if ltb_ℤ (pos 0) seconds then seconds_to_duration seconds else pos 0

abbrev pub create_link_error : Error → Reply
create_link_error session_not_owned = write_error 404 "session not found"
create_link_error session_not_active = write_error 409 "service: original_session is not active"
create_link_error e = internal_error

abbrev pub terminate_error : Error → Reply
terminate_error link_already_terminated =
    write_error 409 "service: shared_link is already terminated"
terminate_error e = internal_error

-- A link whose attachments failed is answered as an error.
abbrev pub created_reply : LinkService.Created → Reply
created_reply c = elim c.attached [
  | err e ↦ create_link_error e
  | ok _ ↦ write_json 201 (link c.link)
]

abbrev pub stats_reply : Option LinkStats → Reply
stats_reply none =
    write_json 200
      (info "no data yet - mv_link_stats has not been refreshed since this link had traffic")
stats_reply (some s) = write_json 200 (stats s)

abbrev pub termination_reply : Option LinkTermination → Reply
termination_reply none = write_error 404 "link has not been terminated"
termination_reply (some t) = write_json 200 (termination t)

module _ {R : Type 0} (user : ℕ) where
  unfoldable pub handle_create_link : Option CreateLinkRequest → App R Reply
  unfolding ttl_of
  handle_create_link none = pure (write_error 400 "original_session_id is required")
  handle_create_link (some req) =
      if req.original_session_id == 0
      then pure (write_error 400 "original_session_id is required")
      else respond
          (LinkService.create_link user (record {
            original_session_id = req.original_session_id;
            label = req.label;
            ttl = ttl_of req.ttl_seconds;
            policy_ids = req.policy_ids;
            endpoint_ids = req.endpoint_ids;
          }))
          create_link_error created_reply

  unfoldable pub handle_list_links : String → App R Reply
  handle_list_links status =
      respond_or_500 (Links.list_by_user user status) (λ ls. write_json 200 (links ls))

  -- The notes are what the body holds, which may be missing.
  unfoldable pub handle_terminate_link : ℕ → String → App R Reply
  handle_terminate_link id notes =
      respond (LinkService.terminate_link user id notes) terminate_error (λ _. no_content)

module _ {R : Type 0} where
  unfoldable pub handle_get_link : ℕ → App R Reply
  handle_get_link id =
      respond (Links.get_by_id id) (λ e. write_error 404 "link not found")
        (λ l. write_json 200 (link l))

  -- The materialized view is the database's.
  unfoldable pub handle_get_link_stats : (ℕ → Option LinkStats) → ℕ → App R Reply
  handle_get_link_stats mv_link_stats id =
      respond_or_500 (query (λ now d. (ok (mv_link_stats id), d))) stats_reply

  unfoldable pub handle_get_link_logs : ℕ → App R Reply
  handle_get_link_logs id =
      respond_or_500 (Logs.list_logs_by_link id 100) (λ ls. write_json 200 (logs ls))

  unfoldable pub handle_get_link_guest_sessions : ℕ → App R Reply
  handle_get_link_guest_sessions id =
      respond_or_500 (Guests.list_by_link id) (λ ss. write_json 200 (guest_sessions ss))

  unfoldable pub handle_get_link_security_events : ℕ → App R Reply
  handle_get_link_security_events id =
      respond_or_500 (Logs.list_events_by_link id 100) (λ es. write_json 200 (security_events es))

  unfoldable pub handle_get_link_termination : ℕ → App R Reply
  handle_get_link_termination id =
      respond_or_500 (Logs.get_termination_by_link id) termination_reply

  unfoldable pub handle_attach_endpoint_to_link : ℕ → Option ℕ → App R Reply
  handle_attach_endpoint_to_link id none = pure (write_error 400 "invalid endpoint id")
  handle_attach_endpoint_to_link id (some endpoint) =
      respond_or_500 (Blacklists.attach_to_link id endpoint) (λ _. no_content)
