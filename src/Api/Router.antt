-- ===== src/Api/Router.antt =====
-- app/internal/transport/http/server.go: the routes under /api/v1, in the groups of Routes.
pub mod Ownership
pub mod Credential
use session_proxy.Base.{ℕ, String, Bool, Option, List}
use session_proxy.Base.Bytes.{Bytes}
use session_proxy.Domain.{TargetSite, LinkStats}
use session_proxy.Store.App.{App, Result}
use session_proxy.Crypto.{Aead}
use session_proxy.Api.Reply.{Reply}
use session_proxy.Api.Middleware.{require_auth, require_link_ownership}
use session_proxy.Api.Users.{
  RegisterRequest, LoginRequest, CreateDeviceRequest, CreateApiKeyRequest, handle_register,
  handle_login, handle_me, handle_create_device, handle_list_devices, handle_delete_device,
  handle_create_api_key, handle_list_api_keys, handle_revoke_api_key,
}
use session_proxy.Api.Links.{
  CreateLinkRequest, handle_create_link, handle_list_links, handle_terminate_link, handle_get_link,
  handle_get_link_stats, handle_get_link_logs, handle_get_link_guest_sessions,
  handle_get_link_security_events, handle_get_link_termination, handle_attach_endpoint_to_link,
}
use session_proxy.Api.Sessions.{
  ImportSessionRequest, handle_import_session, handle_list_sessions, handle_get_session,
}
use session_proxy.Api.Rules.{
  CreatePolicyRequest, CreateBlacklistRequest, handle_create_policy, handle_list_policies,
  handle_delete_policy, handle_create_blacklist_endpoint, handle_list_blacklist,
  handle_delete_blacklist_endpoint, handle_set_blocked_methods, handle_attach_blacklist_to_site,
}
use session_proxy.Api.Sites.{
  CreateTargetSiteRequest, handle_list_target_sites, handle_create_target_site,
  handle_list_revocation_reasons, handle_list_guests,
}

-- The group behind RequireLinkOwnership.
pub data LinkCall : Type 0 where
  get_link get_link_stats get_link_logs get_link_guest_sessions get_link_security_events
        get_link_termination :
      LinkCall
  terminate_link : String → LinkCall
  attach_endpoint_to_link : Option ℕ → LinkCall

-- The group behind RequireAuth.
pub data OwnerCall : Type 0 where
  me list_devices list_api_keys list_sessions list_policies list_blacklist list_guests : OwnerCall
  create_target_site : Option CreateTargetSiteRequest → OwnerCall
  create_device : Option CreateDeviceRequest → OwnerCall
  delete_device : Option ℕ → OwnerCall
  create_api_key : Option CreateApiKeyRequest → OwnerCall
  revoke_api_key : Option ℕ → OwnerCall
  import_session : Option ImportSessionRequest → OwnerCall
  get_session : Option ℕ → OwnerCall
  create_policy : Option CreatePolicyRequest → OwnerCall
  delete_policy : Option ℕ → OwnerCall
  create_blacklist_endpoint : Option CreateBlacklistRequest → OwnerCall
  delete_blacklist_endpoint : Option ℕ → OwnerCall
  set_blocked_methods : Option ℕ → Option (List Bytes) → OwnerCall
  attach_blacklist_to_site : Option ℕ → Option ℕ → OwnerCall
  list_links : String → OwnerCall
  create_link : Option CreateLinkRequest → OwnerCall
  on_link : Option ℕ → LinkCall → OwnerCall

pub data ApiCall : Type 0 where
  register : Option RegisterRequest → ApiCall
  login : Option LoginRequest → ApiCall
  list_target_sites list_revocation_reasons : ApiCall
  authenticated : OwnerCall → ApiCall

-- What the handlers use of other packages, and the database's view and collation.
pub record Outside : Type 0 where
  pub sha256_hex : Bytes → String
  pub hash_password : String → Result String
  pub compare_password : String → String → Bool
  pub issue_jwt : ℕ → ℕ → Result Bytes
  pub verify_jwt : ℕ → Bytes → Result ℕ
  pub aead : Aead
  pub mv_link_stats : ℕ → Option LinkStats
  pub order_by_name : List TargetSite → List TargetSite

module _ {R : Type 0} (out : Outside) where
  unfoldable pub serve_link : ℕ → ℕ → LinkCall → App R Reply
  serve_link user link get_link = handle_get_link link
  serve_link user link (terminate_link notes) = handle_terminate_link user link notes
  serve_link user link get_link_stats = handle_get_link_stats out.mv_link_stats link
  serve_link user link get_link_logs = handle_get_link_logs link
  serve_link user link get_link_guest_sessions = handle_get_link_guest_sessions link
  serve_link user link get_link_security_events = handle_get_link_security_events link
  serve_link user link get_link_termination = handle_get_link_termination link
  serve_link user link (attach_endpoint_to_link endpoint) =
      handle_attach_endpoint_to_link link endpoint

  unfoldable pub serve_owner : ℕ → OwnerCall → App R Reply
  serve_owner user me = handle_me user
  serve_owner user (create_target_site req) = handle_create_target_site req
  serve_owner user list_devices = handle_list_devices user
  serve_owner user (create_device req) = handle_create_device user req
  serve_owner user (delete_device id) = handle_delete_device user id
  serve_owner user list_api_keys = handle_list_api_keys user
  serve_owner user (create_api_key req) = handle_create_api_key user out.sha256_hex req
  serve_owner user (revoke_api_key id) = handle_revoke_api_key user id
  serve_owner user list_sessions = handle_list_sessions user
  serve_owner user (import_session req) = handle_import_session user out.aead req
  serve_owner user (get_session id) = handle_get_session user id
  serve_owner user list_policies = handle_list_policies user
  serve_owner user (create_policy req) = handle_create_policy user req
  serve_owner user (delete_policy id) = handle_delete_policy user id
  serve_owner user list_blacklist = handle_list_blacklist user
  serve_owner user (create_blacklist_endpoint req) = handle_create_blacklist_endpoint user req
  serve_owner user (delete_blacklist_endpoint id) = handle_delete_blacklist_endpoint user id
  serve_owner user (set_blocked_methods id methods) = handle_set_blocked_methods user id methods
  serve_owner user (attach_blacklist_to_site id site) = handle_attach_blacklist_to_site user id site
  serve_owner user list_guests = handle_list_guests
  serve_owner user (list_links status) = handle_list_links user status
  serve_owner user (create_link req) = handle_create_link user req
  serve_owner user (on_link link call) =
      require_link_ownership user link (λ l. serve_link user l call)

  -- With the value of the Authorization header.
  unfoldable pub serve_api : Bytes → ApiCall → App R Reply
  serve_api header (register req) =
      handle_register out.hash_password out.compare_password out.issue_jwt req
  serve_api header (login req) =
      handle_login out.hash_password out.compare_password out.issue_jwt req
  serve_api header list_target_sites = handle_list_target_sites out.order_by_name
  serve_api header list_revocation_reasons = handle_list_revocation_reasons
  serve_api header (authenticated call) =
      require_auth out.sha256_hex out.verify_jwt header (λ user. serve_owner user call)
