-- ===== src/Domain/Sessions.antt =====
-- app/internal/domain/domain.go, group 2: target sites and owner sessions.
use session_proxy.Base.{ℕ, String, Option, Bool}
use session_proxy.Base.Bytes.{Bytes}

pub record TargetSite : Type 0 where
  pub id : ℕ
  pub base_domain : String
  pub name : String
  pub base_url : Bytes
  pub created_at : ℕ

-- The status constants.
abbrev pub session_status_active : String
session_status_active = "active"

abbrev pub link_status_active : String
link_status_active = "active"

abbrev pub link_status_terminated : String
link_status_terminated = "terminated"

abbrev pub guest_session_active : String
guest_session_active = "active"

abbrev pub guest_session_terminated : String
guest_session_terminated = "terminated"

pub record OriginalSession : Type 0 where
  pub id : ℕ
  pub user_id : ℕ
  pub target_site_id : ℕ
  pub device_id : Option ℕ
  pub status : String
  pub label : Option String
  pub imported_at : ℕ
  pub expires_at : Option ℕ

pub record SessionCookie : Type 0 where
  pub id : ℕ
  pub original_session_id : ℕ
  pub name : Bytes
  pub value_encrypted : Bytes
  pub domain : Option Bytes
  pub path : Bytes
  pub secure : Bool
  pub http_only : Bool
  pub same_site : Option Bytes
  pub expires_at : Option ℕ
  pub created_at : ℕ

pub record SessionToken : Type 0 where
  pub id : ℕ
  pub original_session_id : ℕ
  pub token_type : Option Bytes
  pub header_name : Option Bytes
  pub value_encrypted : Bytes
  pub expires_at : Option ℕ
  pub created_at : ℕ
