-- ===== src/Domain/Logs.antt =====
-- app/internal/domain/domain.go, group 5: logs and security.
use session_proxy.Base.{ℕ, String, Option}
use session_proxy.Base.Bytes.{Bytes}

pub record ProxyAccessLog : Type 0 where
  pub guest_session_id : Option ℕ
  pub shared_link_id : ℕ
  pub target_url : Bytes
  pub http_method : Bytes
  pub response_status : Option ℕ
  pub bytes_transferred : Option ℕ
  pub response_time_ms : Option ℕ
  pub requested_at : ℕ

pub record LinkStats : Type 0 where
  pub target_site_id : ℕ
  pub site_name : String
  pub base_domain : String
  pub shared_link_id : ℕ
  pub total_requests : ℕ
  pub total_bytes : ℕ
  -- a float64, by its text
  pub avg_response_ms : String
  pub first_request_at : Option ℕ
  pub last_request_at : Option ℕ

abbrev pub reason_ttl_expired : String
reason_ttl_expired = "ttl_expired"

abbrev pub reason_request_limit : String
reason_request_limit = "request_limit"

abbrev pub reason_traffic_limit : String
reason_traffic_limit = "traffic_limit"

abbrev pub reason_violation_limit : String
reason_violation_limit = "violation_limit"

abbrev pub reason_manual : String
reason_manual = "manual"

pub record LinkTermination : Type 0 where
  pub shared_link_id : ℕ
  pub reason_code : String
  pub terminated_by : Option ℕ
  pub notes : Option String
  pub terminated_at : ℕ

abbrev pub event_blacklist_violation : String
event_blacklist_violation = "blacklist_violation"

pub record SecurityEvent : Type 0 where
  pub guest_session_id : Option ℕ
  pub shared_link_id : ℕ
  pub event_type : String
  pub target_url : Option Bytes
  pub http_method : Option Bytes
  pub occurred_at : ℕ
