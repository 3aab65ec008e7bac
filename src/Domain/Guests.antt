-- ===== src/Domain/Guests.antt =====
-- app/internal/domain/domain.go, group 4: guests, guest sessions, usage counters.
use session_proxy.Base.{ℕ, String, Option}

pub record Guest : Type 0 where
  pub id : ℕ
  pub ip_address : Option String
  pub user_agent : Option String
  pub browser_fingerprint : Option String
  pub first_seen_at : ℕ
  pub last_seen_at : Option ℕ

pub record GuestSession : Type 0 where
  pub id : ℕ
  pub shared_link_id : ℕ
  pub guest_id : Option ℕ
  pub status : String
  pub started_at : ℕ
  pub last_request_at : Option ℕ
  pub terminated_at : Option ℕ

pub record UsageCounters : Type 0 where
  pub shared_link_id : ℕ
  pub request_count : ℕ
  pub bytes_transferred : ℕ
  pub violation_count : ℕ
  pub updated_at : ℕ
