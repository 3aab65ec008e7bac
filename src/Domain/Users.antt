-- ===== src/Domain/Users.antt =====
-- app/internal/domain/domain.go, group 1: users, devices, api keys.
use session_proxy.Base.{ℕ, String, Option}
use session_proxy.Base.Int.{ℤ}

pub record User : Type 0 where
  pub id : ℕ
  pub email : String
  pub password_hash : String
  pub display_name : Option String
  pub created_at : ℕ
  pub updated_at : ℕ

pub record Device : Type 0 where
  pub id : ℕ
  pub user_id : ℕ
  pub name : Option String
  pub fingerprint : Option String
  pub last_seen_at : Option ℕ
  pub created_at : ℕ

pub record ApiKey : Type 0 where
  pub id : ℕ
  pub user_id : ℕ
  pub device_id : Option ℕ
  pub key_hash : String
  pub label : Option String
  pub revoked_at : Option ℕ
  pub expires_at : Option ℤ
  pub created_at : ℕ
