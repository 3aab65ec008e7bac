-- ===== src/Domain/Links.antt =====
-- app/internal/domain/domain.go, group 3: shared links, policies, blacklists, and the bundles
-- that the services pass around. A limit is an int64, so it may be negative.
use session_proxy.Base.{ℕ, String, Option, List}
use session_proxy.Base.Int.{ℤ, pos}
use session_proxy.Base.Bytes.{Bytes}
use session_proxy.Domain.Sessions.{TargetSite, OriginalSession}

pub record SharedLink : Type 0 where
  pub id : ℕ
  pub original_session_id : ℕ
  pub token : Bytes
  pub status : String
  pub label : Option String
  pub created_at : ℕ
  pub expires_at : Option ℤ

pub record AccessPolicy : Type 0 where
  pub id : ℕ
  pub user_id : ℕ
  pub name : String
  pub max_requests : Option ℤ
  pub max_bytes_transferred : Option ℤ
  pub max_ttl_seconds : Option ℤ
  pub max_violation_count : Option ℤ
  pub created_at : ℕ

abbrev pub default_max_violation_count : ℤ
default_max_violation_count = pos 3

abbrev pub pattern_type_prefix : String
pattern_type_prefix = "prefix"

abbrev pub pattern_type_regex : String
pattern_type_regex = "regex"

pub record BlacklistedEndpoint : Type 0 where
  pub id : ℕ
  pub user_id : ℕ
  pub pattern : Bytes
  pub pattern_type : String
  pub description : Option String
  pub created_at : ℕ
  pub blocked_methods : List Bytes

pub record EffectivePolicy : Type 0 where
  pub max_requests : Option ℤ
  pub max_bytes_transferred : Option ℤ
  pub max_ttl_seconds : Option ℤ
  pub max_violation_count : ℤ

pub record LinkWithSession : Type 0 where
  pub link : SharedLink
  pub original_session : OriginalSession
  pub target_site : TargetSite
  pub owner_user_id : ℕ
