-- ===== src/Api/Reply.antt =====
-- app/internal/transport/http/helpers.go, and what the handlers answer.
use session_proxy.Base.{ℕ, String, Option, List}
use session_proxy.Base.Bytes.{Bytes}
use session_proxy.Domain.{
  Device, ApiKey, TargetSite, OriginalSession, SharedLink, AccessPolicy, BlacklistedEndpoint, Guest,
  GuestSession, ProxyAccessLog, LinkTermination, SecurityEvent, LinkStats,
}
use session_proxy.Store.App.{App, Result, ok, err, Error, pure, attempt, ◌>>=◌}

-- A body, before it is encoded. `plain_text` is http.Error's.
pub data Body : Type 0 where
  no_body : Body
  plain_text error_message info : String → Body
  registered : ℕ → String → Body
  logged_in : Bytes → ℕ → Body
  profile : ℕ → String → Option String → Body
  device : Device → Body
  devices : List Device → Body
  created_key : ℕ → Bytes → Option String → Body
  keys : List ApiKey → Body
  session : OriginalSession → Body
  sessions : List OriginalSession → Body
  link : SharedLink → Body
  links : List SharedLink → Body
  stats : LinkStats → Body
  logs : List ProxyAccessLog → Body
  guest_sessions : List GuestSession → Body
  security_events : List SecurityEvent → Body
  termination : LinkTermination → Body
  policy : AccessPolicy → Body
  policies : List AccessPolicy → Body
  endpoint : BlacklistedEndpoint → Body
  endpoints : List BlacklistedEndpoint → Body
  site : TargetSite → Body
  sites : List TargetSite → Body
  reasons : List String → Body
  guests : List Guest → Body

pub record Reply : Type 0 where
  pub status : ℕ
  pub body : Body

abbrev pub write_json : ℕ → Body → Reply
write_json status body = record { status = status; body = body }

abbrev pub write_error : ℕ → String → Reply
write_error status message = write_json status (error_message message)

-- w.WriteHeader(http.StatusNoContent)
abbrev pub no_content : Reply
no_content = record { status = 204; body = no_body }

-- http.Error
abbrev pub http_error : String → ℕ → Reply
http_error message status = record { status = status; body = plain_text message }

abbrev pub internal_error : Reply
internal_error = write_error 500 "internal error"

module _ {A : Type 0} where
  -- The reply of a handler to what its last call returns.
  abbrev pub answer : (Error → Reply) → (A → Reply) → Result A → Reply
  answer f g (err e) = f e
  answer f g (ok a) = g a

  module _ {R : Type 0} where
    abbrev pub respond : App R A → (Error → Reply) → (A → Reply) → App R Reply
    respond m f g = do r ← attempt m; pure (answer f g r)

    -- The handlers that answer 500 to every error.
    abbrev pub respond_or_500 : App R A → (A → Reply) → App R Reply
    respond_or_500 m g = respond m (λ e. internal_error) g
