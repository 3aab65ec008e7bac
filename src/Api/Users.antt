-- ===== src/Api/Users.antt =====
-- app/internal/transport/http/handlers_auth.go.
use session_proxy.Base.{ℕ, String, Bool, ◌||◌, Option, none, some, str_eq, if◌then◌else◌}
use session_proxy.Base.Int.{ℤ, pos, ltb_ℤ, seconds_to_duration, add_duration}
use session_proxy.Base.Bytes.{Bytes}
use session_proxy.Store.App.{App, Result, Error, email_taken, pure, gets, ◌>>=◌}
use session_proxy.Repo.Order.{null_if_empty}
use session_proxy.Repo.Users
use session_proxy.Auth
use session_proxy.Api.Reply.{
  Reply, write_json, write_error, no_content, internal_error, respond, respond_or_500, registered,
  logged_in, profile, device, devices, created_key, keys,
}

pub record RegisterRequest : Type 0 where
  pub email : String
  pub password : String
  pub display_name : String

pub record LoginRequest : Type 0 where
  pub email : String
  pub password : String

pub record CreateDeviceRequest : Type 0 where
  pub name : String
  pub fingerprint : String

pub record CreateApiKeyRequest : Type 0 where
  pub label : String
  pub device_id : Option ℕ
  pub expires_in : ℤ

abbrev pub register_error : Error → Reply
register_error email_taken = write_error 409 "service: email already registered"
register_error e = internal_error

-- time.Now().Add(...), where the time is positive
abbrev pub key_expiry : ℤ → ℕ → Option ℤ
key_expiry expires_in now =
    if ltb_ℤ (pos 0) expires_in
    then some (add_duration now (seconds_to_duration expires_in))
    else none

module _ {R : Type 0} (hash_password : String → Result String)
    (compare_password : String → String → Bool) (issue_jwt : ℕ → ℕ → Result Bytes) where
  unfoldable pub handle_register : Option RegisterRequest → App R Reply
  handle_register none = pure (write_error 400 "email and password are required")
  handle_register (some req) =
      if str_eq req.email "" || str_eq req.password ""
      then pure (write_error 400 "email and password are required")
      else respond
          (Auth.register hash_password compare_password issue_jwt req.email req.password
            req.display_name)
          register_error (λ user. write_json 201 (registered user.id user.email))

  unfoldable pub handle_login : Option LoginRequest → App R Reply
  handle_login none = pure (write_error 400 "invalid request body")
  handle_login (some req) =
      respond (Auth.login hash_password compare_password issue_jwt req.email req.password)
        (λ e. write_error 401 "invalid email or password")
        (λ r. write_json 200 (logged_in r.0 r.1.id))

module _ {R : Type 0} (user : ℕ) where
  unfoldable pub handle_me : App R Reply
  handle_me =
      respond (Users.get_by_id user) (λ e. write_error 404 "user not found")
        (λ u. write_json 200 (profile u.id u.email u.display_name))

  unfoldable pub handle_create_device : Option CreateDeviceRequest → App R Reply
  unfolding null_if_empty
  handle_create_device none = pure (write_error 400 "invalid request body")
  handle_create_device (some req) =
      respond_or_500
        (Users.create_device (record {
          id = 0;
          user_id = user;
          name = null_if_empty req.name;
          fingerprint = null_if_empty req.fingerprint;
          last_seen_at = none;
          created_at = 0;
        }))
        (λ d. write_json 201 (device d))

  unfoldable pub handle_list_devices : App R Reply
  handle_list_devices = respond_or_500 (Users.list_devices user) (λ ds. write_json 200 (devices ds))

  -- The user is not asked for.
  unfoldable pub handle_delete_device : Option ℕ → App R Reply
  handle_delete_device none = pure (write_error 400 "invalid device id")
  handle_delete_device (some id) = respond_or_500 (Users.remove_device id) (λ _. no_content)

  unfoldable pub handle_create_api_key : (Bytes → String) → Option CreateApiKeyRequest → App R Reply
  unfolding seconds_to_duration
  handle_create_api_key sha256_hex none = pure (write_error 400 "invalid request body")
  handle_create_api_key sha256_hex (some req) = do
    now ← gets (λ w. w.now)
    respond_or_500
        (Auth.create_api_key sha256_hex user req.label req.device_id
          (key_expiry req.expires_in now))
        (λ k. write_json 201 (created_key k.key.id k.raw_key k.key.label))

  unfoldable pub handle_list_api_keys : App R Reply
  handle_list_api_keys = respond_or_500 (Users.list_keys user) (λ ks. write_json 200 (keys ks))

  unfoldable pub handle_revoke_api_key : Option ℕ → App R Reply
  handle_revoke_api_key none = pure (write_error 400 "invalid api key id")
  handle_revoke_api_key (some id) = respond_or_500 (Users.revoke id) (λ _. no_content)
