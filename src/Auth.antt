-- ===== src/Auth.antt =====
-- app/internal/service/auth_service.go: api keys, registration and login. SHA-256, bcrypt and the
-- JWT library are parameters.
pub mod Keys
mod Tests
use session_proxy.Base.{ℕ, String, Bool, Option, none, some, ◌++◌, if◌then◌else◌}
use session_proxy.Base.Int.{pos, ltb_ℤ, ℤ}
use session_proxy.Base.Bytes.{Bytes, codes}
use session_proxy.Base64.{encode_raw_url}
use session_proxy.Domain.{User, ApiKey}
use session_proxy.Store.App.{
  App, Result, ok, err, email_taken, invalid_credentials, api_key_revoked, pure, throw, lift,
  attempt, gets, ◌>>=◌,
}
use session_proxy.Repo.Order.{null_if_empty}
use session_proxy.Repo.Users
use session_proxy.LinkService.{read_random}

-- A key with its raw value, which is given out once.
pub record CreatedKey : Type 0 where
  pub raw_key : Bytes
  pub key : ApiKey

abbrev pub is_expired : Option ℤ → ℕ → Bool
is_expired none now = Bool.false
is_expired (some t) now = ltb_ℤ t (pos now)

module _ {R : Type 0} (sha256_hex : Bytes → String) where
  unfoldable pub create_api_key : ℕ → String → Option ℕ → Option ℤ → App R CreatedKey
  unfolding null_if_empty
  create_api_key user label device expires_at = do
    raw ← read_random 32
    key ← Users.create_key (record {
      id = 0;
      user_id = user;
      device_id = device;
      key_hash = sha256_hex (codes "spk_" ++ encode_raw_url raw);
      label = null_if_empty label;
      revoked_at = none;
      expires_at = expires_at;
      created_at = 0;
    })
    pure (record { raw_key = codes "spk_" ++ encode_raw_url raw; key = key })

  unfoldable pub accept_key : ApiKey → Option ℕ → App R ℕ
  accept_key k (some revoked) = throw api_key_revoked
  accept_key k none = do
    now ← gets (λ w. w.now)
    if is_expired k.expires_at now then throw api_key_revoked else pure k.user_id

  unfoldable pub judge_key : Result ApiKey → App R ℕ
  judge_key (ok k) = accept_key k k.revoked_at
  judge_key (err e) = throw invalid_credentials

  unfoldable pub verify_api_key : Bytes → App R ℕ
  verify_api_key raw_key = do
    found ← attempt (Users.get_by_hash (sha256_hex raw_key))
    judge_key found

module _ {R : Type 0} (hash_password : String → Result String)
    (compare_password : String → String → Bool) (issue_jwt : ℕ → ℕ → Result Bytes) where
  unfoldable pub registered : String → String → String → Result User → App R User
  unfolding null_if_empty
  registered email password display_name (ok user) = throw email_taken
  registered email password display_name (err e) = do
    hash ← lift (hash_password password)
    Users.create (record {
      id = 0;
      email = email;
      password_hash = hash;
      display_name = null_if_empty display_name;
      created_at = 0;
      updated_at = 0;
    })

  unfoldable pub register : String → String → String → App R User
  register email password display_name = do
    found ← attempt (Users.get_by_email email)
    registered email password display_name found

  unfoldable pub judge_password : String → Result User → App R (Bytes × User)
  judge_password password (err e) = throw invalid_credentials
  judge_password password (ok user) =
      if compare_password user.password_hash password
      then (do now ← gets (λ w. w.now); token ← lift (issue_jwt user.id now); pure (token, user))
      else throw invalid_credentials

  unfoldable pub login : String → String → App R (Bytes × User)
  login email password = do
    found ← attempt (Users.get_by_email email)
    judge_password password found
