-- ===== src/Config.antt =====
-- app/internal/config/config.go. The environment is a function that gives the empty text for a
-- variable that is not set; strconv.Atoi and time.ParseDuration are parameters.
pub mod Loaded
mod Tests
use session_proxy.Base.{ℕ, String, not, Option, none, some, [], ◌∷◌, ◌==◌, if◌then◌else◌, length}
use session_proxy.Base.Int.{ℤ, pos}
use session_proxy.Base.Bytes.{Bytes, codes}
use session_proxy.Base64.Std.{decode}

pub record Config : Type 0 where
  pub database_url : Bytes
  pub redis_url : Bytes
  pub http_port : Bytes
  pub grpc_port : Bytes
  pub debug_port : Bytes
  pub encryption_key : Bytes
  pub jwt_secret : Bytes
  pub access_token_ttl : ℤ
  pub limiter_sync_interval : ℤ
  pub proxy_log_batch_size : ℤ
  pub proxy_log_flush_interval : ℤ

-- How Load ends: with a panic of mustEnv, with an error, or with a configuration.
pub data Loading : Type 0 where
  panicked refused : Loading
  loaded : Config → Loading

abbrev pub or_else : Bytes → Bytes → Bytes
or_else [] fallback = fallback
or_else (b ∷ bs) fallback = b ∷ bs

abbrev pub parsed_or : (Bytes → Option ℤ) → Bytes → ℤ → ℤ
parsed_or parse [] fallback = fallback
parsed_or parse (b ∷ bs) fallback = elim (parse (b ∷ bs)) [ none ↦ fallback | some n ↦ n ]

module _ (getenv : String → Bytes) (atoi parse_duration : Bytes → Option ℤ) where
  abbrev pub env_or : String → String → Bytes
  env_or key fallback = or_else (getenv key) (codes fallback)

  abbrev pub int_or : String → ℤ → ℤ
  int_or key fallback = parsed_or atoi (getenv key) fallback

  abbrev pub duration_or : String → ℤ → ℤ
  duration_or key fallback = parsed_or parse_duration (getenv key) fallback

  -- The tests of decodeKey, after the one for a missing variable
  abbrev pub key_of_length : ℕ → Option Bytes → Option Bytes
  key_of_length want none = none
  key_of_length want (some key) = if not (length key == want) then none else some key

  abbrev pub decode_key : Bytes → ℕ → Option Bytes
  decode_key [] want = none
  decode_key (b ∷ bs) want = key_of_length want (decode (b ∷ bs))

  abbrev pub settings : Bytes → Bytes → Bytes → Config
  settings database_url key secret = record {
    database_url = database_url;
    redis_url = env_or "REDIS_URL" "redis://redis:6379/0";
    http_port = env_or "HTTP_PORT" "8080";
    grpc_port = env_or "GRPC_PORT" "9090";
    debug_port = env_or "DEBUG_PORT" "6060";
    encryption_key = key;
    jwt_secret = secret;
    access_token_ttl = duration_or "ACCESS_TOKEN_TTL" (pos 3600000000000);
    limiter_sync_interval = duration_or "LIMITER_SYNC_INTERVAL" (pos 3000000000);
    proxy_log_batch_size = int_or "PROXY_LOG_BATCH_SIZE" (pos 50);
    proxy_log_flush_interval = duration_or "PROXY_LOG_FLUSH_INTERVAL" (pos 500000000);
  }

  abbrev pub with_secret : Bytes → Bytes → Bytes → Loading
  with_secret database_url key [] = refused
  with_secret database_url key (b ∷ bs) = loaded (settings database_url key (b ∷ bs))

  abbrev pub with_key : Bytes → Option Bytes → Loading
  with_key database_url none = refused
  with_key database_url (some key) = with_secret database_url key (getenv "JWT_SECRET")

  -- mustEnv comes first.
  abbrev pub with_database : Bytes → Loading
  with_database [] = panicked
  with_database (b ∷ bs) = with_key (b ∷ bs) (decode_key (getenv "ENCRYPTION_KEY") 32)

  unfoldable pub load : Loading
  load = with_database (getenv "DATABASE_URL")
