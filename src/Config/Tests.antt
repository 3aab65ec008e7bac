-- ===== src/Config/Tests.antt =====
-- Tests and witnesses of Config: an environment with the three variables that are required.
use session_proxy.Base.{
  ℕ, zero, suc, String, ◌≡◌, refl, Option, none, some, [], ◌∷◌, str_eq, if◌then◌else◌,
}
use session_proxy.Base.Int.{ℤ}
use session_proxy.Base.Bytes.{Bytes, codes}
use session_proxy.Base64.Std.{decode, decode_quanta, index}
use session_proxy.Crypto.{new_cipher}
use session_proxy.Crypto.Tests.{plain}
use session_proxy.Config.{Config, loaded, load, settings}
use session_proxy.Config.Loaded.{IsUsable, load-IsUsable}

abbrev environment : String → Bytes
environment key =
    if str_eq key "DATABASE_URL"
    then codes "pg"
    else if str_eq key "ENCRYPTION_KEY"
    then codes "AAAAAAAAAAAAAAAAAAAAAAAAAAAAAAAAAAAAAAAAAAA="
    else if str_eq key "JWT_SECRET"
    then codes "s"
    else []

abbrev no_number : Bytes → Option ℤ
no_number b = none

abbrev zeros : ℕ → Bytes
zeros zero = []
zeros (suc n) = 0 ∷ zeros n

abbrev config : Config
config = settings environment no_number no_number (codes "pg") (zeros 32) (codes "s")

is_loaded : load environment no_number no_number ≡ loaded config
unfolding load decode decode_quanta index
is_loaded = refl

load-IsUsable_example :
    IsUsable config × (new_cipher (λ key. some plain) config.encryption_key ≡ some plain)
load-IsUsable_example =
    load-IsUsable environment no_number no_number (λ key. some plain) config is_loaded
