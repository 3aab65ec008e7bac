-- ===== src/Config/Loaded.antt =====
-- What a configuration that is loaded has.
use session_proxy.Base.{
  ℕ, String, ◌≡◌, refl, subst, ◌≢◌, Option, none, some, [], ◌∷◌, arith, length,
}
use session_proxy.Base.Int.{ℤ}
use session_proxy.Base.Bytes.{Bytes}
use session_proxy.Crypto.{Aead, new_cipher}
use session_proxy.Base64.Std.{decode}
use session_proxy.Config.{
  Config, Loading, panicked, refused, loaded, load, with_database, with_key, with_secret,
  decode_key, key_of_length,
}

-- What the start of the program relies on.
abbrev pub IsUsable : Config → Type 0
IsUsable c = (c.database_url ≢ []) × ((c.jwt_secret ≢ []) × (length c.encryption_key ≡ 32))

abbrev IfLoaded : Loading → Type 0
IfLoaded panicked = Unit
IfLoaded refused = Unit
IfLoaded (loaded c) = IsUsable c

module _ (getenv : String → Bytes) (atoi parse_duration : Bytes → Option ℤ) where
  key-length :
      (raw key : Bytes) → decode_key getenv atoi parse_duration raw 32 ≡ some key → length key ≡ 32
  key-length [] key e = absurd cc
  key-length (b ∷ bs) key e = by_decoded (decode (b ∷ bs)) e
    where
      by_decoded :
          (d : Option Bytes)
          → key_of_length getenv atoi parse_duration 32 d ≡ some key
          → length key ≡ 32
      by_decoded none e = absurd cc
      by_decoded (some k) e = ground (arith, e)

  with_secret-Usable :
      (b : ℕ) (bs key secret : Bytes)
      → length key ≡ 32
      → IfLoaded (with_secret getenv atoi parse_duration (b ∷ bs) key secret)
  with_secret-Usable b bs key [] e = tt
  with_secret-Usable b bs key (c ∷ cs) e = ((λ p. absurd cc), ((λ p. absurd cc), e))

  with_key-Usable :
      (b : ℕ) (bs : Bytes) (key : Option Bytes)
      → ((k : Bytes) → key ≡ some k → length k ≡ 32)
      → IfLoaded (with_key getenv atoi parse_duration (b ∷ bs) key)
  with_key-Usable b bs none h = tt
  with_key-Usable b bs (some k) h = with_secret-Usable b bs k (getenv "JWT_SECRET") (h k refl)

  load-Usable : (url : Bytes) → IfLoaded (with_database getenv atoi parse_duration url)
  load-Usable [] = tt
  load-Usable (b ∷ bs) = with_key-Usable b bs _ (key-length (getenv "ENCRYPTION_KEY"))

-- A configuration that Load returns has a database URL and a JWT secret that are not empty and an
-- encryption key of 32 bytes, so that New makes a cipher of it if AES-GCM accepts the key.
pub load-IsUsable :
    (getenv : String → Bytes) (atoi parse_duration : Bytes → Option ℤ) (gcm : Bytes → Option Aead)
    (c : Config)
    → load getenv atoi parse_duration ≡ loaded c
    → IsUsable c × (new_cipher gcm c.encryption_key ≡ gcm c.encryption_key)
unfolding load new_cipher
load-IsUsable getenv atoi parse_duration gcm c e =
    let u : IsUsable c =
      subst IfLoaded e (load-Usable getenv atoi parse_duration (getenv "DATABASE_URL")) in
    (u, rw u.1.1 refl)
