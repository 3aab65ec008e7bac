-- ===== src/Crypto.antt =====
-- app/internal/crypto/aesgcm.go. The AEAD of Go's crypto/cipher is given by its two functions and
-- the law that opening undoes sealing.
pub mod RoundTrip
pub mod Tests
use session_proxy.Base.{
  ℕ, ◌≡◌, Option, none, some, ◌++◌, ltb, ◌==◌, if◌then◌else◌, length, take, drop,
}
use session_proxy.Base.Bytes.{Bytes}
use session_proxy.Base64.Std.{encode, decode}
use session_proxy.Base64.Std.RoundTrip.{IsBytes}
use session_proxy.Store.App.{App, pure, ◌>>=◌}
use session_proxy.LinkService.{read_random}

-- cipher.AEAD; the additional data is always empty.
pub record Aead : Type 0 where
  pub nonce_size : ℕ
  pub seal : Bytes → Bytes → Bytes
  pub open_sealed : Bytes → Bytes → Option Bytes
  pub open_sealed-seal :
      (nonce plaintext : Bytes)
      → length nonce ≡ nonce_size
      → IsBytes plaintext
      → open_sealed nonce (seal nonce plaintext) ≡ some plaintext
  pub seal-IsBytes : (nonce plaintext : Bytes) → IsBytes plaintext → IsBytes (seal nonce plaintext)

-- New: aes.NewCipher and cipher.NewGCM after the test of the key's length
unfoldable pub new_cipher : (Bytes → Option Aead) → Bytes → Option Aead
new_cipher gcm key = if length key == 32 then gcm key else none

unfoldable pub encrypt : {R : Type 0} → Aead → Bytes → App R Bytes
encrypt aead plaintext = do
  nonce ← read_random aead.nonce_size
  pure (encode (nonce ++ aead.seal nonce plaintext))

unfoldable pub open_stored : Aead → Option Bytes → Option Bytes
open_stored aead none = none
open_stored aead (some sealed) =
    if ltb (length sealed) aead.nonce_size
    then none
    else aead.open_sealed (take aead.nonce_size sealed) (drop aead.nonce_size sealed)

-- None for each of the three errors.
unfoldable pub decrypt : Aead → Bytes → Option Bytes
unfolding open_stored
decrypt aead stored = open_stored aead (decode stored)
