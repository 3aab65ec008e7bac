-- ===== src/Base64.antt =====
-- base64.RawURLEncoding of encoding/base64, as generateLinkToken uses it.
pub mod Std
use session_proxy.Base.{ℕ, ◌+◌, ◌-◌, ◌*◌, ◌/◌, ◌%◌, [], ◌∷◌, ltb, ◌==◌, if◌then◌else◌}
use session_proxy.Base.Bytes.{Bytes}

-- The letter of six bits.
unfoldable pub letter : ℕ → ℕ
letter v =
    if ltb v 26
    then v + 65
    else if ltb v 52
    then v + 71
    else if ltb v 62
    then v - 4
    else if v == 62
    then b'-'
    else b'_'

unfoldable pub encode_raw_url : Bytes → Bytes
unfolding letter
encode_raw_url [] = []
encode_raw_url (a ∷ []) = letter (a / 4) ∷ letter (a % 4 * 16) ∷ []
encode_raw_url (a ∷ b ∷ []) =
    letter (a / 4) ∷ letter (a % 4 * 16 + b / 16) ∷ letter (b % 16 * 4) ∷ []
encode_raw_url (a ∷ b ∷ c ∷ rest) =
    letter (a / 4)
    ∷ letter (a % 4 * 16 + b / 16)
    ∷ letter (b % 16 * 4 + c / 64)
    ∷ letter (c % 64)
    ∷ encode_raw_url rest
