-- ===== src/Base64/Std.antt =====
-- base64.StdEncoding of encoding/base64, as app/internal/crypto and app/internal/config use it.
pub mod RoundTrip
use session_proxy.Base.{
  ℕ, ◌+◌, ◌-◌, ◌*◌, ◌/◌, ◌%◌, Bool, not, ◌&&◌, ◌||◌, Option, none, some, List, [], ◌∷◌, ltb, leb,
  ◌==◌, if◌then◌else◌, where_rows,
}
use session_proxy.Base.Bytes.{Bytes}

abbrev pub padding : ℕ
padding = b'='

-- The letter of six bits.
unfoldable pub letter : ℕ → ℕ
letter v =
    if ltb v 26
    then v + 65
    else if ltb v 52
    then v + 71
    else if ltb v 62
    then v - 4
    else if v == 62
    then b'+'
    else b'/'

-- The six bits of a letter.
unfoldable pub index : ℕ → Option ℕ
index c =
    if leb b'A' c && leb c b'Z'
    then some (c - 65)
    else if leb b'a' c && leb c b'z'
    then some (c - 71)
    else if leb b'0' c && leb c b'9'
    then some (c + 4)
    else if c == b'+'
    then some 62
    else if c == b'/'
    then some 63
    else none

-- EncodeToString
unfoldable pub encode : Bytes → Bytes
encode [] = []
encode (a ∷ []) = letter (a / 4) ∷ letter (a % 4 * 16) ∷ padding ∷ padding ∷ []
encode (a ∷ b ∷ []) =
    letter (a / 4) ∷ letter (a % 4 * 16 + b / 16) ∷ letter (b % 16 * 4) ∷ padding ∷ []
encode (a ∷ b ∷ c ∷ rest) =
    letter (a / 4)
    ∷ letter (a % 4 * 16 + b / 16)
    ∷ letter (b % 16 * 4 + c / 64)
    ∷ letter (c % 64)
    ∷ encode rest

abbrev pub one_byte : Option ℕ → Option ℕ → Option Bytes
one_byte (some a) (some b) = some ((a * 4 + b / 16) ∷ [])
one_byte _ _ = none

abbrev pub two_bytes : Option ℕ → Option ℕ → Option ℕ → Option Bytes
two_bytes (some a) (some b) (some c) = some ((a * 4 + b / 16) ∷ (b % 16 * 16 + c / 4) ∷ [])
two_bytes _ _ _ = none

abbrev pub three_bytes : Option ℕ → Option ℕ → Option ℕ → Option ℕ → Option Bytes → Option Bytes
three_bytes (some a) (some b) (some c) (some d) (some rest) =
    some ((a * 4 + b / 16) ∷ (b % 16 * 16 + c / 4) ∷ (c % 4 * 64 + d) ∷ rest)
three_bytes _ _ _ _ _ = none

abbrev pub at_end : Bytes → Option Bytes → Option Bytes
at_end [] r = r
at_end (_ ∷ _) r = none

-- The quanta of four letters, of which only the last may be padded.
unfoldable pub decode_quanta : Bytes → Option Bytes
decode_quanta [] = some []
decode_quanta (a ∷ []) = none
decode_quanta (a ∷ b ∷ []) = none
decode_quanta (a ∷ b ∷ c ∷ []) = none
decode_quanta (a ∷ b ∷ c ∷ d ∷ rest) =
    let more = decode_quanta rest in
    if d == padding
    then at_end rest (
        if c == padding
        then one_byte (index a) (index b)
        else two_bytes (index a) (index b) (index c))
    else three_bytes (index a) (index b) (index c) (index d) more

abbrev pub is_line_end : ℕ → Bool
is_line_end c = c == 10 || c == 13

-- DecodeString, which passes over line ends
unfoldable pub decode : Bytes → Option Bytes
unfolding decode_quanta
decode s = decode_quanta (where_rows (λ c. not (is_line_end c)) s)
