-- ===== src/Base64/Std/RoundTrip.antt =====
-- Decoding undoes encoding.
use session_proxy.Base.{
  ℕ, ◌+◌, ◌*◌, ◌/◌, ◌%◌, ◌<◌, ◌≡◌, refl, ap, ◌∙◌, false, not, Option, some, [], ◌∷◌, arith, ◌==◌,
  where_rows, All,
}
use session_proxy.Base.Bytes.{Bytes}
use session_proxy.Base64.Std.{letter, index, encode, decode, decode_quanta, padding, is_line_end}

abbrev pub IsBytes : Bytes → Type 0
IsBytes = All (λ b. b < 256)

index-letter : (v : ℕ) → v < 64 → index (letter v) ≡ some v
unfolding index letter
index-letter v h = ground arith

letter-unpadded : (v : ℕ) → v < 64 → (letter v == padding) ≡ false
unfolding letter
letter-unpadded v h = ground arith

letter-printed : (v : ℕ) → v < 64 → is_line_end (letter v) ≡ false
unfolding letter
letter-printed v h = ground arith

abbrev two : ℕ → ℕ → Option Bytes
two x y = some (x ∷ y ∷ [])

abbrev three : ℕ → ℕ → ℕ → Bytes → Option Bytes
three x y z rest = some (x ∷ y ∷ z ∷ rest)

same_two : {x x' y y' : ℕ} → x ≡ x' → y ≡ y' → two x y ≡ two x' y'
same_two p q = λ i. two (p i) (q i)

same_three :
    {x x' y y' z z' : ℕ} (rest : Bytes)
    → x ≡ x'
    → y ≡ y'
    → z ≡ z'
    → three x y z rest ≡ three x' y' z' rest
same_three rest p q r = λ i. three (p i) (q i) (r i) rest

decode_quanta-encode : (s : Bytes) → IsBytes s → decode_quanta (encode s) ≡ some s
unfolding decode_quanta encode
decode_quanta-encode [] h = refl
decode_quanta-encode (a ∷ []) h =
    rw (index-letter (a / 4) (omega (arith, h.0)), index-letter (a % 4 * 16) (omega arith))
      (ap (λ x. some (x ∷ [])) (omega (arith, h.0)))
decode_quanta-encode (a ∷ b ∷ []) h =
    rw
      (
        letter-unpadded (b % 16 * 4) (omega arith),
        index-letter (a / 4) (omega (arith, h.0)),
        index-letter (a % 4 * 16 + b / 16) (omega (arith, h.1.0)),
        index-letter (b % 16 * 4) (omega arith),
      )
      (same_two (omega (arith, h.0)) (omega (arith, h.1.0)))
decode_quanta-encode (a ∷ b ∷ c ∷ rest) h =
    rw
      (
        letter-unpadded (c % 64) (omega arith),
        index-letter (a / 4) (omega (arith, h.0)),
        index-letter (a % 4 * 16 + b / 16) (omega (arith, h.1.0)),
        index-letter (b % 16 * 4 + c / 64) (omega (arith, h.1.1.0)),
        index-letter (c % 64) (omega arith),
        decode_quanta-encode rest h.1.1.1,
      )
      (same_three rest (omega (arith, h.0, h.1.0)) (omega (arith, h.1.0, h.1.1.0))
        (omega (arith, h.1.1.0)))

-- No letter is a line end.
encode-printed :
    (s : Bytes) → IsBytes s → where_rows (λ c. not (is_line_end c)) (encode s) ≡ encode s
unfolding encode
encode-printed [] h = refl
encode-printed (a ∷ []) h =
    rw (letter-printed (a / 4) (omega (arith, h.0)), letter-printed (a % 4 * 16) (omega arith)) refl
encode-printed (a ∷ b ∷ []) h =
    rw
      (
        letter-printed (a / 4) (omega (arith, h.0)),
        letter-printed (a % 4 * 16 + b / 16) (omega (arith, h.1.0)),
        letter-printed (b % 16 * 4) (omega arith),
      )
      refl
encode-printed (a ∷ b ∷ c ∷ rest) h =
    rw
      (
        letter-printed (a / 4) (omega (arith, h.0)),
        letter-printed (a % 4 * 16 + b / 16) (omega (arith, h.1.0)),
        letter-printed (b % 16 * 4 + c / 64) (omega (arith, h.1.1.0)),
        letter-printed (c % 64) (omega arith),
        encode-printed rest h.1.1.1,
      )
      refl

pub decode-encode : (s : Bytes) → IsBytes s → decode (encode s) ≡ some s
unfolding decode
decode-encode s h = ap decode_quanta (encode-printed s h) ∙ decode_quanta-encode s h
