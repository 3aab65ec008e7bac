-- ===== src/Crypto/RoundTrip.antt =====
-- What is decrypted is what was encrypted.
use session_proxy.Base.{
  ℕ, ◌≡◌, refl, sym, ap, ◌∙◌, false, some, List, [], ◌∷◌, ◌++◌, arith, ltb, ==_self, length,
  length-append, take, drop, All-append,
}
use session_proxy.Base.Bytes.{Bytes, drop-append}
use session_proxy.Base64.Std.{encode}
use session_proxy.Base64.Std.RoundTrip.{IsBytes, decode-encode}
use session_proxy.Store.App.{World, ok, ◌>>=◌}
use session_proxy.LinkService.{read_random}
use session_proxy.Crypto.{Aead, encrypt, decrypt, open_stored}

take-append : (xs ys : Bytes) → take (length xs) (xs ++ ys) ≡ xs
take-append [] ys = refl
take-append (x ∷ xs) ys = ap (λ r. x ∷ r) (take-append xs ys)

take-all : (n : ℕ) (xs ys : Bytes) → length xs ≡ n → take n (xs ++ ys) ≡ xs
take-all n xs ys e = rw (sym e) (take-append xs ys)

drop-all : (n : ℕ) (xs ys : Bytes) → length xs ≡ n → drop n (xs ++ ys) ≡ ys
drop-all n xs ys e = rw (sym e) (drop-append xs ys)

long_enough : (n : ℕ) (xs ys : Bytes) → length xs ≡ n → ltb (length (xs ++ ys)) n ≡ false
long_enough n xs ys e = ground (arith, length-append xs ys)

module _ (aead : Aead) (nonce plaintext : Bytes) (e : length nonce ≡ aead.nonce_size)
    (h : IsBytes nonce) (hp : IsBytes plaintext) where
  opened : open_stored aead (some (nonce ++ aead.seal nonce plaintext)) ≡ some plaintext
  unfolding open_stored
  opened =
      rw
        (
          long_enough aead.nonce_size nonce (aead.seal nonce plaintext) e,
          take-all aead.nonce_size nonce (aead.seal nonce plaintext) e,
          drop-all aead.nonce_size nonce (aead.seal nonce plaintext) e,
        )
        (aead.open_sealed-seal nonce plaintext e hp)

  -- What a nonce and a plaintext are stored as is decrypted to the plaintext.
  pub decrypt-stored : decrypt aead (encode (nonce ++ aead.seal nonce plaintext)) ≡ some plaintext
  unfolding decrypt
  decrypt-stored =
      ap (open_stored aead) (
        decode-encode (nonce ++ aead.seal nonce plaintext)
          (All-append _ nonce _ h (aead.seal-IsBytes nonce plaintext hp)))
      ∙ opened

-- Encrypt succeeds where crypto/rand gives a nonce, and Decrypt of the text that it returns is the
-- plaintext, for every plaintext.
pub decrypt-encrypt :
    {R : Type 0} (aead : Aead) (plaintext nonce : Bytes) (rest : List Bytes) (w : World R)
    → w.random ≡ nonce ∷ rest
    → length nonce ≡ aead.nonce_size
    → IsBytes nonce
    → IsBytes plaintext
    → (stored : Bytes) × (((encrypt aead plaintext w).0 ≡ ok stored)
        × (decrypt aead stored ≡ some plaintext))
unfolding encrypt read_random ◌>>=◌
decrypt-encrypt aead plaintext nonce rest w f e h hp = (
  encode (nonce ++ aead.seal nonce plaintext),
  (rw (f, e, ==_self aead.nonce_size) refl, decrypt-stored aead nonce plaintext e h hp),
)
