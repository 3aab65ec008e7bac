-- ===== src/SessionImport/Encrypted.antt =====
-- What the values of an import are encrypted to.
use session_proxy.Base.{
  ℕ, ◌≡◌, refl, ◌⊎◌, inl, inr, true, false, some, List, [], ◌∷◌, ◌==◌, ==_iff, Bool-cases, length,
  All,
}
use session_proxy.Base.Bytes.{Bytes}
use session_proxy.Base64.Std.RoundTrip.{IsBytes}
use session_proxy.Domain.{SessionCookie, SessionToken}
use session_proxy.Store.Db.{Db}
use session_proxy.Store.App.{World}
use session_proxy.Store.Ensures.{Post, Ensures, Ensures-pure, Ensures-bind, Ensures-assume}
use session_proxy.LinkService.{read_random, random_read}
use session_proxy.Crypto.{Aead, encrypt, decrypt}
use session_proxy.Crypto.RoundTrip.{decrypt-stored}
use session_proxy.SessionImport.{CookieInput, TokenInput, encrypt_cookies, encrypt_tokens}
use session_proxy.SessionImport.Plans.{All2, CarriesCookie, CarriesToken, header_name-given}

module _ (aead : Aead) where
  abbrev pub CookieRow : ℕ → SessionCookie → CookieInput → Type 0
  CookieRow session r c = (r.original_session_id ≡ session) × CarriesCookie (decrypt aead) r c

  abbrev pub TokenRow : ℕ → SessionToken → TokenInput → Type 0
  TokenRow session r t = (r.original_session_id ≡ session) × CarriesToken (decrypt aead) r t

module _ {R : Type 0} (aead : Aead) (K : Db → Type 0) where
  abbrev pub Random : World R → Type 0
  Random w = K w.db × All IsBytes w.random

  read-Random :
      (n : ℕ) → Ensures Random (read_random n) (λ b w. (length b ≡ n) × (IsBytes b × Random w))
  unfolding read_random
  read-Random n = record { at = λ w p. go w w.random p.0 p.1 }
    where
      go :
          (w : World R) (bs : List Bytes)
          → K w.db
          → All IsBytes bs
          → Post (λ b w. (length b ≡ n) × (IsBytes b × Random w)) (random_read w bs n)
      go w [] k h = tt
      go w (b ∷ bs) k h = sized (Bool-cases (length b == n))
        where
          sized :
              ((length b == n) ≡ true) ⊎ ((length b == n) ≡ false)
              → Post (λ b w. (length b ≡ n) × (IsBytes b × Random w)) (random_read w (b ∷ bs) n)
          sized (inl e) = rw e ((==_iff (length b) n).0 e, (h.0, (k, h.1)))
          sized (inr e) = rw e tt

  encrypt-Random :
      (plaintext : Bytes)
      → IsBytes plaintext
      → Ensures Random
          (encrypt aead plaintext)
          (λ s w. (decrypt aead s ≡ some plaintext) × Random w)
  unfolding encrypt
  encrypt-Random plaintext h =
      Ensures-bind _ _ _ _ (read-Random aead.nonce_size) (λ nonce.
        Ensures-pure _ _ (λ w p. (decrypt-stored aead nonce plaintext p.0 p.1.0 h, p.1.1)))

  pub encrypt_cookies-Random :
      (session : ℕ) (cs : List CookieInput)
      → All (λ c. IsBytes c.value) cs
      → Ensures Random
          (encrypt_cookies aead session cs)
          (λ rows w. All2 (CookieRow aead session) rows cs × Random w)
  unfolding encrypt_cookies
  encrypt_cookies-Random session [] h = Ensures-pure _ _ (λ w p. (tt, p))
  encrypt_cookies-Random session (c ∷ cs) h =
      Ensures-bind _ _ _ _ (encrypt-Random c.value h.0) (λ s. Ensures-assume _ (λ opened.
        Ensures-bind _ _ _ _ (encrypt_cookies-Random session cs h.1)
          (λ rest. Ensures-pure _ _ (λ w p. (((refl, (refl, opened)), p.0), p.1)))))

  pub encrypt_tokens-Random :
      (session : ℕ) (ts : List TokenInput)
      → All (λ t. IsBytes t.value) ts
      → Ensures Random
          (encrypt_tokens aead session ts)
          (λ rows w. All2 (TokenRow aead session) rows ts × Random w)
  unfolding encrypt_tokens
  encrypt_tokens-Random session [] h = Ensures-pure _ _ (λ w p. (tt, p))
  encrypt_tokens-Random session (t ∷ ts) h = Ensures-bind _ _ _ _ (encrypt-Random t.value h.0) (λ s.
      Ensures-assume _ (λ opened.
        Ensures-bind _ _ _ _ (encrypt_tokens-Random session ts h.1) (λ rest.
          Ensures-pure _ _ (λ w p. (((refl, (header_name-given session t s, opened)), p.0), p.1)))))
