-- ===== src/SessionImport/Plans.antt =====
-- What the rows of an imported session are injected as.
use session_proxy.Base.{
  ℕ, ◌≡◌, refl, Option, none, some, List, [], ◌∷◌, ◌++◌, arith, ◌==◌, where_rows,
}
use session_proxy.Base.Bytes.{Bytes}
use session_proxy.Domain.{SessionCookie, SessionToken}
use session_proxy.Store.Db.{Db}
use session_proxy.Store.App.{ok}
use session_proxy.Proxy.Header.{Header, Cookie, add, authorization_name}
use session_proxy.Proxy.Handler.{header_name, plan_cookies, plan_headers}
use session_proxy.SessionImport.{CookieInput, TokenInput, given, token_row}

-- The cookies and the header fields that were submitted.
abbrev pub submitted_cookies : List CookieInput → List Cookie
submitted_cookies [] = []
submitted_cookies (c ∷ cs) = record { name = c.name; value = c.value } ∷ submitted_cookies cs

abbrev pub name_or_authorization : Bytes → Bytes
name_or_authorization [] = authorization_name
name_or_authorization (b ∷ bs) = b ∷ bs

abbrev pub submitted_headers : Header → List TokenInput → Header
submitted_headers h [] = h
submitted_headers h (t ∷ ts) =
    submitted_headers (add (name_or_authorization t.header_name) t.value h) ts

pub header_name-given :
    (session : ℕ) (t : TokenInput) (e : Bytes)
    → header_name (token_row session t e) ≡ name_or_authorization t.header_name
header_name-given session t e = by_name t.header_name
  where
    by_name :
        (n : Bytes)
        → (elim (given n) [
          | none ↦ authorization_name
          | some n ↦ elim n [ [] ↦ authorization_name | c ∷ s ↦ c ∷ s ]
        ])
          ≡ name_or_authorization n
    by_name [] = refl
    by_name (b ∷ n) = refl

abbrev pub cookies_of : ℕ → Db → List SessionCookie
cookies_of session d = where_rows (λ c. c.original_session_id == session) d.session_cookies

abbrev pub tokens_of : ℕ → Db → List SessionToken
tokens_of session d = where_rows (λ t. t.original_session_id == session) d.session_tokens

-- Two lists of one length whose elements are related in order.
abbrev pub All2 : {A B : Type 0} → (A → B → Type 0) → List A → List B → Type 0
All2 P [] [] = Unit
All2 P [] (y ∷ ys) = ⊥
All2 P (x ∷ xs) [] = ⊥
All2 P (x ∷ xs) (y ∷ ys) = P x y × All2 P xs ys

pub All2-append :
    {A B : Type 0} (P : A → B → Type 0) (xs : List A) (ys : List B) (zs : List A) (ws : List B)
    → All2 P xs ys
    → All2 P zs ws
    → All2 P (xs ++ zs) (ys ++ ws)
All2-append P [] [] zs ws h k = k
All2-append P [] (y ∷ ys) zs ws h k = absurd h
All2-append P (x ∷ xs) [] zs ws h k = absurd h
All2-append P (x ∷ xs) (y ∷ ys) zs ws h k = (h.0, All2-append P xs ys zs ws h.1 k)

module _ (decrypt : Bytes → Option Bytes) where
  -- A row that is injected as an input.
  abbrev pub CarriesCookie : SessionCookie → CookieInput → Type 0
  CarriesCookie r c = (r.name ≡ c.name) × (decrypt r.value_encrypted ≡ some c.value)

  abbrev pub CarriesToken : SessionToken → TokenInput → Type 0
  CarriesToken r t =
      (header_name r ≡ name_or_authorization t.header_name)
      × (decrypt r.value_encrypted ≡ some t.value)

  pub plan_cookies-submitted :
      (rows : List SessionCookie) (cs : List CookieInput)
      → All2 CarriesCookie rows cs
      → plan_cookies decrypt rows ≡ ok (submitted_cookies cs)
  unfolding plan_cookies
  plan_cookies-submitted [] [] h = refl
  plan_cookies-submitted [] (c ∷ cs) h = absurd h
  plan_cookies-submitted (r ∷ rows) [] h = absurd h
  plan_cookies-submitted (r ∷ rows) (c ∷ cs) h =
      ground (arith, h.0.0, h.0.1, plan_cookies-submitted rows cs h.1)

  pub plan_headers-submitted :
      (start : Header) (rows : List SessionToken) (ts : List TokenInput)
      → All2 CarriesToken rows ts
      → plan_headers decrypt start rows ≡ ok (submitted_headers start ts)
  unfolding plan_headers
  plan_headers-submitted start [] [] h = refl
  plan_headers-submitted start [] (t ∷ ts) h = absurd h
  plan_headers-submitted start (r ∷ rows) [] h = absurd h
  plan_headers-submitted start (r ∷ rows) (t ∷ ts) h =
      ground (
        arith,
        h.0.0,
        h.0.1,
        plan_headers-submitted (add (header_name r) t.value start) rows ts h.1,
      )
