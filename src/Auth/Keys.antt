-- ===== src/Auth/Keys.antt =====
-- Which api keys are accepted.
use session_proxy.Base.{
  ℕ, ◌≡◌, refl, sym, ap, ◌∙◌, subst, String, false, Option, none, some, str_eq, first_row,
}
use session_proxy.Base.Bytes.{Bytes}
use session_proxy.Domain.{ApiKey}
use session_proxy.Store.Db.{Db}
use session_proxy.Store.App.{World, Result, ok, err}
use session_proxy.Store.Ensures.{
  Post, Ensures, Ensures-throw, Ensures-pure, Ensures-gets, Ensures-query, Ensures-bind, Ensures-if,
  Ensures-attempt, OnOk,
}
use session_proxy.Repo.Order.{one_row, one_row-found}
use session_proxy.Repo.Users.{select_key_by_hash}
use session_proxy.Repo.Users
use session_proxy.Auth.{is_expired, accept_key, judge_key, verify_api_key}

-- A row of api_keys that the user may present: of this hash, not revoked and not expired.
abbrev pub IsValidKey : String → ℕ → ℕ → Db → Type 0
IsValidKey hash user now d =
    (k : ApiKey) × ((first_row (λ k. str_eq k.key_hash hash) d.api_keys ≡ some k)
      × ((k.user_id ≡ user) × ((k.revoked_at ≡ none) × (is_expired k.expires_at now ≡ false))))

module _ {R : Type 0} (sha256_hex : Bytes → String) (d : Db) (t : ℕ) where
  -- A row that the hash names, at the time of the call.
  abbrev Found : String → ApiKey → World R → Type 0
  Found hash k w = (first_row (λ k. str_eq k.key_hash hash) d.api_keys ≡ some k) × (w.now ≡ t)

  key-Found :
      (hash : String)
      → Ensures {R = R} (λ w. (w.db ≡ d) × (w.now ≡ t)) (Users.get_by_hash hash) (Found hash)
  unfolding Users.get_by_hash select_key_by_hash
  key-Found hash = Ensures-query _ _ (λ w k os p e. (
    one_row-found _ k
        (ap (λ d. one_row (first_row (λ k. str_eq k.key_hash hash) d.api_keys)) (sym p.0) ∙ e),
    p.1,
  ))

  accept-Valid :
      (hash : String) (k : ApiKey) (revoked : Option ℕ)
      → k.revoked_at ≡ revoked
      → Ensures (Found hash k) (accept_key sha256_hex k revoked) (λ u w. IsValidKey hash u t d)
  unfolding accept_key
  accept-Valid hash k (some r) e = Ensures-throw _
  accept-Valid hash k none e = Ensures-bind _ _ _ _ (Ensures-gets _) (λ now.
      Ensures-if (is_expired k.expires_at now) _ _ _ (λ _. Ensures-throw _)
        (λ fresh. Ensures-pure _ _ (λ w p.
          (k, (p.0.0, (refl, (e, ap (is_expired k.expires_at) (sym p.0.1 ∙ sym p.1) ∙ fresh)))))))

  judge-Valid :
      (hash : String) (r : Result ApiKey)
      → Ensures (OnOk (Found hash) r) (judge_key sha256_hex r) (λ u w. IsValidKey hash u t d)
  unfolding judge_key
  judge-Valid hash (ok k) = accept-Valid hash k k.revoked_at refl
  judge-Valid hash (err e) = Ensures-throw _

  verify-Valid :
      (raw : Bytes)
      → Ensures {R = R}
          (λ w. (w.db ≡ d) × (w.now ≡ t))
          (verify_api_key sha256_hex raw)
          (λ u w. IsValidKey (sha256_hex raw) u t d)
  unfolding verify_api_key
  verify-Valid raw =
      Ensures-bind _ _ _ _ (Ensures-attempt _ (key-Found (sha256_hex raw)))
        (judge-Valid (sha256_hex raw))

-- VerifyAPIKey accepts a raw key only for the user of a stored key with its hash that is neither
-- revoked nor expired at the time of the call.
pub verify_api_key_sound :
    {R : Type 0} (sha256_hex : Bytes → String) (raw : Bytes) (user : ℕ) (w w' : World R)
    → verify_api_key sha256_hex raw w ≡ (ok user, w')
    → IsValidKey (sha256_hex raw) user w.now w.db
verify_api_key_sound {R} sha256_hex raw user w w' e =
    subst (λ x. Post {R = R} (λ u w'. IsValidKey (sha256_hex raw) u w.now w.db) x) e
      ((verify-Valid sha256_hex w.db w.now raw).at w (refl, refl))
