-- ===== src/Api/Links/Expiry.antt =====
-- When a link that is created over HTTP expires.
use session_proxy.Base.{
  ℕ, ◌+◌, ◌*◌, ◌≤◌, ◌≡◌, refl, ap, ◌∙◌, subst, Bool, true, false, not, Option, some, List, [], ◌∷◌,
  arith, str_eq, ◌==◌, if◌then◌else◌, length,
}
use session_proxy.Base.Int.{ℤ, pos, ltb_ℤ, floor_micros, seconds_to_duration_exact}
use session_proxy.Domain.{SharedLink, session_status_active}
use session_proxy.Base.Bytes.{Bytes}
use session_proxy.Store.Db.{Db}
use session_proxy.Store.App.{Error, entropy, constraint, World, Result, ok, err, pure}
use session_proxy.Store.Ensures.{
  Post, Ensures, Ensures-pure, Ensures-bind, Ensures-query, Ensures-attempt, Ensures-if,
  Ensures-throw, Ensures-weaken, Ensures-assume, Ensures-fact, Ensures-gets, OnOk,
}
use session_proxy.Repo.Links.{insert_link, conflicts, stored_instant}
use session_proxy.Repo.Links
use session_proxy.Repo.Sessions.{select_session}
use session_proxy.Repo.Sessions
use session_proxy.LinkService.{
  expiry, create_link, store_link, generate_link_token, read_random, random_read, CreateLinkInput,
  Created,
}
use session_proxy.Api.Reply.{Reply, answer, link, write_json}
use session_proxy.Api.Links.{
  CreateLinkRequest, handle_create_link, ttl_of, created_reply, create_link_error,
}

-- Up to 9223372036 seconds, which is 292 years, the time to live is exact.
ttl_exact : (n : ℕ) → 1 ≤ n → n ≤ 9223372036 → ttl_of (pos n) ≡ pos (n * 1000000000)
unfolding ttl_of
ttl_exact n h k = rw (ltb_true n h) (seconds_to_duration_exact n k)
  where
    ltb_true : (n : ℕ) → 1 ≤ n → ltb_ℤ (pos 0) (pos n) ≡ true
    ltb_true n h = ground arith

expiry_exact :
    (n now : ℕ)
    → 1 ≤ n
    → n ≤ 9223372036
    → expiry (ttl_of (pos n)) now ≡ some (pos (now + n * 1000000000))
expiry_exact n now h k = rw (ttl_exact n h k) (ground arith)

abbrev ExpiresAs : Option ℤ → Result SharedLink → Type 0
ExpiresAs e (ok c) = c.expires_at ≡ e
ExpiresAs e (err b) = Unit

either :
    (e : Option ℤ) (b : Bool) (x y : Result SharedLink × Db)
    → ExpiresAs e x.0
    → ExpiresAs e y.0
    → ExpiresAs e (if b then x else y).0
either e true x y h k = h
either e false x y h k = k

insert_link-ExpiresAs :
    (l : SharedLink) (now : ℕ) (d : Db)
    → ExpiresAs (stored_instant l.expires_at) (insert_link l now d).0
unfolding insert_link
insert_link-ExpiresAs l now d =
    either (stored_instant l.expires_at) (conflicts l d) (err constraint, d) _ tt refl

create_link_error_status : (e : Error) → ((create_link_error e).status == 201) ≡ false
create_link_error_status e = ground arith

link_injective : (a b : SharedLink) → link a ≡ link b → a ≡ b
link_injective a b p = cc

module _ {R : Type 0} (t : ℕ) where
  abbrev Now : World R → Type 0
  Now w = w.now ≡ t

  create-Expires :
      (l : SharedLink)
      → Ensures Now (Links.create l) (λ c _. c.expires_at ≡ stored_instant l.expires_at)
  unfolding Links.create
  create-Expires l = Ensures-query _ _ (λ w c os p e.
      subst (ExpiresAs (stored_instant l.expires_at)) e (insert_link-ExpiresAs l w.now w.db))

  token-Now : Ensures Now (generate_link_token {R = R}) (λ _. Now)
  unfolding generate_link_token read_random
  token-Now =
      Ensures-bind _ _ (λ _. Now) _ (record { at = λ w p. go w w.random p })
        (λ raw. Ensures-pure _ _ (λ w p. p))
    where
      sized :
          (b : Bool) (bytes : Bytes) (v : World R)
          → Now v
          → Post (λ (_ : Bytes). Now) (if b then (ok bytes, v) else (err entropy, v))
      sized true bytes v p = p
      sized false bytes v p = tt

      go : (w : World R) (bs : List Bytes) → Now w → Post (λ (_ : Bytes). Now) (random_read w bs 24)
      go w [] p = tt
      go w (b ∷ bs) p = sized (length b == 24) b (record w { random = bs }) p

  store_link-Expires :
      (input : CreateLinkInput)
      → Ensures Now
          (store_link input)
          (λ c _. c.link.expires_at ≡ stored_instant (expiry input.ttl t))
  unfolding store_link
  store_link-Expires input = Ensures-bind _ _ _ _ token-Now (λ token.
      Ensures-bind _ _ (λ now w. (now ≡ t) × Now w) _
        (Ensures-weaken _ (Ensures-gets _) (λ now w p. (p.1 ∙ p.0, p.0)))
        (λ now. Ensures-assume _ (λ e. Ensures-bind _ _ _ _ (create-Expires _) (λ c.
          Ensures-bind _ _ (λ _ _. c.expires_at ≡ stored_instant (expiry input.ttl now)) _
            (Ensures-fact (λ w p. p))
            (λ a. Ensures-pure _ _ (λ w p. p ∙ ap (λ n. stored_instant (expiry input.ttl n)) e))))))

  create_link-Expires :
      (user : ℕ) (input : CreateLinkInput)
      → Ensures Now
          (create_link user input)
          (λ c _. c.link.expires_at ≡ stored_instant (expiry input.ttl t))
  unfolding create_link Sessions.get_by_id
  create_link-Expires user input =
      Ensures-bind _ _ (λ _. Now) _ (Ensures-query _ _ (λ w s os p e. p))
        (λ s.
          Ensures-if (not (s.user_id == user)) _ _ _ (λ _. Ensures-throw _)
            (λ _.
              Ensures-if (not (str_eq s.status session_status_active)) _ _ _ (λ _. Ensures-throw _)
                (λ _. store_link-Expires input)))

  -- What a reply says of its link.
  abbrev Shows : Option ℤ → Reply → World R → Type 0
  Shows e r w = (l : SharedLink) → r ≡ write_json 201 (link l) → l.expires_at ≡ e

  error-Shows : (e : Option ℤ) (b : Error) (w : World R) → Shows e (create_link_error b) w
  error-Shows e b w l q = absurd (ground (arith, create_link_error_status b, ap (λ r. r.status) q))

  created-Shows :
      (e : Option ℤ) (c : Created) (w : World R)
      → c.link.expires_at ≡ e
      → Shows e (created_reply c) w
  created-Shows e c w h = by_attached c.attached
    where
      by_attached :
          (r : Result (Unit {0}))
          → Shows e (created_reply (record { link = c.link; attached = r })) w
      by_attached (ok u) l q =
          subst (λ x. x.expires_at ≡ e) (link_injective c.link l (ap (λ r. r.body) q)) h
      by_attached (err b) l q = error-Shows e b w l q

  handle-Shows :
      (user : ℕ) (req : CreateLinkRequest)
      → Ensures Now
          (handle_create_link user (some req))
          (Shows (stored_instant (expiry (ttl_of req.ttl_seconds) t)))
  unfolding handle_create_link
  handle-Shows user req =
      Ensures-if (req.original_session_id == 0) _ _ _
        (λ _. Ensures-pure _ _ (λ w p l q. absurd (omega (arith, ap (λ r. r.status) q))))
        (λ _. Ensures-bind _ _ _ _ (Ensures-attempt _ (create_link-Expires user _)) shown)
    where
      shown :
          (r : Result Created)
          → Ensures
              (OnOk
                (λ c _. c.link.expires_at ≡ stored_instant (expiry (ttl_of req.ttl_seconds) t))
                r)
              (pure (answer create_link_error created_reply r))
              (Shows (stored_instant (expiry (ttl_of req.ttl_seconds) t)))
      shown (ok c) = Ensures-pure _ _ (λ w p. created-Shows _ c w p)
      shown (err b) = Ensures-pure _ _ (λ w p. error-Shows _ b w)

-- The link that POST /links answers with expires the asked number of seconds after the time of the
-- call, to the microsecond at or below, for every number from 1 to 9223372036.
pub handle_create_link_expiry :
    {R : Type 0} (user n : ℕ) (req : CreateLinkRequest) (l : SharedLink) (w w' : World R)
    → req.ttl_seconds ≡ pos n
    → 1 ≤ n
    → n ≤ 9223372036
    → handle_create_link user (some req) w ≡ (ok (write_json 201 (link l)), w')
    → l.expires_at ≡ some (floor_micros (pos (w.now + n * 1000000000)))
handle_create_link_expiry {R} user n req l w w' s h k e =
    subst (Post (Shows {R = R} w.now (stored_instant (expiry (ttl_of req.ttl_seconds) w.now)))) e
      ((handle-Shows w.now user req).at w refl) l refl
    ∙ ap (λ x. stored_instant (expiry (ttl_of x) w.now)) s
    ∙ ap stored_instant (expiry_exact n w.now h k)
