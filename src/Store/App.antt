-- ===== src/Store/App.antt =====
-- Actions: state passing with errors.
use session_proxy.Base.{ℕ, List, [], ◌∷◌, ◌≡◌, Option}
use session_proxy.Base.Bytes.{Bytes}
use session_proxy.Pubsub.{Hub}
use session_proxy.Store.Db.{Db}

-- `no_rows` is pgx.ErrNoRows, `constraint` a violated key of the schema, `unavailable` any failure
-- to reach Postgres or Redis or to hear from it.
pub data Error : Type 0 where
  no_rows constraint unavailable bad_counter entropy bad_ciphertext bad_url : Error
  session_not_owned session_not_active link_not_owned link_already_terminated : Error
  email_taken invalid_credentials api_key_revoked invalid_token : Error

pub data Result {ℓ} (A : Type ℓ) : Type ℓ where
  ok : A → Result A
  err : Error → Result A

-- How a call to Postgres or Redis ends: answered, failed with nothing done, or done with the
-- answer lost.
pub data Outcome : Type 0 where
  answered refused unacknowledged : Outcome

pub record World (R : Type 0) : Type 0 where
  pub db : Db
  pub redis : R
  pub hub : Option Hub
  -- time.Now(), which stands still during one action
  pub now : ℕ
  -- what crypto/rand gives to the coming reads
  pub random : List Bytes
  -- the coming calls; past its end every call is answered
  pub outcomes : List Outcome

abbrev pub App : Type 0 → Type 0 → Type 0
App R A = World R → Result A × World R

module _ {R A : Type 0} where
  pub pure : A → App R A
  pure a w = (ok a, w)

  pub throw : Error → App R A
  throw e w = (err e, w)

  pub lift : Result A → App R A
  lift r w = (r, w)

  -- `x, err := m()` where the code goes on after an error
  pub attempt : App R A → App R (Result A)
  attempt m w = let (r, w') = m w in (ok r, w')

  pub gets : (World R → A) → App R A
  gets f w = (ok (f w), w)

module _ {R A B : Type 0} where
  -- The rest of an action, after a result.
  abbrev pub next : Result A → (A → App R B) → App R B
  next (ok a) f w = f a w
  next (err e) f w = (err e, w)

  infixl 5 ◌>>=◌ ◌>>◌
  -- Opening this opens the actions above.
  unfoldable pub ◌>>=◌ : App R A → (A → App R B) → App R B
  unfolding pure throw lift attempt gets
  ◌>>=◌ m f w = let (r, w') = m w in next r f w'

  abbrev pub ◌>>◌ : App R A → App R B → App R B
  m >> n = m >>= λ _. n

-- Every call is answered from here on.
abbrev pub AllAnswered : {R : Type 0} → World R → Type 0
AllAnswered w = w.outcomes ≡ []

-- One SQL statement: at an instant, on the tables, to a result and the tables after it.
abbrev pub Statement : Type 0 → Type 0
Statement A = ℕ → Db → Result A × Db

-- One Redis command or pipeline.
abbrev pub Command : Type 0 → Type 0 → Type 0
Command R A = R → Result A × R

module _ {S A : Type 0} where
  -- What the caller sees and what is done, for each way a call ends.
  unfoldable pub settle : List Outcome → S → Result A × S → Result A × S × List Outcome
  settle [] s (r, s') = (r, s', [])
  settle (answered ∷ os) s (r, s') = (r, s', os)
  settle (refused ∷ os) s (r, s') = (err unavailable, s, os)
  settle (unacknowledged ∷ os) s (r, s') = (err unavailable, s', os)

module _ {R A : Type 0} where
  unfoldable pub query : Statement A → App R A
  unfolding settle
  query q w =
      let (r, db, os) = settle w.outcomes w.db (q w.now w.db) in
      (r, record w { db = db; outcomes = os })

  unfoldable pub command : Command R A → App R A
  unfolding settle
  command c w =
      let (r, s, os) = settle w.outcomes w.redis (c w.redis) in
      (r, record w { redis = s; outcomes = os })

  pub query_answered :
      (q : Statement A) (w : World R)
      → AllAnswered w
      → query q w ≡ ((q w.now w.db).0, record w { db = (q w.now w.db).1 })
  unfolding query
  query_answered q w h = simp h

  pub command_answered :
      (c : Command R A) (w : World R)
      → AllAnswered w
      → command c w ≡ ((c w.redis).0, record w { redis = (c w.redis).1 })
  unfolding command
  command_answered c w h = simp h
