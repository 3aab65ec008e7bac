-- ===== src/Store/Ensures.antt =====
-- Postconditions of actions: what holds of the result and of the world after an action that
-- returns; nothing is said where it fails.
use session_proxy.Base.{Bool, true, false, if◌then◌else◌, ◌≡◌, refl, List, [], ◌∷◌}
use session_proxy.Store.Db.{Db}
use session_proxy.Store.Keeps.{Keeps}
use session_proxy.Store.App.{
  World, App, Result, ok, err, Error, Outcome, answered, refused, unacknowledged, Statement,
  Command, pure, throw, gets, attempt, next, ◌>>=◌, query, command, settle,
}

module _ {R A : Type 0} where
  abbrev pub Post : (A → World R → Type 0) → Result A × World R → Type 0
  Post Q (ok a, w) = Q a w
  Post Q (err e, w) = Unit

  pub record Ensures (P : World R → Type 0) (m : App R A) (Q : A → World R → Type 0) : Type 0 where
    pub at : (w : World R) → P w → Post Q (m w)

  pub Ensures-throw :
      {P : World R → Type 0} {Q : A → World R → Type 0} (e : Error) → Ensures P (throw e) Q
  unfolding ◌>>=◌
  Ensures-throw e = record { at = λ w h. tt }

  pub Ensures-pure :
      {P : World R → Type 0} (a : A) (Q : A → World R → Type 0)
      → ((w : World R) → P w → Q a w)
      → Ensures P (pure a) Q
  unfolding ◌>>=◌
  Ensures-pure a Q h = record { at = h }

  pub Ensures-gets :
      {P : World R → Type 0} (f : World R → A) → Ensures P (gets f) (λ a w. P w × (a ≡ f w))
  unfolding ◌>>=◌
  Ensures-gets f = record { at = λ w h. (h, refl) }

  -- A query that returns has read the tables as they were, and done its statement.
  pub Ensures-query :
      {P : World R → Type 0} (q : Statement A) (Q : A → World R → Type 0)
      → ((w : World R) (a : A) (os : List Outcome)
          → P w
          → (q w.now w.db).0 ≡ ok a
          → Q a (record w { db = (q w.now w.db).1; outcomes = os }))
      → Ensures P (query q) Q
  unfolding query
  Ensures-query {P} q Q h = record {
    at = λ w p. go w w.outcomes p (q w.now w.db) (λ a os e. h w a os p e);
  }
    where
      go :
          (w : World R) (os : List Outcome)
          → P w
          → (r : Result A × Db)
          → ((a : A) (os : List Outcome) → r.0 ≡ ok a → Q a (record w { db = r.1; outcomes = os }))
          → Post Q
              (let (r', db, os') = settle os w.db r in (r', record w { db = db; outcomes = os' }))
      go w [] p (ok a, d) k = k a [] refl
      go w [] p (err e, d) k = tt
      go w (answered ∷ os) p (ok a, d) k = k a os refl
      go w (answered ∷ os) p (err e, d) k = tt
      go w (refused ∷ os) p r k = tt
      go w (unacknowledged ∷ os) p r k = tt

  pub Ensures-command :
      {P : World R → Type 0} (c : Command R A) (Q : A → World R → Type 0)
      → ((w : World R) (a : A) (os : List Outcome)
          → P w
          → (c w.redis).0 ≡ ok a
          → Q a (record w { redis = (c w.redis).1; outcomes = os }))
      → Ensures P (command c) Q
  unfolding command
  Ensures-command {P} c Q h = record {
    at = λ w p. go w w.outcomes p (c w.redis) (λ a os e. h w a os p e);
  }
    where
      go :
          (w : World R) (os : List Outcome)
          → P w
          → (r : Result A × R)
          → ((a : A) (os : List Outcome)
              → r.0 ≡ ok a
              → Q a (record w { redis = r.1; outcomes = os }))
          → Post Q (
              let (r', s, os') = settle os w.redis r in
              (r', record w { redis = s; outcomes = os' }))
      go w [] p (ok a, d) k = k a [] refl
      go w [] p (err e, d) k = tt
      go w (answered ∷ os) p (ok a, d) k = k a os refl
      go w (answered ∷ os) p (err e, d) k = tt
      go w (refused ∷ os) p r k = tt
      go w (unacknowledged ∷ os) p r k = tt

module _ {R A B : Type 0} where
  Ensures-next :
      (r : Result A × World R) (f : A → App R B) (Q : A → World R → Type 0)
      (S : B → World R → Type 0)
      → Post Q r
      → ((a : A) → Ensures (Q a) (f a) S)
      → Post S (next r.0 f r.1)
  Ensures-next (ok a, w) f Q S h k = (k a).at w h
  Ensures-next (err e, w) f Q S h k = tt

  pub Ensures-bind :
      {P : World R → Type 0} (m : App R A) (f : A → App R B) (Q : A → World R → Type 0)
      (S : B → World R → Type 0)
      → Ensures P m Q
      → ((a : A) → Ensures (Q a) (f a) S)
      → Ensures P (m >>= f) S
  unfolding ◌>>=◌
  Ensures-bind m f Q S h k = record { at = λ w p. Ensures-next (m w) f Q S (h.at w p) k }

pub Ensures-if :
    {R A : Type 0} {P : World R → Type 0} (b : Bool) (m n : App R A) (Q : A → World R → Type 0)
    → (b ≡ true → Ensures P m Q)
    → (b ≡ false → Ensures P n Q)
    → Ensures P (if b then m else n) Q
Ensures-if true m n Q h k = h refl
Ensures-if false m n Q h k = k refl

pub Ensures-weaken :
    {R A : Type 0} {P : World R → Type 0} {m : App R A} {Q : A → World R → Type 0}
    (S : A → World R → Type 0)
    → Ensures P m Q
    → ((a : A) (w : World R) → Q a w → S a w)
    → Ensures P m S
Ensures-weaken {R} {A} {P} {m} {Q} S k h = record { at = λ w p. go (m w) (k.at w p) }
  where
    go : (r : Result A × World R) → Post Q r → Post S r
    go (ok a, w) q = h a w q
    go (err e, w) q = tt

pub Ensures-nothing :
    {R A : Type 0} {P : World R → Type 0} (m : App R A) → Ensures P m (λ _ _. Unit)
Ensures-nothing {R} {A} m = record { at = λ w p. ends (m w) }
  where
    ends : (r : Result A × World R) → Post (λ _ _. Unit) r
    ends (ok a, w) = tt
    ends (err e, w) = tt

pub Ensures-assume :
    {R A : Type 0} {P : World R → Type 0} {Q : A → World R → Type 0} {m : App R A} (X : Type 0)
    → (X → Ensures P m Q)
    → Ensures (λ w. X × P w) m Q
Ensures-assume X k = record { at = λ w p. (k p.0).at w p.1 }

-- What holds of no world stays true.
pub Ensures-given :
    {R A : Type 0} {P : World R → Type 0} {Q : A → World R → Type 0} {m : App R A} (X : Type 0)
    → Ensures P m Q
    → Ensures (λ w. X × P w) m (λ a w. X × Q a w)
Ensures-given {R} {A} {P} {Q} {m} X k = record { at = λ w p. keep (m w) p.0 (k.at w p.1) }
  where
    keep : (r : Result A × World R) → X → Post Q r → Post (λ a w. X × Q a w) r
    keep (ok a, w) x q = (x, q)
    keep (err e, w) x q = tt

-- What follows from the start alone.
pub Ensures-fact :
    {R A : Type 0} {P : World R → Type 0} {m : App R A} {X : Type 0}
    → ((w : World R) → P w → X)
    → Ensures P m (λ _ _. X)
Ensures-fact {R} {A} {P} {m} {X} k = record { at = λ w p. go (m w) (k w p) }
  where
    go : (r : Result A × World R) → X → Post (λ _ _. X) r
    go (ok a, w) x = x
    go (err e, w) x = tt

-- What holds of a result that is one.
abbrev pub OnOk : {R A : Type 0} → (A → World R → Type 0) → Result A → World R → Type 0
OnOk Q (ok a) w = Q a w
OnOk Q (err e) w = Unit

pub Ensures-attempt :
    {R A : Type 0} {P : World R → Type 0} {Q : A → World R → Type 0} (m : App R A)
    → Ensures P m Q
    → Ensures P (attempt m) (OnOk Q)
unfolding ◌>>=◌
Ensures-attempt {R} {A} {P} {Q} m k = record { at = λ w p. go (m w) (k.at w p) }
  where
    go : (x : Result A × World R) → Post Q x → OnOk Q x.0 x.1
    go (ok a, w) q = q
    go (err e, w) q = tt

pub Ensures-Keeps :
    {R A : Type 0} {P : World R → Type 0} (m : App R A) → Keeps P m → Ensures P m (λ _. P)
Ensures-Keeps {R} {A} {P} m k = record { at = λ w p. go (m w) (k.at w p) }
  where
    go : (r : Result A × World R) → P r.1 → Post (λ _. P) r
    go (ok a, w) h = h
    go (err e, w) h = tt
