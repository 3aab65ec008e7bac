-- ===== src/Store/Keeps.antt =====
-- Invariants of actions, a rule for each way to build one. An action keeps a property whether it
-- returns or fails, and however its calls end.
use session_proxy.Base.{ℕ, Bool, true, false, List, [], ◌∷◌, if◌then◌else◌, Option, none, some}
use session_proxy.Store.Db.{Db}
use session_proxy.Store.App.{
  World, App, Result, ok, err, Error, Outcome, answered, refused, unacknowledged, Statement,
  Command, pure, throw, lift, attempt, gets, next, ◌>>=◌, query, command, settle,
}

module _ {R : Type 0} where
  pub record Keeps {A : Type 0} (P : World R → Type 0) (m : App R A) : Type 0 where
    pub at : (w : World R) → P w → P (m w).1

module _ {R A : Type 0} {P : World R → Type 0} where
  pub Keeps-pure : (a : A) → Keeps P (pure a)
  unfolding ◌>>=◌
  Keeps-pure a = record { at = λ w h. h }

  pub Keeps-throw : (e : Error) → Keeps P (throw {A = A} e)
  unfolding ◌>>=◌
  Keeps-throw e = record { at = λ w h. h }

  pub Keeps-lift : (r : Result A) → Keeps P (lift r)
  unfolding ◌>>=◌
  Keeps-lift r = record { at = λ w h. h }

  pub Keeps-gets : (f : World R → A) → Keeps P (gets f)
  unfolding ◌>>=◌
  Keeps-gets f = record { at = λ w h. h }

  pub Keeps-attempt : (m : App R A) → Keeps P m → Keeps P (attempt m)
  unfolding ◌>>=◌
  Keeps-attempt m k = record { at = λ w h. k.at w h }

  pub Keeps-if : (b : Bool) (m n : App R A) → Keeps P m → Keeps P n → Keeps P (if b then m else n)
  Keeps-if true m n k l = k
  Keeps-if false m n k l = l

module _ {R A B : Type 0} {P : World R → Type 0} where
  Keeps-next : (r : Result A) (f : A → App R B) → ((a : A) → Keeps P (f a)) → Keeps P (next r f)
  Keeps-next (ok a) f k = record { at = λ w h. (k a).at w h }
  Keeps-next (err e) f k = record { at = λ w h. h }

  pub Keeps-bind :
      (m : App R A) (f : A → App R B) → Keeps P m → ((a : A) → Keeps P (f a)) → Keeps P (m >>= f)
  unfolding ◌>>=◌
  Keeps-bind m f k l = record { at = λ w h. (Keeps-next (m w).0 f l).at (m w).1 (k.at w h) }

  -- A choice on an optional value and on a result.
  pub Keeps-option :
      (o : Option A) (m : App R B) (f : A → App R B)
      → Keeps P m
      → ((a : A) → Keeps P (f a))
      → Keeps P (elim o [ none ↦ m | some a ↦ f a ])
  Keeps-option none m f k l = k
  Keeps-option (some a) m f k l = l a

pub ruleset keeps_rules =
    (Keeps-pure, Keeps-throw, Keeps-lift, Keeps-gets, Keeps-attempt, Keeps-if, Keeps-bind)

-- Properties of the tables: a statement that keeps one, done or not, keeps it as a query, and a
-- Redis command keeps it always.
abbrev pub OfDb : {R : Type 0} → (Db → Type 0) → World R → Type 0
OfDb P w = P w.db

module _ {R A : Type 0} (P : Db → Type 0) where
  pub Keeps-query :
      (q : Statement A)
      → ((now : ℕ) (d : Db) → P d → P (q now d).1)
      → Keeps {R = R} (OfDb P) (query q)
  unfolding query
  Keeps-query q k = record { at = λ w h. go w.outcomes w h (k w.now w.db h) }
    where
      go :
          (os : List Outcome) (w : World R)
          → P w.db
          → P (q w.now w.db).1
          → P (settle os w.db (q w.now w.db)).1
      go [] w h l = l
      go (answered ∷ os) w h l = l
      go (refused ∷ os) w h l = h
      go (unacknowledged ∷ os) w h l = l

  pub Keeps-command : (c : Command R A) → Keeps {R = R} (OfDb P) (command c)
  unfolding command
  Keeps-command c = record { at = λ w h. h }
