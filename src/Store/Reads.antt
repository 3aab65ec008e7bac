-- ===== src/Store/Reads.antt =====
-- Actions that only read: the tables and Redis are after them as before, however they end.
use session_proxy.Base.{ℕ, ◌≡◌, refl, ◌∙◌, Bool, true, false, List, [], ◌∷◌, if◌then◌else◌}
use session_proxy.Store.Db.{Db}
use session_proxy.Store.App.{
  World, App, Result, ok, err, Error, Outcome, answered, refused, unacknowledged, Statement, pure,
  throw, lift, attempt, gets, next, ◌>>=◌, query, settle,
}

abbrev pub Same : {R : Type 0} → World R → World R → Type 0
Same w v = (v.db ≡ w.db) × (v.redis ≡ w.redis)

pub Same-trans : {R : Type 0} (u v w : World R) → Same u v → Same v w → Same u w
Same-trans u v w h k = (k.0 ∙ h.0, k.1 ∙ h.1)

pub record Reads {R A : Type 0} (m : App R A) : Type 0 where
  pub same : (w : World R) → Same w (m w).1

module _ {R A : Type 0} where
  pub Reads-pure : (a : A) → Reads {R = R} (pure a)
  unfolding ◌>>=◌
  Reads-pure a = record { same = λ w. (refl, refl) }

  pub Reads-throw : (e : Error) → Reads {R = R} {A = A} (throw e)
  unfolding ◌>>=◌
  Reads-throw e = record { same = λ w. (refl, refl) }

  pub Reads-lift : (r : Result A) → Reads {R = R} (lift r)
  unfolding ◌>>=◌
  Reads-lift r = record { same = λ w. (refl, refl) }

  pub Reads-gets : (f : World R → A) → Reads (gets f)
  unfolding ◌>>=◌
  Reads-gets f = record { same = λ w. (refl, refl) }

  pub Reads-attempt : (m : App R A) → Reads m → Reads (attempt m)
  unfolding ◌>>=◌
  Reads-attempt m k = record { same = k.same }

  pub Reads-if : (b : Bool) (m n : App R A) → Reads m → Reads n → Reads (if b then m else n)
  Reads-if true m n h k = h
  Reads-if false m n h k = k

  -- A SELECT, however its call ends.
  pub Reads-query :
      (q : Statement A) → ((now : ℕ) (d : Db) → (q now d).1 ≡ d) → Reads {R = R} (query q)
  unfolding query
  Reads-query q k = record { same = λ w. (go w.outcomes w.now w.db (k w.now w.db), refl) }
    where
      go : (os : List Outcome) (now : ℕ) (d : Db) → (q now d).1 ≡ d → (settle os d (q now d)).1 ≡ d
      go [] now d e = e
      go (answered ∷ os) now d e = e
      go (refused ∷ os) now d e = refl
      go (unacknowledged ∷ os) now d e = e

module _ {R A B : Type 0} where
  Reads-next :
      (r : Result A) (f : A → App R B) (w : World R)
      → ((a : A) → Reads (f a))
      → Same w (next r f w).1
  Reads-next (ok a) f w k = (k a).same w
  Reads-next (err e) f w k = (refl, refl)

  pub Reads-bind :
      (m : App R A) (f : A → App R B) → Reads m → ((a : A) → Reads (f a)) → Reads (m >>= f)
  unfolding ◌>>=◌
  Reads-bind m f h k = record {
    same = λ w.
        Same-trans w (m w).1 (next (m w).0 f (m w).1).1 (h.same w) (Reads-next (m w).0 f (m w).1 k);
  }
