-- ===== src/Grpc/Owned.antt =====
-- What a stream tells its caller of.
use session_proxy.Base.{
  ℕ, ◌≡◌, refl, sym, ap, ◌∙◌, subst, ◌≢◌, ◌⊎◌, inl, inr, Bool, true, false, not, List, [], ◌∷◌,
  arith, ◌==◌, ==_iff,
}
use session_proxy.Store.Db.{Db}
use session_proxy.Store.App.{App, World, Result, ok, err}
use session_proxy.Store.Ensures.{
  Post, Ensures, Ensures-pure, Ensures-bind, Ensures-query, Ensures-attempt, Ensures-if,
  Ensures-weaken, OnOk,
}
use session_proxy.Repo.Links.{select_owner}
use session_proxy.Repo.Links
use session_proxy.Grpc.{
  LinkActivityEvent, Received, Streamed, LinkArgument, absent, malformed, given, Answer, response,
  failed, to_proto, owned_by, at_tables, wanted, forward, stream_loop, stream_owned,
  stream_link_activity,
}

-- The link is of a session of the user.
abbrev pub IsOwnedBy : ℕ → ℕ → Db → Type 0
IsOwnedBy user link d = (select_owner link 0 d).0 ≡ ok user

-- The events that are sent are received ones, in their order, each of which has a property.
pub data Forwards (P : Received → Type 0) : List Received → List LinkActivityEvent → Type 0 where
  stops : (rs : List Received) → Forwards P rs []
  skips :
      (r : Received) (rs : List Received) (es : List LinkActivityEvent)
      → Forwards P rs es
      → Forwards P (r ∷ rs) es
  sends :
      (r : Received) (rs : List Received) (es : List LinkActivityEvent)
      → P r
      → Forwards P rs es
      → Forwards P (r ∷ rs) (to_proto r.event ∷ es)

-- The caller owns the link when the stream begins, or when it takes the event.
abbrev pub MayLearn : ℕ → Db → Received → Type 0
MayLearn caller start r =
    IsOwnedBy caller r.event.link_id start ⊎ IsOwnedBy caller r.event.link_id r.tables

module _ {R : Type 0} (caller : ℕ) where
  owner-Found :
      (link : ℕ) (d : Db)
      → Ensures {R = R} (λ w. w.db ≡ d) (Links.owner_user_id link) (λ o _. IsOwnedBy o link d)
  unfolding Links.owner_user_id select_owner
  owner-Found link d =
      Ensures-query _ _ (λ w o os p e. ap (λ d. (select_owner link 0 d).0) (sym p) ∙ e)

  owned-Found :
      (link : ℕ) (d : Db) (r : Result ℕ) (w : World R)
      → OnOk (λ o _. IsOwnedBy o link d) r w
      → owned_by caller r ≡ true
      → IsOwnedBy caller link d
  owned-Found link d (ok o) w h e = h ∙ ap ok ((==_iff o caller).0 e)
  owned-Found link d (err x) w h e = absurd cc

  wanted-MayLearn :
      (start : Db) (link : ℕ) (r : Received)
      → (link ≢ 0 → IsOwnedBy caller link start)
      → Ensures {R = R}
          (λ w. w.db ≡ r.tables)
          (wanted caller link r.event)
          (λ b _. b ≡ true → MayLearn caller start r)
  unfolding wanted
  wanted-MayLearn start link r h =
      Ensures-if (not (link == 0)) _ _ _
        (λ e. Ensures-pure _ _ (λ w p t. inl (
          subst (λ l. IsOwnedBy caller l start) (sym ((==_iff r.event.link_id link).0 t))
            (h (ground (arith, e))))))
        (λ e.
          Ensures-bind _ _ _ _ (Ensures-attempt _ (owner-Found r.event.link_id r.tables))
            (λ o. Ensures-pure _ _ (λ w p t. inr (owned-Found r.event.link_id r.tables o w p t))))

  forward-Forwards :
      (P : Received → Type 0) (b : Bool) (r : Received) (rs : List Received) (rest : App R Streamed)
      → (b ≡ true → P r)
      → Ensures (λ _. Unit {0}) rest (λ s _. Forwards P rs s.sent)
      → Ensures (λ _. Unit {0}) (forward caller b r rest) (λ s _. Forwards P (r ∷ rs) s.sent)
  unfolding forward
  forward-Forwards P false r rs rest h k = Ensures-weaken _ k (λ s w f. skips r rs s.sent f)
  forward-Forwards P true r rs rest h k =
      Ensures-if (not r.sendable) _ _ _ (λ e. Ensures-pure _ _ (λ w p. stops (r ∷ rs)))
        (λ e. Ensures-bind _ _ _ _ k (λ s. Ensures-pure _ _ (λ w f. sends r rs s.sent (h refl) f)))

  stream_loop-Forwards :
      (start : Db) (link : ℕ) (rs : List Received)
      → (link ≢ 0 → IsOwnedBy caller link start)
      → Ensures {R = R}
          (λ _. Unit {0})
          (stream_loop caller link rs)
          (λ s _. Forwards (MayLearn caller start) rs s.sent)
  unfolding stream_loop at_tables
  stream_loop-Forwards start link [] h = Ensures-pure _ _ (λ w p. stops [])
  stream_loop-Forwards start link (r ∷ rs) h =
      Ensures-bind _ _ (λ _ w. w.db ≡ r.tables) _ at-Tables
        (λ _. Ensures-bind _ _ _ _ (wanted-MayLearn start link r h) (λ b. record {
          at = λ w p.
              (forward-Forwards (MayLearn caller start) b r rs (stream_loop caller link rs) p
                  (stream_loop-Forwards start link rs h)).at
                w tt;
        }))
    where
      at-Tables : Ensures {R = R} (λ _. Unit {0}) (at_tables r.tables) (λ _ w. w.db ≡ r.tables)
      at-Tables = record { at = λ w p. refl }

  abbrev Told : Db → List Received → Answer Streamed → World R → Type 0
  Told start rs (response s) w = Forwards (MayLearn caller start) rs s.sent
  Told start rs (failed c) w = Unit

  stream_owned-Told :
      (start : Db) (link : ℕ) (rs : List Received) (r : Result ℕ)
      → Ensures {R = R}
          (λ w. OnOk (λ o _. IsOwnedBy o link start) r w)
          (stream_owned caller link rs r)
          (Told start rs)
  unfolding stream_owned
  stream_owned-Told start link rs (err e) = Ensures-pure _ _ (λ w p. stops rs)
  stream_owned-Told start link rs (ok o) =
      Ensures-if (not (o == caller)) _ _ _ (λ e. Ensures-pure _ _ (λ w p. stops rs))
        (λ e. record {
          at = λ w p.
              (Ensures-bind {P = λ _. Unit {0}} _ _ _ _
                  (stream_loop-Forwards start link rs (λ _. p ∙ ap ok (same o e)))
                  (λ s. Ensures-pure _ (Told start rs) (λ w f. f))).at
                w tt;
        })
    where
      same : (o : ℕ) → not (o == caller) ≡ false → o ≡ caller
      same o e = ground (arith, ==_iff o caller)

  stream-Told :
      (start : Db) (link : LinkArgument) (rs : List Received)
      → Ensures {R = R} (λ w. w.db ≡ start) (stream_link_activity caller link rs) (Told start rs)
  unfolding stream_link_activity
  stream-Told start absent rs = record {
    at = λ w p.
        (Ensures-bind {P = λ _. Unit {0}} _ _ _ _
            (stream_loop-Forwards start 0 rs (λ n. absurd (n refl)))
            (λ s. Ensures-pure _ (Told start rs) (λ w f. f))).at
          w tt;
  }
  stream-Told start malformed rs = Ensures-pure _ _ (λ w p. tt)
  stream-Told start (given link) rs =
      Ensures-bind _ _ _ _ (Ensures-attempt _ (owner-Found link start))
        (stream_owned-Told start link rs)

-- A stream of link activity sends only events that its channel gave it, in their order, and each of
-- a link that the caller owns, in the tables when the stream began or in those when it took the
-- event. This holds whatever others write meanwhile and however the calls to Postgres end.
pub stream_link_activity_owner_only :
    {R : Type 0} (caller : ℕ) (link : LinkArgument) (rs : List Received) (s : Streamed)
    (w w' : World R)
    → stream_link_activity caller link rs w ≡ (ok (response s), w')
    → Forwards (MayLearn caller w.db) rs s.sent
stream_link_activity_owner_only {R} caller link rs s w w' e =
    subst (Post (Told {R = R} caller w.db rs)) e ((stream-Told caller w.db link rs).at w refl)
