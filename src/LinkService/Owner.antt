-- ===== src/LinkService/Owner.antt =====
-- Links are made and terminated by the owner of the session only.
use session_proxy.Base.{
  ◌≢◌, ℕ, ◌≡◌, refl, sym, ap, ◌∙◌, subst, String, Bool, true, false, not, some, List, [], ◌∷◌,
  arith, ◌==◌, ==_iff, str_eq, eq_iff, first_row,
}
use session_proxy.Domain.{OriginalSession, session_status_active}
use session_proxy.Store.Db.{Db}
use session_proxy.Store.App.{
  World, ok, query, Outcome, answered, refused, unacknowledged, settle, ◌>>=◌,
}
use session_proxy.Store.Ensures.{
  Post, Ensures, Ensures-query, Ensures-bind, Ensures-if, Ensures-throw, Ensures-fact,
}
use session_proxy.Repo.Order.{one_row, one_row-found}
use session_proxy.Repo.Links.{select_owner, session_by_id}
use session_proxy.Repo.Links
use session_proxy.Repo.Sessions.{select_session}
use session_proxy.Repo.Sessions
use session_proxy.LinkService

-- The session row is the user's and active.
abbrev pub MayShare : ℕ → ℕ → Db → Type 0
MayShare user session d =
    (s : OriginalSession) × ((first_row (session_by_id session) d.original_sessions ≡ some s)
      × ((s.user_id ≡ user) × (s.status ≡ session_status_active)))

not-false : (b : Bool) → not b ≡ false → b ≡ true
not-false true h = refl
not-false false h = cc

may_share :
    (user session : ℕ) (s : OriginalSession) (d : Db)
    → first_row (session_by_id session) d.original_sessions ≡ some s
    → not (s.user_id == user) ≡ false
    → not (str_eq s.status session_status_active) ≡ false
    → MayShare user session d
may_share user session s d found same active = (
  s,
  (
    found,
    (
      ground (arith, ==_iff s.user_id user),
      (eq_iff s.status session_status_active).0 (not-false _ active),
    ),
  ),
)

module _ {R : Type 0} (d : Db) where
  session-Found :
      (session : ℕ)
      → Ensures {R = R}
          (λ w. w.db ≡ d)
          (Sessions.get_by_id session)
          (λ s w. first_row (session_by_id session) d.original_sessions ≡ some s)
  unfolding Sessions.get_by_id select_session
  session-Found session = Ensures-query _ _ (λ w s os p e.
      one_row-found _ s
        (ap (λ d. one_row (first_row (session_by_id session) d.original_sessions)) (sym p) ∙ e))

  create_link-MayShare :
      (user : ℕ) (input : LinkService.CreateLinkInput)
      → Ensures {R = R}
          (λ w. w.db ≡ d)
          (LinkService.create_link user input)
          (λ c w. MayShare user input.original_session_id d)
  unfolding LinkService.create_link
  create_link-MayShare user input =
      Ensures-bind _ _ _ _ (session-Found input.original_session_id) (λ s.
        Ensures-if (not (s.user_id == user)) _ _ _ (λ _. Ensures-throw _)
          (λ same.
            Ensures-if (not (str_eq s.status session_status_active)) _ _ _ (λ _. Ensures-throw _)
              (λ active.
                Ensures-fact
                  (λ w found. may_share user input.original_session_id s d found same active))))

-- CreateLink returns a link, whole or with some attachments missing, only to a user who owns the
-- session of the input, and only while that session is active.
pub create_link_owner_only :
    {R : Type 0} (user : ℕ) (input : LinkService.CreateLinkInput) (w w' : World R)
    (c : LinkService.Created)
    → LinkService.create_link user input w ≡ (ok c, w')
    → MayShare user input.original_session_id w.db
create_link_owner_only {R} user input w w' c e =
    subst (λ r. Post {R = R} (λ c w'. MayShare user input.original_session_id w.db) r) e
      ((create_link-MayShare w.db user input).at w refl)

-- What is not the user's is not changed.
module _ {R : Type 0} (user link o : ℕ) (notes : String) where
  foreign :
      (w : World R) (os : List Outcome)
      → w.outcomes ≡ os
      → (select_owner link w.now w.db).0 ≡ ok o
      → (o == user) ≡ false
      → ((LinkService.terminate_link user link notes w).1.db ≡ w.db)
        × ((LinkService.terminate_link user link notes w).0 ≢ ok tt)
  unfolding LinkService.terminate_link Links.owner_user_id query settle select_owner ◌>>=◌
  foreign w [] h e f = simp (h, e, f) (refl, λ k. absurd cc)
  foreign w (answered ∷ os) h e f = simp (h, e, f) (refl, λ k. absurd cc)
  foreign w (refused ∷ os) h e f = simp h (refl, λ k. absurd cc)
  foreign w (unacknowledged ∷ os) h e f = simp h (refl, λ k. absurd cc)

  -- TerminateLink by a user who is not the owner of the link's session does not succeed and
  -- changes no table, however its calls end.
  pub terminate_link_owner_only :
      (w : World R)
      → (select_owner link w.now w.db).0 ≡ ok o
      → o ≢ user
      → ((LinkService.terminate_link user link notes w).1.db ≡ w.db)
        × ((LinkService.terminate_link user link notes w).0 ≢ ok tt)
  terminate_link_owner_only w e f = foreign w w.outcomes refl e (ground (arith, ==_iff o user))
