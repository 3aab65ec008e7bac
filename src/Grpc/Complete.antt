-- ===== src/Grpc/Complete.antt =====
-- What a stream does not leave out.
use session_proxy.Base.{ℕ, ◌≡◌, refl, inl, inr, true, List, [], ◌∷◌, if◌then◌else◌, Bool-cases, All}
use session_proxy.Store.App.{World, ok, query, settle, AllAnswered, ◌>>=◌}
use session_proxy.Repo.Links.{select_owner}
use session_proxy.Repo.Links
use session_proxy.Grpc.{
  LinkActivityEvent, Received, absent, response, to_proto, owned_by, at_tables, wanted, forward,
  stream_loop, stream_link_activity,
}

-- The events of the caller's links.
abbrev pub own_events : ℕ → List Received → List LinkActivityEvent
own_events caller [] = []
own_events caller (r ∷ rs) =
    if owned_by caller (select_owner r.event.link_id 0 r.tables).0
    then to_proto r.event ∷ own_events caller rs
    else own_events caller rs

module _ {R : Type 0} (caller : ℕ) where
  loop_complete :
      (rs : List Received) (w : World R)
      → AllAnswered w
      → All (λ r. r.sendable ≡ true) rs
      → (stream_loop caller 0 rs w).0 ≡ ok (record { sent = own_events caller rs; complete = true })
  unfolding stream_loop wanted at_tables forward query settle Links.owner_user_id select_owner ◌>>=◌
  loop_complete [] w h k = refl
  loop_complete (r ∷ rs) w h k =
      elim (Bool-cases (owned_by caller (select_owner r.event.link_id 0 r.tables).0)) [
        | inl e ↦
            rw (h, e, k.0, loop_complete rs (record w { db = r.tables; outcomes = [] }) refl k.1)
              refl
        | inr e ↦
            rw (h, e, loop_complete rs (record w { db = r.tables; outcomes = [] }) refl k.1) refl
      ]

-- Where every call is answered and every Send succeeds, a stream without a link id sends every
-- received event of a link that the caller owns, and no other, in the order of their receipt.
pub stream_link_activity_complete :
    {R : Type 0} (caller : ℕ) (rs : List Received) (w : World R)
    → AllAnswered w
    → All (λ r. r.sendable ≡ true) rs
    → (stream_link_activity caller absent rs w).0
      ≡ ok (response (record { sent = own_events caller rs; complete = true }))
unfolding stream_link_activity ◌>>=◌
stream_link_activity_complete caller rs w h k = rw (loop_complete caller rs w h k) refl
