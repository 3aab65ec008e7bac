-- ===== src/Dashboard/Feed.antt =====
-- The feed of the dashboard and the stream of gRPC.
use session_proxy.Base.{ℕ, ◌≡◌, refl, inl, inr, List, [], ◌∷◌, map, arith, Bool-cases}
use session_proxy.Pubsub.{Event}
use session_proxy.Store.App.{App, World, Result, ok, err, pure, next, ◌>>=◌}
use session_proxy.Repo.Links
use session_proxy.Grpc.{
  LinkActivityEvent, Received, Streamed, to_proto, owned_by, at_tables, wanted, forward,
  stream_loop,
}
use session_proxy.Dashboard.{write_event, feed_loop}

abbrev pub sent_of : Result Streamed → Result (List LinkActivityEvent)
sent_of (ok s) = ok s.sent
sent_of (err e) = err e

abbrev pub protos_of : Result (List Event) → Result (List LinkActivityEvent)
protos_of (ok es) = ok (map to_proto es)
protos_of (err e) = err e

-- The same events, and the same state after them.
abbrev pub Agree : {R : Type 0} → Result Streamed × World R → Result (List Event) × World R → Type 0
Agree x y = (sent_of x.0 ≡ protos_of y.0) × (x.1 ≡ y.1)

module _ {R : Type 0} (caller : ℕ) where
  sent-Agree :
      (e : Event) (x : Result Streamed × World R) (y : Result (List Event) × World R)
      → Agree x y
      → Agree
          (next x.0 (λ s. pure (record s { sent = to_proto e ∷ s.sent })) x.1)
          (next y.0 (λ es. pure (e ∷ es)) y.1)
  unfolding ◌>>=◌
  sent-Agree e (ok s, v) (ok es, u) (p, q) = (grind (arith, p), q)
  sent-Agree e (ok s, v) (err b, u) (p, q) = absurd cc
  sent-Agree e (err b, v) (ok es, u) (p, q) = absurd cc
  sent-Agree e (err b, v) (err c, u) (p, q) = (p, q)

  turn-Agree :
      (owner : Result ℕ) (r : Received) (m : App R Streamed) (n : App R (List Event)) (v : World R)
      → Agree (m v) (n v)
      → Agree (forward caller (owned_by caller owner) r m v) (write_event caller owner r n v)
  unfolding forward write_event ◌>>=◌
  turn-Agree owner r m n v h = elim (Bool-cases (owned_by caller owner)) [
    | inr e ↦ rw e h
    | inl e ↦ elim (Bool-cases r.sendable) [
      | inl s ↦ rw (e, s) (sent-Agree r.event (m v) (n v) h)
      | inr s ↦ rw (e, s) (refl, refl)
    ]
  ]

-- The dashboard's feed writes the events that a gRPC stream without a link id sends to the same
-- user, of the same channel, and leaves the same state, however the calls to Postgres end and
-- whichever write fails.
pub feed_loop-stream_loop :
    {R : Type 0} (user : ℕ) (rs : List Received) (w : World R)
    → Agree (stream_loop user 0 rs w) (feed_loop user rs w)
unfolding stream_loop feed_loop wanted at_tables ◌>>=◌
feed_loop-stream_loop user [] w = (refl, refl)
feed_loop-stream_loop user (r ∷ rs) w =
    let (o, v) = Links.owner_user_id r.event.link_id (record w { db = r.tables }) in
    turn-Agree user o r (stream_loop user 0 rs) (feed_loop user rs) v
      (feed_loop-stream_loop user rs v)
