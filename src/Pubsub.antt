-- ===== src/Pubsub.antt =====
-- app/internal/pubsub/hub.go. A subscribed channel is its buffer with a number; a hub holds those
-- that are subscribed. A call holds the mutex from its first to its last access, so each is a step.
pub mod Delivery
mod Tests
use session_proxy.Base.{
  ℕ, suc, Bool, not, List, [], ◌∷◌, ◌++◌, Option, none, some, ltb, ◌==◌, if◌then◌else◌, length,
  where_rows,
}
use session_proxy.Base.Bytes.{Bytes}

pub data EventType : Type 0 where
  blacklist_violation link_terminated : EventType

pub record Event : Type 0 where
  pub type : EventType
  pub link_id : ℕ
  pub message : Bytes
  pub occurred_at : ℕ

pub record Subscriber : Type 0 where
  pub channel : ℕ
  pub buffer : List Event

pub record Hub : Type 0 where
  pub subs : List Subscriber
  pub next_channel : ℕ

unfoldable pub new_hub : Hub
new_hub = record { subs = []; next_channel = 0 }

-- make(chan Event, 32)
abbrev pub buffer_size : ℕ
buffer_size = 32

unfoldable pub subscribe : Hub → Hub × ℕ
subscribe h = (
  record {
    subs = h.subs ++ record { channel = h.next_channel; buffer = [] } ∷ [];
    next_channel = suc h.next_channel;
  },
  h.next_channel,
)

-- The cancel function of a channel.
unfoldable pub cancel : ℕ → Hub → Hub
cancel ch h = record h { subs = where_rows (λ s. not (s.channel == ch)) h.subs }

-- A send that does not block: a full buffer drops the event for that one subscriber.
unfoldable pub offer : Event → Subscriber → Subscriber
offer e s =
    if ltb (length s.buffer) buffer_size then record s { buffer = s.buffer ++ e ∷ [] } else s

unfoldable pub offer_all : Event → List Subscriber → List Subscriber
offer_all e [] = []
offer_all e (s ∷ ss) = offer e s ∷ offer_all e ss

unfoldable pub publish : Event → Hub → Hub
publish e h = record h { subs = offer_all e h.subs }

-- A receive on one channel.
unfoldable pub receive_from : ℕ → List Subscriber → List Subscriber × Option Event
receive_from ch [] = ([], none)
receive_from ch (s ∷ ss) =
    let (rest, e) = receive_from ch ss in
    if s.channel == ch
    then elim s.buffer [ [] ↦ (s ∷ ss, none) | x ∷ xs ↦ (record s { buffer = xs } ∷ ss, some x) ]
    else (s ∷ rest, e)

unfoldable pub receive : ℕ → Hub → Hub × Option Event
unfolding receive_from
receive ch h = let (ss, e) = receive_from ch h.subs in (record h { subs = ss }, e)
