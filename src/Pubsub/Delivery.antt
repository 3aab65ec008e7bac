-- ===== src/Pubsub/Delivery.antt =====
-- What the reader of one channel gets, over any sequence of calls on the hub.
use session_proxy.Base.{
  ℕ, suc, ◌<◌, Option, none, some, List, [], ◌∷◌, ◌++◌, ltb, ◌==◌, if◌then◌else◌, length, drop, All,
}
use session_proxy.Pubsub.{Event, Subscriber, Hub, subscribe, cancel, publish, receive}

pub data Call : Type 0 where
  subscribes : Call
  cancels receives : ℕ → Call
  publishes : Event → Call

unfoldable pub step : Hub → Call → Hub
step h subscribes = (subscribe h).0
step h (cancels ch) = cancel ch h
step h (receives ch) = (receive ch h).0
step h (publishes e) = publish e h

unfoldable pub run : Hub → List Call → Hub
unfolding step
run h [] = h
run h (c ∷ cs) = run (step h c) cs

-- The buffer of a channel, none where it is not subscribed.
abbrev buffer_in : ℕ → List Subscriber → Option (List Event)
buffer_in ch [] = none
buffer_in ch (s ∷ ss) = if s.channel == ch then some s.buffer else buffer_in ch ss

abbrev pub buffer_of : ℕ → Hub → Option (List Event)
buffer_of ch h = buffer_in ch h.subs

-- One channel by itself: a queue of at most 32 events that drops what comes when it is full, from
-- its subscription on until it is cancelled. `count` is the number of subscriptions so far.
abbrev pub queued : Event → Option (List Event) → Option (List Event)
queued e none = none
queued e (some b) = some (if ltb (length b) 32 then b ++ e ∷ [] else b)

abbrev pub taken : Option (List Event) → Option (List Event)
taken none = none
taken (some b) = some (drop 1 b)

abbrev pub queue : ℕ → ℕ → Option (List Event) → List Call → Option (List Event)
queue ch count q [] = q
queue ch count q (subscribes ∷ cs) = queue ch (suc count) (if count == ch then some [] else q) cs
queue ch count q (cancels c ∷ cs) = queue ch count (if c == ch then none else q) cs
queue ch count q (receives c ∷ cs) = queue ch count (if c == ch then taken q else q) cs
queue ch count q (publishes e ∷ cs) = queue ch count (queued e q) cs

-- Channels were given out before.
abbrev GivenOut : ℕ → List Subscriber → Type 0
GivenOut n ss = All (λ s. s.channel < n) ss
