-- ===== src/Pubsub/Tests.antt =====
-- A hub at work, and the theorems of Pubsub at it.
use session_proxy.Base.{◌≡◌, refl, List, [], ◌∷◌}
use session_proxy.Base.Bytes.{codes}
use session_proxy.Pubsub.{
  Event, link_terminated, new_hub, subscribe, cancel, offer, offer_all, publish, receive,
}
use session_proxy.Pubsub.Delivery.{Call, subscribes, cancels, receives, publishes, run}

abbrev ended : Event
ended = record {
  type = link_terminated;
  link_id = 4;
  message = codes "link auto-terminated";
  occurred_at = 9;
}

abbrev calls : List Call
calls = subscribes ∷ publishes ended ∷ subscribes ∷ publishes ended ∷ receives 0 ∷ cancels 1 ∷ []

calls_leave_one :
    run new_hub calls
    ≡ record { subs = record { channel = 0; buffer = ended ∷ [] } ∷ []; next_channel = 2 }
unfolding run new_hub subscribe cancel offer offer_all publish receive
calls_leave_one = refl
