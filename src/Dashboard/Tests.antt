-- ===== src/Dashboard/Tests.antt =====
-- Tests and witnesses of Dashboard: an event of the sample's link, which is owned, and one that is
-- not.
use session_proxy.Base.{ℕ, ◌≡◌, refl, true, [], ◌∷◌}
use session_proxy.Pubsub.{link_terminated}
use session_proxy.Store.App.{ok, query, settle, ◌>>=◌}
use session_proxy.Store.Sample.{start, tables}
use session_proxy.Repo.Links.{select_owner}
use session_proxy.Repo.Links
use session_proxy.Grpc.{Received, stream_loop, at_tables}
use session_proxy.Dashboard.{feed_loop, write_event}
use session_proxy.Dashboard.Feed.{Agree, feed_loop-stream_loop}

abbrev event_of : ℕ → Received
event_of link = record {
  event = record { type = link_terminated; link_id = link; message = []; occurred_at = 7 };
  tables = tables;
  sendable = true;
}

feed_writes_own :
    (feed_loop 1 (event_of 9 ∷ event_of 4 ∷ []) start).0 ≡ ok ((event_of 4).event ∷ [])
unfolding feed_loop write_event at_tables query settle Links.owner_user_id select_owner ◌>>=◌
feed_writes_own = refl

feed_loop-stream_loop_example :
    Agree
      (stream_loop 1 0 (event_of 9 ∷ event_of 4 ∷ []) start)
      (feed_loop 1 (event_of 9 ∷ event_of 4 ∷ []) start)
feed_loop-stream_loop_example = feed_loop-stream_loop 1 (event_of 9 ∷ event_of 4 ∷ []) start
