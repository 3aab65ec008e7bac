-- ===== src/Grpc/Tests.antt =====
-- Tests and witnesses of Grpc: an event of the sample's link, and one of a link that is not there.
use session_proxy.Base.{ℕ, ◌≡◌, refl, true, some, List, [], ◌∷◌}
use session_proxy.Pubsub.{link_terminated}
use session_proxy.Store.App.{World, ok, query, settle, ◌>>=◌}
use session_proxy.Store.Redis.{MapStore}
use session_proxy.Store.Sample.{start, tables}
use session_proxy.Repo.Links.{select_owner}
use session_proxy.Repo.Links
use session_proxy.Crypto.Tests.{plain}
use session_proxy.Api.Sessions.{handle_import_session}
use session_proxy.Grpc.{
  Received, Streamed, ImportRequest, response, absent, to_proto, import_service,
  stream_link_activity, stream_loop, at_tables, wanted, forward,
}
use session_proxy.Grpc.Owned.{Forwards, MayLearn, stream_link_activity_owner_only}
use session_proxy.Grpc.Complete.{own_events, stream_link_activity_complete}
use session_proxy.Grpc.Import.{answer_of, http_request, import_service-handle_import_session}

abbrev event_of : ℕ → Received
event_of link = record {
  event = record { type = link_terminated; link_id = link; message = []; occurred_at = 7 };
  tables = tables;
  sendable = true;
}

abbrev events : List Received
events = event_of 4 ∷ event_of 9 ∷ []

stream_link_activity_complete_example :
    (stream_link_activity 1 absent events start).0
    ≡ ok (response (record { sent = own_events 1 events; complete = true }))
stream_link_activity_complete_example =
    stream_link_activity_complete 1 events start refl (refl, (refl, tt))

abbrev streamed : Streamed
streamed = record { sent = to_proto (event_of 4).event ∷ []; complete = true }

abbrev after : World MapStore
after = (stream_link_activity 1 absent events start).1

stream_sends_own : stream_link_activity 1 absent events start ≡ (ok (response streamed), after)
unfolding stream_link_activity stream_loop wanted at_tables forward query settle Links.owner_user_id
    select_owner ◌>>=◌
stream_sends_own = refl

stream_link_activity_owner_only_example : Forwards (MayLearn 1 tables) events streamed.sent
stream_link_activity_owner_only_example =
    stream_link_activity_owner_only 1 absent events streamed start after stream_sends_own

abbrev request : ImportRequest
request = record {
  base_domain = "b.example";
  site_name = "";
  base_url = 104 ∷ [];
  cookies = [];
  tokens = [];
}

import_service-handle_import_session_example : import_service 1 plain request start ≡ (
    let (r, v) = handle_import_session 1 plain (some (http_request request)) start in
    (answer_of r, v))
import_service-handle_import_session_example =
    import_service-handle_import_session 1 plain request start
