-- ===== src/Grpc.antt =====
-- app/internal/transport/grpc. The generated code and the library are not modelled: metadata comes
-- as the values of "authorization", and a stream as the events that its channel gives it.
pub mod Owned
pub mod Complete
pub mod Import
mod Tests
use session_proxy.Base.{
  ℕ, String, Bool, true, false, ◌||◌, not, List, [], ◌∷◌, str_eq, ◌==◌, if◌then◌else◌,
}
use session_proxy.Base.Bytes.{Bytes, codes, trim_prefix}
use session_proxy.Domain.{OriginalSession}
use session_proxy.Pubsub.{Event, EventType, blacklist_violation, link_terminated}
use session_proxy.Store.Db.{Db}
use session_proxy.Store.App.{App, World, Result, ok, err, Error, pure, attempt, ◌>>=◌, ◌>>◌}
use session_proxy.Repo.Links
use session_proxy.Auth.{verify_api_key}
use session_proxy.Crypto.{Aead}
use session_proxy.SessionImport.{CookieInput, TokenInput, import_session}
use session_proxy.Api.Sessions.{is_empty}

-- google.golang.org/grpc/codes, as far as they are used.
pub data Code : Type 0 where
  unauthenticated invalid_argument internal unknown : Code

-- What a call ends with.
pub data Answer {ℓ} (A : Type ℓ) : Type ℓ where
  response : A → Answer A
  failed : Code → Answer A

pub data LinkActivityEventType : Type 0 where
  activity_blacklist_violation activity_link_terminated : LinkActivityEventType

pub record LinkActivityEvent : Type 0 where
  pub type : LinkActivityEventType
  pub link_id : ℕ
  pub message : Bytes
  pub occurred_at : ℕ

abbrev pub activity_of : EventType → LinkActivityEventType
activity_of blacklist_violation = activity_blacklist_violation
activity_of link_terminated = activity_link_terminated

unfoldable pub to_proto : Event → LinkActivityEvent
to_proto e = record {
  type = activity_of e.type;
  link_id = e.link_id;
  message = e.message;
  occurred_at = e.occurred_at;
}

-- The link id of the request.
pub data LinkArgument : Type 0 where
  absent malformed : LinkArgument
  given : ℕ → LinkArgument

-- An event, the tables when the stream takes it from its channel, and whether a Send succeeds.
pub record Received : Type 0 where
  pub event : Event
  pub tables : Db
  pub sendable : Bool

-- What a stream has sent, and how it ended.
pub record Streamed : Type 0 where
  pub sent : List LinkActivityEvent
  pub complete : Bool

abbrev pub nothing_sent : Streamed
nothing_sent = record { sent = []; complete = true }

module _ {R : Type 0} (sha256_hex : Bytes → String) where
  unfoldable pub judged : {A : Type 0} → (ℕ → App R (Answer A)) → Result ℕ → App R (Answer A)
  judged handler (err e) = pure (failed unauthenticated)
  judged handler (ok user) = handler user

  -- AuthUnaryInterceptor and AuthStreamInterceptor; no values where there is no metadata
  unfoldable pub authenticate :
      {A : Type 0} → List Bytes → (ℕ → App R (Answer A)) → App R (Answer A)
  unfolding judged
  authenticate [] handler = pure (failed unauthenticated)
  authenticate (v ∷ vs) handler = do
    user ← attempt (verify_api_key sha256_hex (trim_prefix v (codes "Bearer ")))
    judged handler user

abbrev pub owned_by : ℕ → Result ℕ → Bool
owned_by caller (err e) = false
owned_by caller (ok owner) = owner == caller

module _ {R : Type 0} where
  -- The tables as others have left them
  unfoldable pub at_tables : Db → App R (Unit {0})
  at_tables d w = (ok tt, record w { db = d })

module _ {R : Type 0} (caller : ℕ) where
  -- Whether the loop sends an event; 0 is uuid.Nil.
  unfoldable pub wanted : ℕ → Event → App R Bool
  wanted link e =
      if not (link == 0)
      then pure (e.link_id == link)
      else (do owner ← attempt (Links.owner_user_id e.link_id); pure (owned_by caller owner))

  -- What a turn does with its event; a Send that fails ends the stream.
  unfoldable pub forward : Bool → Received → App R Streamed → App R Streamed
  forward false r rest = rest
  forward true r rest =
      if not r.sendable
      then pure (record { sent = []; complete = false })
      else (do streamed ← rest; pure (record streamed { sent = to_proto r.event ∷ streamed.sent }))

  -- The loop of StreamLinkActivity, until the context is done or the channel is closed.
  unfoldable pub stream_loop : ℕ → List Received → App R Streamed
  unfolding at_tables forward
  stream_loop link [] = pure nothing_sent
  stream_loop link (r ∷ rs) = do
    at_tables r.tables
    send ← wanted link r.event
    forward send r (stream_loop link rs)

  unfoldable pub stream_owned : ℕ → List Received → Result ℕ → App R (Answer Streamed)
  stream_owned link rs (err e) = pure (response nothing_sent)
  stream_owned link rs (ok owner) =
      if not (owner == caller)
      then pure (response nothing_sent)
      else (do streamed ← stream_loop link rs; pure (response streamed))

  unfoldable pub stream_link_activity : LinkArgument → List Received → App R (Answer Streamed)
  unfolding stream_owned
  stream_link_activity absent rs = do streamed ← stream_loop 0 rs; pure (response streamed)
  stream_link_activity malformed rs = pure (failed unknown)
  stream_link_activity (given link) rs = do
    owner ← attempt (Links.owner_user_id link)
    stream_owned link rs owner

-- ImportSessionRequest; its cookies and tokens have the fields of the service's inputs.
pub record ImportRequest : Type 0 where
  pub base_domain : String
  pub site_name : String
  pub base_url : Bytes
  pub cookies : List CookieInput
  pub tokens : List TokenInput

-- The ids that ImportSessionResponse has.
pub record ImportResponse : Type 0 where
  pub original_session_id : ℕ
  pub target_site_id : ℕ

abbrev pub import_answer : Result OriginalSession → Answer ImportResponse
import_answer (err e) = failed internal
import_answer (ok s) =
    response (record { original_session_id = s.id; target_site_id = s.target_site_id })

unfoldable pub import_service :
    {R : Type 0} → ℕ → Aead → ImportRequest → App R (Answer ImportResponse)
import_service user aead req =
    if str_eq req.base_domain "" || is_empty req.base_url
    then pure (failed invalid_argument)
    else (do
      session ← attempt (
          import_session aead user req.base_domain
            (if str_eq req.site_name "" then req.base_domain else req.site_name) req.base_url
            req.cookies req.tokens)
      pure (import_answer session))
