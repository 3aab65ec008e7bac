-- ===== src/Enforcement/Status.antt =====
-- No call of the services makes a terminated link active again.
use session_proxy.Base.{ℕ, arith, Option, Bool}
use session_proxy.Base.Bytes.{Bytes}
use session_proxy.Domain.{LinkWithSession, SecurityEvent, UsageCounters}
use session_proxy.Store.Redis.{Redis}
use session_proxy.Store.App.{Result, command}
use session_proxy.Store.Keeps.{Keeps-command}
use session_proxy.Repo.Guests.{upsert, upsert_usage}
use session_proxy.Repo.Logs.{insert_event}
use session_proxy.LinkService.Status.{
  IsTerminated, Safe, KeepsTerminated, update_link_status-Safe, insert_termination-Safe,
}
use session_proxy.Enforcement.{before_proxy, after_proxy}
use session_proxy.Enforcement.Keeps
use session_proxy.Enforcement.Keeps.{Kept}

upsert_usage-Safe : (c : UsageCounters) → Safe (upsert_usage c)
unfolding upsert_usage
upsert_usage-Safe c id now d h = ground arith

insert_event-Safe : (e : SecurityEvent) → Safe (insert_event e)
unfolding insert_event
insert_event-Safe e id now d h = ground arith

IsTerminated-Kept : (id : ℕ) → Kept (IsTerminated id)
IsTerminated-Kept id = record {
  upserted = λ c. upsert_usage-Safe c id;
  event = λ e. insert_event-Safe e id;
  status = λ link. update_link_status-Safe link id;
  termination = λ t. insert_termination-Safe t id;
}

module _ (rd : Redis) (id : ℕ) where
  pub upsert-Keeps : (c : UsageCounters) → KeepsTerminated {R = rd.Store} id (upsert c)
  upsert-Keeps c = Keeps.upsert-Keeps rd (IsTerminated id) (IsTerminated-Kept id) c

  pub command_rule :
      {A : Type 0} (c : rd.Store → Result A × rd.Store)
      → KeepsTerminated {R = rd.Store} id (command c)
  command_rule c = Keeps-command _ c

  pub before_proxy-Keeps :
      (regexp_match : Bytes → Bytes → Option Bool) (l : LinkWithSession) (session : ℕ)
      (path method : Bytes)
      → KeepsTerminated {R = rd.Store} id (before_proxy regexp_match rd l session path method)
  before_proxy-Keeps = Keeps.before_proxy-Keeps rd (IsTerminated id) (IsTerminated-Kept id)

  pub after_proxy-Keeps :
      (l : LinkWithSession) (n : ℕ) → KeepsTerminated {R = rd.Store} id (after_proxy rd l n)
  after_proxy-Keeps = Keeps.after_proxy-Keeps rd (IsTerminated id) (IsTerminated-Kept id)
