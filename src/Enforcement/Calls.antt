-- ===== src/Enforcement/Calls.antt =====
-- Any sequence of service calls, and the terminated links after it.
use session_proxy.Base.{ℕ, String, Bool, Option, List, [], ◌∷◌}
use session_proxy.Base.Bytes.{Bytes}
use session_proxy.Domain.{LinkWithSession}
use session_proxy.Store.Redis.{Redis}
use session_proxy.Store.App.{App, World, Result, ok, err, pure, ◌>>◌}
use session_proxy.Store.Keeps.{Keeps-bind, keeps_rules}
use session_proxy.Limiter.{Counters}
use session_proxy.Limiter
use session_proxy.LinkService
use session_proxy.LinkService.Status.{
  IsTerminated, KeepsTerminated, auto_terminate-Keeps, terminate_link-Keeps, create_link-Keeps,
}
use session_proxy.Enforcement.{after_proxy, before_proxy}
use session_proxy.Enforcement.Status.{
  upsert-Keeps, before_proxy-Keeps, after_proxy-Keeps, command_rule,
}

-- A call of LinkService, of EnforcementService, or of the sync worker.
pub data Call : Type 0 where
  creates : ℕ → LinkService.CreateLinkInput → Call
  terminates : ℕ → ℕ → String → Call
  auto_terminates : ℕ → String → Call
  checks : LinkWithSession → ℕ → Bytes → Bytes → Call
  counts : LinkWithSession → ℕ → Call
  flushes : Call

module _ (regexp_match : Bytes → Bytes → Option Bool) (rd : Redis) where
  unfoldable pub perform : Call → App rd.Store (Unit {0})
  perform (creates user input) = do LinkService.create_link user input; pure tt
  perform (terminates user link notes) = LinkService.terminate_link user link notes
  perform (auto_terminates link reason) = LinkService.auto_terminate link reason
  perform (checks l session path method) = do
    before_proxy regexp_match rd l session path method
    pure tt
  perform (counts l n) = after_proxy rd l n
  perform flushes = Limiter.flush_once rd

  -- One call after the other, whether they return or fail.
  unfoldable pub run : World rd.Store → List Call → World rd.Store
  run w [] = w
  run w (c ∷ cs) = run (perform c w).1 cs

module _ (rd : Redis) (id : ℕ) where
  clear_flushed-Keeps :
      (link : ℕ) (r : Result (Unit {0}))
      → KeepsTerminated {R = rd.Store} id (Limiter.clear_flushed rd link r)
  unfolding Limiter.clear_flushed Limiter.clear_dirty
  clear_flushed-Keeps link (ok u) = search (keeps_rules, command_rule rd id)
  clear_flushed-Keeps link (err e) = search keeps_rules

  store_counters-Keeps :
      (link : ℕ) (r : Result Counters)
      → KeepsTerminated {R = rd.Store} id (Limiter.store_counters rd link r)
  unfolding Limiter.store_counters
  store_counters-Keeps link (ok c) = search (keeps_rules, upsert-Keeps rd id, clear_flushed-Keeps)
  store_counters-Keeps link (err e) = search keeps_rules

  flush_link-Keeps : (link : ℕ) → KeepsTerminated {R = rd.Store} id (Limiter.flush_link rd link)
  unfolding Limiter.flush_link Limiter.get
  flush_link-Keeps link = search (keeps_rules, command_rule rd id, store_counters-Keeps)

  flush_links-Keeps : (ls : List ℕ) → KeepsTerminated {R = rd.Store} id (Limiter.flush_links rd ls)
  unfolding Limiter.flush_links
  flush_links-Keeps [] = search keeps_rules
  flush_links-Keeps (l ∷ ls) = Keeps-bind _ _ (flush_link-Keeps l) (λ _. flush_links-Keeps ls)

  flush_listed-Keeps :
      (r : Result (List ℕ)) → KeepsTerminated {R = rd.Store} id (Limiter.flush_listed rd r)
  unfolding Limiter.flush_listed
  flush_listed-Keeps (ok ls) = flush_links-Keeps ls
  flush_listed-Keeps (err e) = search keeps_rules

  flush_once-Keeps : KeepsTerminated {R = rd.Store} id (Limiter.flush_once rd)
  unfolding Limiter.flush_once Limiter.dirty_link_ids
  flush_once-Keeps = search (keeps_rules, command_rule rd id, flush_listed-Keeps)

  perform-Keeps :
      (regexp_match : Bytes → Bytes → Option Bool) (c : Call)
      → KeepsTerminated {R = rd.Store} id (perform regexp_match rd c)
  unfolding perform
  perform-Keeps regexp_match (creates user input) = search (keeps_rules, create_link-Keeps)
  perform-Keeps regexp_match (terminates user link notes) = terminate_link-Keeps id user link notes
  perform-Keeps regexp_match (auto_terminates link reason) = auto_terminate-Keeps id link reason
  perform-Keeps regexp_match (checks l session path method) =
      search (keeps_rules, before_proxy-Keeps)
  perform-Keeps regexp_match (counts l n) = after_proxy-Keeps rd id l n
  perform-Keeps regexp_match flushes = flush_once-Keeps

-- A link all of whose rows are terminated stays so through every sequence of link creations,
-- terminations, request checks, request counts and counter flushes, with any arguments, whether
-- the calls return or fail and however their statements and commands end.
pub IsTerminated-forever :
    (regexp_match : Bytes → Bytes → Option Bool) (rd : Redis) (id : ℕ) (cs : List Call)
    (w : World rd.Store)
    → IsTerminated id w.db
    → IsTerminated id (run regexp_match rd w cs).db
unfolding run
IsTerminated-forever regexp_match rd id [] w h = h
IsTerminated-forever regexp_match rd id (c ∷ cs) w h =
    IsTerminated-forever regexp_match rd id cs _ ((perform-Keeps rd id regexp_match c).at w h)
