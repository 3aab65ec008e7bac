-- ===== src/Limiter.antt =====
-- app/internal/limiter: the counters of every link in Redis, and the worker that copies those of
-- dirty links to usage_counters. A pipeline is one call: it is done whole or not at all.
pub mod Flush
pub mod Rows
pub mod Drain
mod Tests
use session_proxy.Base.{ℕ, Option, none, some, List, [], ◌∷◌}
use session_proxy.Domain.{UsageCounters}
use session_proxy.Store.Redis.{
  Redis, Key, requests_key, bytes_key, violations_key, Cell, missing, number, malformed,
}
use session_proxy.Store.App.{
  App, Result, ok, err, Error, bad_counter, Command, command, pure, attempt, ◌>>=◌, ◌>>◌,
}
use session_proxy.Repo.Guests.{upsert}

pub record Counters : Type 0 where
  pub requests : ℕ
  pub bytes : ℕ
  pub violations : ℕ

-- intOrZero: a missing key reads as 0.
abbrev pub int_or_zero : Cell → Result ℕ
int_or_zero missing = ok 0
int_or_zero (number n) = ok n
int_or_zero malformed = err bad_counter

abbrev pub counters_of : Result ℕ → Result ℕ → Result ℕ → Result Counters
counters_of (ok r) (ok b) (ok v) = ok (record { requests = r; bytes = b; violations = v })
counters_of (err e) _ _ = err e
counters_of (ok r) (err e) _ = err e
counters_of (ok r) (ok b) (err e) = err e

abbrev pub incremented : Option ℕ → Result ℕ
incremented none = err bad_counter
incremented (some n) = ok n

-- What the select of Run takes.
pub data Turn : Type 0 where
  done ticked : Turn

module _ (rd : Redis) where
  unfoldable pub seed_counters : ℕ → Counters → Command rd.Store (Unit {0})
  seed_counters link c s = (
    ok tt,
    rd.set_nx (rd.set_nx (rd.set_nx s (requests_key link) c.requests) (bytes_key link) c.bytes)
        (violations_key link) c.violations,
  )

  unfoldable pub warm_load : ℕ → Counters → App rd.Store (Unit {0})
  warm_load link c = command (seed_counters link c)

  abbrev pub read_counters : ℕ → rd.Store → Result Counters
  read_counters link s =
      counters_of (int_or_zero (rd.get s (requests_key link)))
        (int_or_zero (rd.get s (bytes_key link))) (int_or_zero (rd.get s (violations_key link)))

  unfoldable pub get : ℕ → App rd.Store Counters
  get link = command (λ s. (read_counters link s, s))

  unfoldable pub bump_and_mark : ℕ → Key → ℕ → Command rd.Store ℕ
  bump_and_mark link key delta s =
      let (s', reply) = rd.incr_by s key delta in (incremented reply, rd.s_add s' link)

  unfoldable pub incr_and_mark_dirty : ℕ → Key → ℕ → App rd.Store ℕ
  incr_and_mark_dirty link key delta = command (bump_and_mark link key delta)

  unfoldable pub incr_requests : ℕ → App rd.Store ℕ
  unfolding incr_and_mark_dirty
  incr_requests link = incr_and_mark_dirty link (requests_key link) 1

  unfoldable pub incr_bytes : ℕ → ℕ → App rd.Store ℕ
  unfolding incr_and_mark_dirty
  incr_bytes link n = incr_and_mark_dirty link (bytes_key link) n

  unfoldable pub incr_violations : ℕ → App rd.Store ℕ
  unfolding incr_and_mark_dirty
  incr_violations link = incr_and_mark_dirty link (violations_key link) 1

  unfoldable pub dirty_link_ids : App rd.Store (List ℕ)
  dirty_link_ids = command (λ s. (ok (rd.s_members s), s))

  unfoldable pub clear_dirty : ℕ → App rd.Store (Unit {0})
  clear_dirty link = command (λ s. (ok tt, rd.s_rem s link))

  -- The body of the loop of flushOnce. A step that fails is logged, and the rest is left out.
  unfoldable pub clear_flushed : ℕ → Result (Unit {0}) → App rd.Store (Unit {0})
  clear_flushed link (ok _) = do attempt (clear_dirty link); pure tt
  clear_flushed link (err e) = pure tt

  unfoldable pub store_counters : ℕ → Result Counters → App rd.Store (Unit {0})
  store_counters link (ok c) = do
    stored ← attempt (
        upsert (record {
          shared_link_id = link;
          request_count = c.requests;
          bytes_transferred = c.bytes;
          violation_count = c.violations;
          updated_at = 0;
        }))
    clear_flushed link stored
  store_counters link (err e) = pure tt

  unfoldable pub flush_link : ℕ → App rd.Store (Unit {0})
  flush_link link = do counters ← attempt (get link); store_counters link counters

  unfoldable pub flush_links : List ℕ → App rd.Store (Unit {0})
  flush_links [] = pure tt
  flush_links (l ∷ ls) = do flush_link l; flush_links ls

  unfoldable pub flush_listed : Result (List ℕ) → App rd.Store (Unit {0})
  flush_listed (ok ls) = flush_links ls
  flush_listed (err e) = pure tt

  unfoldable pub flush_once : App rd.Store (Unit {0})
  unfolding flush_listed
  flush_once = do ls ← attempt dirty_link_ids; flush_listed ls

  -- The loop of Run, one element of the list for each turn of its select. A turn that takes the
  -- cancelled context ends it, and after the last turn of the list it waits.
  unfoldable pub run : List Turn → App rd.Store (Unit {0})
  run [] = pure tt
  run (done ∷ ts) = pure tt
  run (ticked ∷ ts) = do flush_once; run ts
