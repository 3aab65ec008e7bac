-- ===== src/AccessLog/Conservation.antt =====
-- No entry that Log accepts is duplicated or reordered, and where it can end up.
use session_proxy.Base.{
  ℕ, ◌*◌, ◌≤◌, ◌<◌, ◌≡◌, refl, ap, ◌∙◌, Bool, true, false, List, [], ◌∷◌, ◌++◌, arith, ltb, leb,
  if◌then◌else◌, length, length-append, append-nil, append_assoc, Bool-cases, ◌⊎◌, inl, inr,
}
use session_proxy.Domain.{ProxyAccessLog}
use session_proxy.AccessLog.{
  AsyncAccessLogger, new_async_access_logger, log, flush, Turn, done, ticked, received,
  append_entry, take_entry, turn_body, turn,
}

-- Requests log entries while the goroutine takes its turns.
pub data Move : Type 0 where
  logs : ProxyAccessLog → Move
  turns : Turn → Move

unfoldable pub step : AsyncAccessLogger → Move → AsyncAccessLogger
step a (logs e) = (log e a).0
step a (turns t) = turn t a

-- The entries that Log accepted, oldest first.
unfoldable pub accepted_by : AsyncAccessLogger → Move → List ProxyAccessLog
accepted_by a (logs e) = if (log e a).1 then e ∷ [] else []
accepted_by a (turns t) = []

unfoldable pub run : AsyncAccessLogger → List Move → AsyncAccessLogger
unfolding step
run a [] = a
run a (m ∷ ms) = run (step a m) ms

unfoldable pub accepted : AsyncAccessLogger → List Move → List ProxyAccessLog
unfolding accepted_by step
accepted a [] = []
accepted a (m ∷ ms) = accepted_by a m ++ accepted (step a m) ms

pub record IsValid (a : AsyncAccessLogger) : Type 0 where
  pub sized : 1 ≤ a.batch_size
  pub room : length a.entries ≤ a.batch_size * 20
  pub partial : length a.batch < a.batch_size

flush-IsValid :
    (ok : Bool) (a : AsyncAccessLogger)
    → 1 ≤ a.batch_size
    → length a.entries ≤ a.batch_size * 20
    → IsValid (flush ok a)
unfolding flush
flush-IsValid true a h k = omega arith
flush-IsValid false a h k = omega arith

pub turn_running : (t : Turn) (a : AsyncAccessLogger) → a.running ≡ true → turn t a ≡ turn_body t a
unfolding turn
turn_running t a h = simp h

turn_stopped : (t : Turn) (a : AsyncAccessLogger) → a.running ≡ false → turn t a ≡ a
unfolding turn
turn_stopped t a h = simp h

-- Log with room in the channel, and without.
log_cases :
    (e : ProxyAccessLog) (a : AsyncAccessLogger)
    → (log e a ≡ (record a { entries = a.entries ++ e ∷ [] }, true)) ⊎ (log e a ≡ (a, false))
unfolding log
log_cases e a = elim (Bool-cases (ltb (length a.entries) (a.batch_size * 20))) [
  | inl room ↦ inl (simp room)
  | inr full ↦ inr (simp full)
]

append_entry-IsValid :
    (x : ProxyAccessLog) (es : List ProxyAccessLog) (ok : Bool) (a : AsyncAccessLogger)
    → a.entries ≡ x ∷ es
    → IsValid a
    → IsValid (take_entry ok (x ∷ es) a)
unfolding take_entry append_entry flush
append_entry-IsValid x es true a e v = ground (arith, length-append a.batch (x ∷ []), ap length e)
append_entry-IsValid x es false a e v = ground (arith, length-append a.batch (x ∷ []), ap length e)

take_entry-IsValid :
    (ok : Bool) (es : List ProxyAccessLog) (a : AsyncAccessLogger)
    → a.entries ≡ es
    → IsValid a
    → IsValid (take_entry ok es a)
take_entry-IsValid ok [] a e v = unfold take_entry in v
take_entry-IsValid ok (x ∷ es) a e v = append_entry-IsValid x es ok a e v

turn_body-IsValid : (t : Turn) (a : AsyncAccessLogger) → IsValid a → IsValid (turn_body t a)
unfolding turn_body
turn_body-IsValid (done ok) a v =
    let w = flush-IsValid ok a v.sized v.room in
    record { sized = w.sized; room = w.room; partial = w.partial }
turn_body-IsValid (ticked ok) a v = flush-IsValid ok a v.sized v.room
turn_body-IsValid (received ok) a v = take_entry-IsValid ok a.entries a refl v

step-IsValid : (a : AsyncAccessLogger) (m : Move) → IsValid a → IsValid (step a m)
unfolding step log
step-IsValid a (logs e) v = ground (arith, length-append a.entries (e ∷ []))
step-IsValid a (turns t) v = elim (Bool-cases a.running) [
  | inl e ↦ rw (turn_running t a e) (turn_body-IsValid t a v)
  | inr e ↦ rw (turn_stopped t a e) v
]

run-IsValid : (a : AsyncAccessLogger) (ms : List Move) → IsValid a → IsValid (run a ms)
unfolding run
run-IsValid a [] v = v
run-IsValid a (m ∷ ms) v = run-IsValid (step a m) ms (step-IsValid a m v)

-- Whatever the batch size asked for and the order of the moves, the channel never holds more than
-- twenty batches and the batch in memory is short of its size between two turns.
pub logger_bounded : (n : ℕ) (ms : List Move) → IsValid (run (new_async_access_logger n) ms)
unfolding new_async_access_logger
logger_bounded n ms = run-IsValid _ ms (ground arith)

-- Every insert of the move succeeds.
abbrev pub Succeeds : Move → Type 0
Succeeds (logs e) = Unit {0}
Succeeds (turns (done ok)) = ok ≡ true
Succeeds (turns (ticked ok)) = ok ≡ true
Succeeds (turns (received ok)) = ok ≡ true

abbrev pub AllSucceed : List Move → Type 0
AllSucceed [] = Unit {0}
AllSucceed (m ∷ ms) = Succeeds m × AllSucceed ms

-- The entries that a logger has taken on and not lost, oldest first.
abbrev pub held : AsyncAccessLogger → List ProxyAccessLog
held a = a.stored ++ (a.batch ++ a.entries)

take_entry-held :
    (es : List ProxyAccessLog) (a : AsyncAccessLogger)
    → a.entries ≡ es
    → held (take_entry true es a) ≡ held a
unfolding take_entry append_entry flush
take_entry-held [] a e = refl
take_entry-held (x ∷ es) a e = elim (Bool-cases (leb a.batch_size (length (a.batch ++ x ∷ [])))) [
  | inl full ↦ rw (full, e) (simp append_assoc)
  | inr more ↦ rw (more, e) (simp append_assoc)
]

turn_body-held :
    (t : Turn) (a : AsyncAccessLogger) → Succeeds (turns t) → held (turn_body t a) ≡ held a
unfolding turn_body flush
turn_body-held (done ok) a h = rw h (simp append_assoc)
turn_body-held (ticked ok) a h = rw h (simp append_assoc)
turn_body-held (received ok) a h = rw h (take_entry-held a.entries a refl)

log-held :
    (e : ProxyAccessLog) (a : AsyncAccessLogger)
    → held (log e a).0 ≡ held a ++ (if (log e a).1 then e ∷ [] else [])
log-held e a = elim (log_cases e a) [
  | inl room ↦ rw room (simp append_assoc)
  | inr full ↦ rw full (simp append-nil)
]

step-held :
    (a : AsyncAccessLogger) (m : Move) → Succeeds m → held (step a m) ≡ held a ++ accepted_by a m
unfolding step accepted_by
step-held a (logs e) h = log-held e a
step-held a (turns t) h = elim (Bool-cases a.running) [
  | inl e ↦ rw (turn_running t a e, append-nil) (turn_body-held t a h)
  | inr e ↦ rw (turn_stopped t a e) (simp append-nil)
]

pub run-held :
    (a : AsyncAccessLogger) (ms : List Move)
    → AllSucceed ms
    → held (run a ms) ≡ held a ++ accepted a ms
unfolding run accepted
run-held a [] h = simp append-nil
run-held a (m ∷ ms) h = run-held (step a m) ms h.1 ∙ rw (step-held a m h.0) (simp append_assoc)

-- Where every insert succeeds, the stored rows, the batch and the channel hold, in this order,
-- exactly the entries that Log accepted, each once and in the order of the requests.
pub nothing_lost :
    (n : ℕ) (ms : List Move)
    → AllSucceed ms
    → held (run (new_async_access_logger n) ms) ≡ accepted (new_async_access_logger n) ms
nothing_lost n ms h =
    run-held (new_async_access_logger n) ms h ∙ (unfold new_async_access_logger in refl)

stopped_step :
    (a : AsyncAccessLogger) (m : Move)
    → a.running ≡ false
    → ((step a m).running ≡ false) × ((step a m).stored ≡ a.stored)
unfolding step log
stopped_step a (logs e) h = ground arith
stopped_step a (turns t) h = rw (turn_stopped t a h) (h, refl)

stopped-stored :
    (a : AsyncAccessLogger) (ms : List Move) → a.running ≡ false → (run a ms).stored ≡ a.stored
unfolding run
stopped-stored a [] h = refl
stopped-stored a (m ∷ ms) h = let k = stopped_step a m h in stopped-stored (step a m) ms k.0 ∙ k.1

-- When the context of a running logger is cancelled, only the batch in memory is flushed: whatever
-- follows, no entry that waits in the channel at that moment is ever stored.
pub shutdown_stores_batch_only :
    (a : AsyncAccessLogger) (ms : List Move)
    → a.running ≡ true
    → (run (turn (done true) a) ms).stored ≡ a.stored ++ a.batch
shutdown_stores_batch_only a ms h =
    rw (turn_running (done true) a h)
      (unfold turn_body flush in stopped-stored (turn_body (done true) a) ms refl)
