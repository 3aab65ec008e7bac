-- ===== src/AccessLog.antt =====
-- app/internal/proxy/logwriter.go: the asynchronous writer of proxy_access_logs. The channel is
-- the list `entries`; the goroutine of Run is a sequence of turns, one for each case that its
-- select takes. What InsertBatch stored is `stored`; a batch that it fails to store is `lost`.
pub mod Conservation
pub mod Drain
mod Tests
use session_proxy.Base.{
  ℕ, ◌*◌, Bool, true, false, List, [], ◌∷◌, ◌++◌, ltb, leb, if◌then◌else◌, length,
}
use session_proxy.Domain.{ProxyAccessLog}

pub record AsyncAccessLogger : Type 0 where
  pub entries : List ProxyAccessLog
  pub batch_size : ℕ
  pub batch : List ProxyAccessLog
  pub stored : List ProxyAccessLog
  pub lost : List ProxyAccessLog
  pub running : Bool

-- NewAsyncAccessLogger with the start of Run; a batch size below 1 becomes 1.
unfoldable pub new_async_access_logger : ℕ → AsyncAccessLogger
new_async_access_logger batch_size = record {
  entries = [];
  batch_size = if ltb batch_size 1 then 1 else batch_size;
  batch = [];
  stored = [];
  lost = [];
  running = true;
}

-- Log: false where the channel is full and the entry is dropped.
unfoldable pub log : ProxyAccessLog → AsyncAccessLogger → AsyncAccessLogger × Bool
log e a =
    if ltb (length a.entries) (a.batch_size * 20)
    then (record a { entries = a.entries ++ e ∷ [] }, true)
    else (a, false)

-- The closure flush; the argument says whether InsertBatch succeeds.
unfoldable pub flush : Bool → AsyncAccessLogger → AsyncAccessLogger
flush true a = record a { stored = a.stored ++ a.batch; batch = [] }
flush false a = record a { lost = a.lost ++ a.batch; batch = [] }

-- One turn of the loop of Run.
pub data Turn : Type 0 where
  done ticked received : Bool → Turn

append_entry : ProxyAccessLog → AsyncAccessLogger → AsyncAccessLogger
append_entry e a = record a { batch = a.batch ++ e ∷ [] }

-- The case that takes an entry from the channel; it is not ready on an empty channel.
take_entry : Bool → List ProxyAccessLog → AsyncAccessLogger → AsyncAccessLogger
unfolding append_entry
take_entry ok [] a = a
take_entry ok (e ∷ es) a =
    let b = append_entry e (record a { entries = es }) in
    if leb b.batch_size (length b.batch) then flush ok b else b

pub turn_body : Turn → AsyncAccessLogger → AsyncAccessLogger
unfolding take_entry
turn_body (done ok) a = record (flush ok a) { running = false }
turn_body (received ok) a = take_entry ok a.entries a
turn_body (ticked ok) a = flush ok a

-- After `done` the goroutine has returned.
unfoldable pub turn : Turn → AsyncAccessLogger → AsyncAccessLogger
unfolding turn_body
turn t a = if a.running then turn_body t a else a
