-- ===== src/AccessLog/Tests.antt =====
-- A logger at work, and the theorems of AccessLog at it.
use session_proxy.Base.{◌≡◌, refl, true, some, List, [], ◌∷◌, ◌++◌, length}
use session_proxy.Base.Bytes.{codes}
use session_proxy.Domain.{ProxyAccessLog}
use session_proxy.AccessLog.{
  AsyncAccessLogger, new_async_access_logger, log, flush, turn, done, ticked, received,
}
use session_proxy.AccessLog.Drain.{drain, logger_drains}
use session_proxy.AccessLog.Conservation.{
  Move, logs, turns, run, step, accepted, held, IsValid, logger_bounded, nothing_lost,
  shutdown_stores_batch_only,
}

abbrev entry : ProxyAccessLog
entry = record {
  guest_session_id = some 1;
  shared_link_id = 2;
  target_url = codes "https://a/";
  http_method = codes "GET";
  response_status = some 200;
  bytes_transferred = some 10;
  response_time_ms = some 3;
  requested_at = 0;
}

abbrev traffic : List Move
traffic = logs entry ∷ logs entry ∷ turns (received true) ∷ turns (ticked true) ∷ []

traffic_stores_one : (run (new_async_access_logger 5) traffic).stored ≡ entry ∷ []
unfolding run step log turn flush new_async_access_logger
traffic_stores_one = refl

logger_bounded_example : IsValid (run (new_async_access_logger 0) traffic)
logger_bounded_example = logger_bounded 0 traffic

nothing_lost_example :
    held (run (new_async_access_logger 5) traffic) ≡ accepted (new_async_access_logger 5) traffic
nothing_lost_example = nothing_lost 5 traffic (tt, (tt, (refl, (refl, tt))))

logger_drains_example :
    (run
      (new_async_access_logger 5)
      (traffic ++ drain (length (run (new_async_access_logger 5) traffic).entries))).stored
    ≡ accepted (new_async_access_logger 5) traffic
unfolding run step log turn flush new_async_access_logger
logger_drains_example = logger_drains 5 traffic (tt, (tt, (refl, (refl, tt)))) refl

-- One entry waits in the channel and one in the batch.
abbrev busy : AsyncAccessLogger
busy = record {
  entries = entry ∷ [];
  batch_size = 5;
  batch = entry ∷ [];
  stored = [];
  lost = [];
  running = true;
}

shutdown_stores_batch_only_example : (run (turn (done true) busy) traffic).stored ≡ [] ++ entry ∷ []
shutdown_stores_batch_only_example = shutdown_stores_batch_only busy traffic refl
