-- ===== src/AccessLog/Drain.antt =====
-- What a running logger stores when no more requests log.
use session_proxy.Base.{
  ℕ, zero, suc, ◌≡◌, refl, sym, ap, ◌∙◌, true, List, [], ◌∷◌, ◌++◌, leb, length, append-nil,
  Bool-cases, inl, inr,
}
use session_proxy.Domain.{ProxyAccessLog}
use session_proxy.AccessLog.{
  AsyncAccessLogger, new_async_access_logger, flush, ticked, received, append_entry, take_entry,
  turn_body,
}
use session_proxy.AccessLog.Conservation.{
  Move, turns, step, run, accepted, accepted_by, AllSucceed, held, turn_running, run-held,
  nothing_lost,
}

-- Turns that take so many entries from the channel, and then one tick.
abbrev pub drain : ℕ → List Move
drain zero = turns (ticked true) ∷ []
drain (suc n) = turns (received true) ∷ drain n

AllSucceed-drain : (n : ℕ) → AllSucceed (drain n)
AllSucceed-drain zero = (refl, tt)
AllSucceed-drain (suc n) = (refl, AllSucceed-drain n)

accepted-drain : (n : ℕ) (a : AsyncAccessLogger) → accepted a (drain n) ≡ []
unfolding accepted accepted_by
accepted-drain zero a = refl
accepted-drain (suc n) a = accepted-drain n _

run-append : (a : AsyncAccessLogger) (ms ns : List Move) → run a (ms ++ ns) ≡ run (run a ms) ns
unfolding run
run-append a [] ns = refl
run-append a (m ∷ ms) ns = run-append (step a m) ms ns

entries-take_entry :
    (x : ProxyAccessLog) (es : List ProxyAccessLog) (a : AsyncAccessLogger)
    → ((take_entry true (x ∷ es) a).entries ≡ es)
      × ((take_entry true (x ∷ es) a).running ≡ a.running)
unfolding take_entry append_entry flush
entries-take_entry x es a = elim (Bool-cases (leb a.batch_size (length (a.batch ++ x ∷ [])))) [
  | inl full ↦ rw full (refl, refl)
  | inr more ↦ rw more (refl, refl)
]

entries-received :
    (x : ProxyAccessLog) (es : List ProxyAccessLog) (a : AsyncAccessLogger)
    → a.running ≡ true
    → a.entries ≡ x ∷ es
    → ((step a (turns (received true))).entries ≡ es)
      × ((step a (turns (received true))).running ≡ true)
unfolding step turn_body
entries-received x es a r e =
    rw (turn_running (received true) a r, e)
      ((entries-take_entry x es a).0, (entries-take_entry x es a).1 ∙ r)

IsIdle : AsyncAccessLogger → Type 0
IsIdle a = (a.batch ≡ []) × (a.entries ≡ [])

drain-IsIdle :
    (es : List ProxyAccessLog) (a : AsyncAccessLogger)
    → a.running ≡ true
    → a.entries ≡ es
    → IsIdle (run a (drain (length es)))
unfolding run step IsIdle turn_body flush
drain-IsIdle [] a r e = rw (turn_running (ticked true) a r) (refl, e)
drain-IsIdle (x ∷ es) a r e =
    let (k, s) = entries-received x es a r e in drain-IsIdle es (step a (turns (received true))) s k

held-IsIdle : (a : AsyncAccessLogger) → IsIdle a → held a ≡ a.stored
unfolding IsIdle
held-IsIdle a h = rw (h.0, h.1) (append-nil a.stored)

-- Where every insert succeeds and Run has not returned, so many turns of Run as entries wait in the
-- channel, and a tick after them, store every entry that Log accepted and nothing else, each once
-- and in the order of the requests.
pub logger_drains :
    (n : ℕ) (ms : List Move)
    → AllSucceed ms
    → (run (new_async_access_logger n) ms).running ≡ true
    → (run
        (new_async_access_logger n)
        (ms ++ drain (length (run (new_async_access_logger n) ms).entries))).stored
      ≡ accepted (new_async_access_logger n) ms
logger_drains n ms h r =
    let a = run (new_async_access_logger n) ms in
    let k = length a.entries in
    ap (λ b. b.stored) (run-append (new_async_access_logger n) ms (drain k))
    ∙ (sym (held-IsIdle (run a (drain k)) (drain-IsIdle a.entries a r refl))
        ∙ (run-held a (drain k) (AllSucceed-drain k)
            ∙ (ap (λ xs. held a ++ xs) (accepted-drain k a)
                ∙ (append-nil (held a) ∙ nothing_lost n ms h))))
