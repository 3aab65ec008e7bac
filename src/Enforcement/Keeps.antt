-- ===== src/Enforcement/Keeps.antt =====
-- What BeforeProxy and AfterProxy keep of the tables, whatever their calls end in.
use session_proxy.Base.{ℕ, String, Bool, Option, none, some, List, [], ◌∷◌}
use session_proxy.Base.Bytes.{Bytes}
use session_proxy.Domain.{
  LinkWithSession, EffectivePolicy, BlacklistedEndpoint, SecurityEvent, UsageCounters,
  LinkTermination, link_status_terminated,
}
use session_proxy.Pubsub.{EventType}
use session_proxy.Store.Redis.{Redis}
use session_proxy.Store.App.{
  Result, ok, err, no_rows, constraint, unavailable, bad_counter, entropy, bad_ciphertext, bad_url,
  session_not_owned, session_not_active, link_not_owned, link_already_terminated, email_taken,
  invalid_credentials, api_key_revoked, invalid_token, command,
}
use session_proxy.Store.Keeps.{
  Keeps, OfDb, Keeps-query, Keeps-bind, Keeps-command, Keeps-throw, keeps_rules,
}
use session_proxy.Repo.Policies.{list_for_link, select_policies_for}
use session_proxy.Repo.Blacklists.{
  rules_for_link, with_methods, blocked_methods_of, select_rules, select_methods,
}
use session_proxy.Repo.Guests.{get_usage_by_link, select_usage, upsert, upsert_usage}
use session_proxy.Repo.Logs.{create_event, insert_event, create_termination, insert_termination}
use session_proxy.Limiter.{Counters}
use session_proxy.Limiter
use session_proxy.LinkService
use session_proxy.Repo.Links
use session_proxy.Repo.Links.{select_link, update_link_status}
use session_proxy.Store.Db.{Db}
use session_proxy.Enforcement.{
  notify, after_termination, auto_terminate, resolve, seed_from, warm_load, judge_violations,
  record_violation, judge, check_limits, recheck, recheck_limits, after_proxy, check,
  settle_blocked, before_proxy,
}

-- The four statements of these methods that write keep a property of the tables.
pub record Kept (P : Db → Type 0) : Type 0 where
  pub upserted : (c : UsageCounters) (now : ℕ) (d : Db) → P d → P (upsert_usage c now d).1
  pub event : (e : SecurityEvent) (now : ℕ) (d : Db) → P d → P (insert_event e now d).1
  pub status :
      (link now : ℕ) (d : Db) → P d → P (update_link_status link link_status_terminated now d).1
  pub termination :
      (t : LinkTermination) (now : ℕ) (d : Db) → P d → P (insert_termination t now d).1

module _ (rd : Redis) (P : Db → Type 0) (kept : Kept P) where
  pub upsert-Keeps : (c : UsageCounters) → Keeps {R = rd.Store} (OfDb P) (upsert c)
  unfolding upsert
  upsert-Keeps c = Keeps-query P _ (kept.upserted c)

  event-Keeps : (e : SecurityEvent) → Keeps {R = rd.Store} (OfDb P) (create_event e)
  unfolding create_event
  event-Keeps e = Keeps-query P _ (kept.event e)

  usage-Keeps : (link : ℕ) → Keeps {R = rd.Store} (OfDb P) (get_usage_by_link link)
  unfolding get_usage_by_link select_usage
  usage-Keeps link = Keeps-query P _ (λ now d h. h)

  resolve-Keeps : (link : ℕ) → Keeps {R = rd.Store} (OfDb P) (resolve link)
  unfolding resolve list_for_link select_policies_for
  resolve-Keeps link = Keeps-bind _ _ (Keeps-query P _ (λ now d h. h)) (λ ps. search keeps_rules)

  link-Keeps : (link : ℕ) → Keeps {R = rd.Store} (OfDb P) (Links.get_by_id link)
  unfolding Links.get_by_id select_link
  link-Keeps link = Keeps-query P _ (λ now d h. h)

  update-Keeps :
      (link : ℕ) → Keeps {R = rd.Store} (OfDb P) (Links.update_status link link_status_terminated)
  unfolding Links.update_status
  update-Keeps link = Keeps-query P _ (kept.status link)

  termination-Keeps : (t : LinkTermination) → Keeps {R = rd.Store} (OfDb P) (create_termination t)
  unfolding create_termination
  termination-Keeps t = Keeps-query P _ (kept.termination t)

  auto_terminate-Keeps :
      (link : ℕ) (reason : String)
      → Keeps {R = rd.Store} (OfDb P) (LinkService.auto_terminate link reason)
  unfolding LinkService.auto_terminate LinkService.record_termination
  auto_terminate-Keeps link reason =
      search (keeps_rules, link-Keeps, update-Keeps, termination-Keeps) depth 8

  notify-Keeps :
      (type : EventType) (link : ℕ) (message : Bytes)
      → Keeps {R = rd.Store} (OfDb P) (notify type link message)
  unfolding notify
  notify-Keeps type link message = record { at = λ w h. h }

  after_termination-Keeps :
      (link : ℕ) (reason : String) (r : Result (Unit {0}))
      → Keeps {R = rd.Store} (OfDb P) (after_termination link reason r)
  unfolding after_termination
  after_termination-Keeps link reason (ok u) = notify-Keeps _ _ _
  after_termination-Keeps link reason (err e) = search keeps_rules

  terminate-Keeps :
      (link : ℕ) (reason : String) → Keeps {R = rd.Store} (OfDb P) (auto_terminate link reason)
  unfolding auto_terminate
  terminate-Keeps link reason = search (keeps_rules, auto_terminate-Keeps, after_termination-Keeps)

  methods-Keeps : (es : List BlacklistedEndpoint) → Keeps {R = rd.Store} (OfDb P) (with_methods es)
  unfolding with_methods blocked_methods_of select_methods
  methods-Keeps [] = search keeps_rules
  methods-Keeps (e ∷ es) =
      Keeps-bind _ _ (Keeps-query P _ (λ now d h. h))
        (λ ms. Keeps-bind _ _ (methods-Keeps es) (λ rs. search keeps_rules))

  check-Keeps :
      (regexp_match : Bytes → Bytes → Option Bool) (link site : ℕ) (method path : Bytes)
      → Keeps {R = rd.Store} (OfDb P) (check regexp_match rd link site method path)
  unfolding check rules_for_link select_rules
  check-Keeps regexp_match link site method path =
      Keeps-bind _ _ (Keeps-bind _ _ (Keeps-query P _ (λ now d h. h)) methods-Keeps)
        (λ rs. search keeps_rules)

  ruleset db_rules = (
    keeps_rules, upsert-Keeps, event-Keeps, usage-Keeps, resolve-Keeps, notify-Keeps,
    terminate-Keeps,
  )

  pub command_rule :
      {A : Type 0} (c : rd.Store → Result A × rd.Store) → Keeps {R = rd.Store} (OfDb P) (command c)
  command_rule c = Keeps-command _ c

  judge-Keeps :
      (link : ℕ) (e : EffectivePolicy) (c : Counters)
      → Keeps {R = rd.Store} (OfDb P) (judge rd link e c)
  unfolding judge
  judge-Keeps link e c = search db_rules depth 8

  check_limits-Keeps :
      (l : LinkWithSession) (e : EffectivePolicy)
      → Keeps {R = rd.Store} (OfDb P) (check_limits rd l e)
  unfolding check_limits Limiter.get
  check_limits-Keeps l e = search (db_rules, judge-Keeps, command_rule) depth 8

  seed-Keeps :
      (link : ℕ) (c : Counters) → Keeps {R = rd.Store} (OfDb P) (Limiter.warm_load rd link c)
  unfolding Limiter.warm_load
  seed-Keeps link c = command_rule _

  seed_from-Keeps :
      (link : ℕ) (r : Result UsageCounters) → Keeps {R = rd.Store} (OfDb P) (seed_from rd link r)
  unfolding seed_from
  seed_from-Keeps link (ok u) = seed-Keeps link _
  seed_from-Keeps link (err e) =
      elim e as (λ e. Keeps {R = rd.Store} (OfDb P) (seed_from rd link (err e))) [
        | no_rows ↦ seed-Keeps link _
        | constraint ↦ Keeps-throw _
        | unavailable ↦ Keeps-throw _
        | bad_counter ↦ Keeps-throw _
        | entropy ↦ Keeps-throw _
        | bad_ciphertext ↦ Keeps-throw _
        | bad_url ↦ Keeps-throw _
        | session_not_owned ↦ Keeps-throw _
        | session_not_active ↦ Keeps-throw _
        | link_not_owned ↦ Keeps-throw _
        | link_already_terminated ↦ Keeps-throw _
        | email_taken ↦ Keeps-throw _
        | invalid_credentials ↦ Keeps-throw _
        | api_key_revoked ↦ Keeps-throw _
        | invalid_token ↦ Keeps-throw _
      ]

  warm_load-Keeps : (link : ℕ) → Keeps {R = rd.Store} (OfDb P) (warm_load rd link)
  unfolding warm_load
  warm_load-Keeps link = search (db_rules, seed_from-Keeps)

  counted-Keeps : (link : ℕ) → Keeps {R = rd.Store} (OfDb P) (Limiter.incr_violations rd link)
  unfolding Limiter.incr_violations Limiter.incr_and_mark_dirty
  counted-Keeps link = command_rule _

  judge_violations-Keeps :
      (link : ℕ) (e : EffectivePolicy) (n : ℕ)
      → Keeps {R = rd.Store} (OfDb P) (judge_violations rd link e n)
  unfolding judge_violations
  judge_violations-Keeps link e n = search db_rules

  record_violation-Keeps :
      (l : LinkWithSession) (session : ℕ) (e : EffectivePolicy) (method path : Bytes)
      → Keeps {R = rd.Store} (OfDb P) (record_violation rd l session e method path)
  unfolding record_violation
  record_violation-Keeps l session e method path =
      search (db_rules, counted-Keeps, judge_violations-Keeps) depth 8

  settle-Keeps :
      (regexp_match : Bytes → Bytes → Option Bool) (l : LinkWithSession) (session : ℕ)
      (e : EffectivePolicy) (method path : Bytes) (b : Option BlacklistedEndpoint)
      → Keeps {R = rd.Store} (OfDb P) (settle_blocked regexp_match rd l session e method path b)
  unfolding settle_blocked
  settle-Keeps regexp_match l session e method path none = check_limits-Keeps l e
  settle-Keeps regexp_match l session e method path (some b) =
      record_violation-Keeps l session e method path

  pub before_proxy-Keeps :
      (regexp_match : Bytes → Bytes → Option Bool) (l : LinkWithSession) (session : ℕ)
      (path method : Bytes)
      → Keeps {R = rd.Store} (OfDb P) (before_proxy regexp_match rd l session path method)
  unfolding before_proxy
  before_proxy-Keeps regexp_match l session path method =
      search (db_rules, warm_load-Keeps, check-Keeps, settle-Keeps) depth 8

  recheck-Keeps : (link : ℕ) → Keeps {R = rd.Store} (OfDb P) (recheck_limits rd link)
  unfolding recheck_limits recheck Limiter.get
  recheck-Keeps link = search (db_rules, command_rule) depth 9

  pub after_proxy-Keeps :
      (l : LinkWithSession) (n : ℕ) → Keeps {R = rd.Store} (OfDb P) (after_proxy rd l n)
  unfolding after_proxy Limiter.incr_requests Limiter.incr_bytes Limiter.incr_and_mark_dirty
  after_proxy-Keeps l n = search (db_rules, command_rule, recheck-Keeps) depth 9
