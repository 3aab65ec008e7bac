-- ===== src/Enforcement/Reads.antt =====
-- What the steps of BeforeProxy read, in a world whose tables and clock stand still.
use session_proxy.Base.{ℕ, ◌≡◌, refl, sym, ap, ◌∙◌, List, [], ◌∷◌}
use session_proxy.Domain.{EffectivePolicy, BlacklistedEndpoint, UsageCounters}
use session_proxy.Policy.{resolve_policies}
use session_proxy.Store.Db.{Db}
use session_proxy.Store.Redis.{Redis}
use session_proxy.Store.App.{
  App, World, Outcome, answered, refused, unacknowledged, settle, Statement, Result, ok, err,
  no_rows, constraint, unavailable, bad_counter, entropy, bad_ciphertext, bad_url,
  session_not_owned, session_not_active, link_not_owned, link_already_terminated, email_taken,
  invalid_credentials, api_key_revoked, invalid_token, ◌>>=◌, attempt, query,
}
use session_proxy.Store.Keeps.{Keeps}
use session_proxy.Store.Ensures.{
  Ensures, Ensures-throw, Ensures-pure, Ensures-query, Ensures-command, Ensures-bind,
  Ensures-weaken, Ensures-given,
}
use session_proxy.Repo.Policies.{policies_of, list_for_link, select_policies_for}
use session_proxy.Repo.Blacklists.{
  rules_of, methods_of, rules_for_link, with_methods, blocked_methods_of, select_rules,
  select_methods,
}
use session_proxy.Repo.Guests.{get_usage_by_link, select_usage}
use session_proxy.Limiter.{Counters, read_counters}
use session_proxy.Limiter
use session_proxy.Enforcement.{resolve, seed_from, warm_load}

-- The rules that apply to a link of a site, with their methods.
abbrev pub filled : List BlacklistedEndpoint → Db → List BlacklistedEndpoint
filled [] d = []
filled (e ∷ es) d = record e { blocked_methods = methods_of e.id d } ∷ filled es d

abbrev pub limits_of : ℕ → Db → EffectivePolicy
limits_of link d = resolve_policies (policies_of link d)

-- The tables and the clock are those at the start.
abbrev pub At : {R : Type 0} → Db → ℕ → World R → Type 0
At d t w = (w.db ≡ d) × (w.now ≡ t)

abbrev value : {A : Type 0} → A → Result A → A
value a (ok b) = b
value a (err e) = a

module _ {R A : Type 0} (d : Db) (t : ℕ) where
  -- An action whose error the code goes on from.
  attempt-At : (m : App R A) → Keeps (At d t) m → Ensures (At d t) (attempt m) (λ _. At d t)
  unfolding ◌>>=◌
  attempt-At m k = record { at = λ w h. k.at w h }

  -- A SELECT, however its call ends.
  read-Keeps :
      (q : Statement A) → ((now : ℕ) (d : Db) → (q now d).1 ≡ d) → Keeps {R = R} (At d t) (query q)
  unfolding query
  read-Keeps q k = record { at = λ w h. (go w.outcomes w.now w.db (k w.now w.db) ∙ h.0, h.1) }
    where
      go : (os : List Outcome) (now : ℕ) (d : Db) → (q now d).1 ≡ d → (settle os d (q now d)).1 ≡ d
      go [] now d e = e
      go (answered ∷ os) now d e = e
      go (refused ∷ os) now d e = refl
      go (unacknowledged ∷ os) now d e = e

  -- A SELECT that returns has the rows of these tables.
  read-At :
      (q : Statement A) (a : A)
      → ((now : ℕ) → q now d ≡ (ok a, d))
      → Ensures {R = R} (At d t) (query q) (λ b w. (b ≡ a) × At d t w)
  read-At q a k =
      Ensures-query q _
        (λ w b os p e. read w b os p e (q w.now w.db) refl (ap (q w.now) p.0 ∙ k w.now))
    where
      read :
          (w : World R) (b : A) (os : List Outcome)
          → At d t w
          → (q w.now w.db).0 ≡ ok b
          → (r : Result A × Db) → q w.now w.db ≡ r
          → q w.now w.db ≡ (ok a, d)
          → (b ≡ a) × At d t (record w { db = (q w.now w.db).1; outcomes = os })
      read w b os p e r f g = (ap (value b) (sym e ∙ ap (λ r. r.0) g), (ap (λ r. r.1) g, p.1))

module _ (rd : Redis) (d : Db) (t : ℕ) where
  seed-At : (link : ℕ) (c : Counters) → Ensures (At d t) (Limiter.warm_load rd link c) (λ _. At d t)
  unfolding Limiter.warm_load
  seed-At link c = Ensures-command _ _ (λ w a os p e. p)

  seed_from-At :
      (link : ℕ) (r : Result UsageCounters) → Ensures (At d t) (seed_from rd link r) (λ _. At d t)
  unfolding seed_from
  seed_from-At link (ok u) = seed-At link _
  seed_from-At link (err e) =
      elim e as (λ e. Ensures (At d t) (seed_from rd link (err e)) (λ _. At d t)) [
        | no_rows ↦ seed-At link _
        | constraint ↦ Ensures-throw _
        | unavailable ↦ Ensures-throw _
        | bad_counter ↦ Ensures-throw _
        | entropy ↦ Ensures-throw _
        | bad_ciphertext ↦ Ensures-throw _
        | bad_url ↦ Ensures-throw _
        | session_not_owned ↦ Ensures-throw _
        | session_not_active ↦ Ensures-throw _
        | link_not_owned ↦ Ensures-throw _
        | link_already_terminated ↦ Ensures-throw _
        | email_taken ↦ Ensures-throw _
        | invalid_credentials ↦ Ensures-throw _
        | api_key_revoked ↦ Ensures-throw _
        | invalid_token ↦ Ensures-throw _
      ]

  usage-At :
      (link : ℕ) → Ensures {R = rd.Store} (At d t) (attempt (get_usage_by_link link)) (λ _. At d t)
  unfolding get_usage_by_link select_usage
  usage-At link = attempt-At d t _ (read-Keeps d t _ (λ now e. refl))

  pub warm_load-At : (link : ℕ) → Ensures {R = rd.Store} (At d t) (warm_load rd link) (λ _. At d t)
  unfolding warm_load
  warm_load-At link = Ensures-bind _ _ _ _ (usage-At link) (seed_from-At link)

  pub resolve-At :
      (link : ℕ)
      → Ensures {R = rd.Store} (At d t) (resolve link) (λ e w. (e ≡ limits_of link d) × At d t w)
  unfolding resolve list_for_link select_policies_for
  resolve-At link =
      Ensures-bind _ _ _ _ (read-At d t _ (policies_of link d) (λ now. refl))
        (λ ps. Ensures-pure _ _ (λ w p. (ap resolve_policies p.0, p.1)))

  methods-At :
      (id : ℕ)
      → Ensures {R = rd.Store}
          (At d t)
          (blocked_methods_of id)
          (λ ms w. (ms ≡ methods_of id d) × At d t w)
  unfolding blocked_methods_of select_methods
  methods-At id = read-At d t _ (methods_of id d) (λ now. refl)

  with_methods-At :
      (es : List BlacklistedEndpoint)
      → Ensures {R = rd.Store} (At d t) (with_methods es) (λ rs w. (rs ≡ filled es d) × At d t w)
  unfolding with_methods
  with_methods-At [] = Ensures-pure _ _ (λ w p. (refl, p))
  with_methods-At (e ∷ es) = Ensures-bind _ _ _ _ (methods-At e.id) (λ ms.
      Ensures-bind _ _ (λ rs w. (ms ≡ methods_of e.id d) × ((rs ≡ filled es d) × At d t w)) _
        (Ensures-given _ (with_methods-At es))
        (λ rs.
          Ensures-pure _ _ (λ w p. (λ i. record e { blocked_methods = p.0 i } ∷ p.1.0 i, p.1.1))))

  pub rules-At :
      (link site : ℕ)
      → Ensures {R = rd.Store}
          (At d t)
          (rules_for_link link site)
          (λ rs w. (rs ≡ filled (rules_of link site d) d) × At d t w)
  unfolding rules_for_link select_rules
  rules-At link site =
      Ensures-bind _ _ _ _ (read-At d t _ (rules_of link site d) (λ now. refl)) (λ es.
        Ensures-weaken (λ rs w. (rs ≡ filled (rules_of link site d) d) × At d t w)
          (Ensures-given _ (with_methods-At es))
          (λ rs w q. (q.1.0 ∙ ap (λ es. filled es d) q.0, q.1.1)))
