-- ===== src/Api/Router/Ownership.antt =====
-- What a user does not own is not found.
pub mod Refused
use session_proxy.Base.{
  ℕ, ◌≡◌, refl, ◌≢◌, Bool, true, false, not, some, arith, ◌==◌, if◌then◌else◌, ==_iff, first_row,
}
use session_proxy.Domain.{OriginalSession, AccessPolicy, BlacklistedEndpoint}
use session_proxy.Store.Db.{Db}
use session_proxy.Store.App.{
  App, World, Result, ok, err, Error, Statement, pure, attempt, query, next, ◌>>=◌,
}
use session_proxy.Store.Ensures.{
  Post, Ensures, Ensures-query, Ensures-bind, Ensures-pure, Ensures-fact,
}
use session_proxy.Store.Reads.{Same, Same-trans, Reads, Reads-query, Reads-bind, Reads-pure}
use session_proxy.Repo.Order.{one_row, one_row-found}
use session_proxy.Repo.Links.{select_owner, session_by_id}
use session_proxy.Repo.Links
use session_proxy.Repo.Sessions.{select_session}
use session_proxy.Repo.Sessions
use session_proxy.Repo.Policies.{select_policy}
use session_proxy.Repo.Policies
use session_proxy.Repo.Blacklists.{select_endpoint, select_methods, blocked_methods_of}
use session_proxy.Repo.Blacklists
use session_proxy.Api.Reply.{Reply, respond, answer}
use session_proxy.Api.Middleware.{require_link_ownership, with_owner}
use session_proxy.Api.Sessions.{handle_get_session, own_session}
use session_proxy.Api.Rules.{
  handle_delete_policy, delete_found_policy, with_found_endpoint, owned_blacklist_endpoint,
  handle_delete_blacklist_endpoint, handle_set_blocked_methods, handle_attach_blacklist_to_site,
}
use session_proxy.Api.Router.{
  Outside, OwnerCall, get_session, delete_policy, delete_blacklist_endpoint, set_blocked_methods,
  attach_blacklist_to_site, on_link, serve_owner,
}

abbrev pub IsForeignEndpoint : ℕ → ℕ → Db → Type 0
IsForeignEndpoint user id d =
    (e : BlacklistedEndpoint)
    → first_row (λ e. e.id == id) d.blacklisted_endpoints ≡ some e
    → e.user_id ≢ user

-- The link, session, policy or blacklist endpoint that the URL of a call names first is missing or
-- another user's. Left out are the ids in a body, as those of POST /links, the second id of a URL,
-- as the endpoint of attach-endpoint, and devices and api keys.
abbrev pub IsForeign : ℕ → OwnerCall → Db → Type 0
IsForeign user (on_link (some link) call) d = (select_owner link 0 d).0 ≢ ok user
IsForeign user (get_session (some id)) d =
    (s : OriginalSession)
    → first_row (session_by_id id) d.original_sessions ≡ some s
    → s.user_id ≢ user
IsForeign user (delete_policy (some id)) d =
    (p : AccessPolicy) → first_row (λ p. p.id == id) d.access_policies ≡ some p → p.user_id ≢ user
IsForeign user (delete_blacklist_endpoint (some id)) d = IsForeignEndpoint user id d
IsForeign user (set_blocked_methods (some id) methods) d = IsForeignEndpoint user id d
IsForeign user (attach_blacklist_to_site (some id) site) d = IsForeignEndpoint user id d
IsForeign user call d = ⊥

-- The reply is 404, and the tables and Redis stay as they are.
abbrev pub Refuses : {R : Type 0} → App R Reply → World R → Type 0
Refuses m w = (r : Reply) × ((r.status ≡ 404) × (((m w).0 ≡ ok r) × Same w (m w).1))

module _ {R : Type 0} where
  pub Refuses-pure : (r : Reply) (w : World R) → r.status ≡ 404 → Refuses (pure r) w
  unfolding ◌>>=◌
  Refuses-pure r w h = (r, (h, (refl, (refl, refl))))

  pub Refuses-if :
      (b : Bool) (m n : App R Reply) (w : World R)
      → b ≡ true
      → Refuses m w
      → Refuses (if b then m else n) w
  Refuses-if true m n w e h = h
  Refuses-if false m n w e h = absurd cc

  -- After a read that finds what is said of it.
  pub Refuses-after :
      {A : Type 0} (Q : A → Type 0) (m : App R A) (k : Result A → App R Reply) (w : World R)
      → Reads m
      → Post (λ a _. Q a) (m w)
      → ((e : Error) (w : World R) → Refuses (k (err e)) w)
      → ((a : A) (w : World R) → Q a → Refuses (k (ok a)) w)
      → Refuses (attempt m >>= k) w
  unfolding ◌>>=◌
  Refuses-after {A} Q m k w reads post bad good = go (m w) post (reads.same w)
    where
      moved :
          (v : World R) (n : App R Reply)
          → Same w v
          → Refuses n v
          → (r : Reply) × ((r.status ≡ 404) × (((n v).0 ≡ ok r) × Same w (n v).1))
      moved v n s h = (h.0, (h.1.0, (h.1.1.0, Same-trans w v (n v).1 s h.1.1.1)))

      go :
          (x : Result A × World R)
          → Post (λ a _. Q a) x
          → Same w x.1
          → (r : Reply) × ((r.status ≡ 404) × (((k x.0 x.1).0 ≡ ok r) × Same w (k x.0 x.1).1))
      go (ok a, v) q s = moved v (k (ok a)) s (good a v q)
      go (err e, v) q s = moved v (k (err e)) s (bad e v)

pub not_same : (a b : ℕ) → a ≢ b → not (a == b) ≡ true
not_same a b h = ground (arith, ==_iff a b)
