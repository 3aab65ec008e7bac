-- ===== src/Api/Router/Ownership/Refused.antt =====
-- The calls that are refused.
use session_proxy.Base.{ℕ, ◌≡◌, refl, sym, ap, ◌∙◌, ◌≢◌, not, Option, none, some, ◌==◌, first_row}
use session_proxy.Domain.{OriginalSession, AccessPolicy, BlacklistedEndpoint}
use session_proxy.Store.Db.{Db}
use session_proxy.Store.App.{App, World, ok, query, next}
use session_proxy.Store.Ensures.{Post, Ensures-query, Ensures-bind, Ensures-pure, Ensures-fact}
use session_proxy.Store.Reads.{Reads, Reads-query, Reads-bind, Reads-pure}
use session_proxy.Repo.Order.{one_row, one_row-found}
use session_proxy.Repo.Links.{select_owner, session_by_id}
use session_proxy.Repo.Links
use session_proxy.Repo.Sessions.{select_session}
use session_proxy.Repo.Sessions
use session_proxy.Repo.Policies.{select_policy}
use session_proxy.Repo.Policies
use session_proxy.Repo.Blacklists.{select_endpoint, select_methods, blocked_methods_of}
use session_proxy.Repo.Blacklists
use session_proxy.Api.Reply.{Reply}
use session_proxy.Api.Middleware.{require_link_ownership, with_owner}
use session_proxy.Api.Sessions.{handle_get_session, own_session}
use session_proxy.Api.Rules.{
  handle_delete_policy, delete_found_policy, with_found_endpoint, owned_blacklist_endpoint,
  handle_delete_blacklist_endpoint, handle_set_blocked_methods, handle_attach_blacklist_to_site,
}
use session_proxy.Api.Router.{
  me, list_devices, list_api_keys, list_sessions, list_policies, list_blacklist, list_guests,
  create_target_site, create_device, delete_device, create_api_key, revoke_api_key, import_session,
  create_policy, create_blacklist_endpoint, list_links, create_link, Outside, OwnerCall,
  get_session, delete_policy, delete_blacklist_endpoint, set_blocked_methods,
  attach_blacklist_to_site, on_link, serve_owner,
}
use session_proxy.Api.Router.Ownership.{
  IsForeign, Refuses, Refuses-pure, Refuses-if, Refuses-after, not_same,
}

module _ {R : Type 0} (user : ℕ) where
  owner-Post :
      (link : ℕ) (w : World R)
      → (select_owner link 0 w.db).0 ≢ ok user
      → Post (λ o _. o ≢ user) (Links.owner_user_id link w)
  unfolding Links.owner_user_id select_owner
  owner-Post link w h =
      (Ensures-query {P = λ v. v.db ≡ w.db} (select_owner link) _
          (λ v o os p e same. h (ap (λ d. (select_owner link 0 d).0) (sym p) ∙ e ∙ ap ok same))).at
        w refl

  -- A row that a SELECT by id finds.
  found-Post :
      {A : Type 0} (select : Db → Option A) (owner : A → ℕ) (w : World R)
      → ((a : A) → select w.db ≡ some a → owner a ≢ user)
      → Post (λ a _. owner a ≢ user) (query (λ now d. (one_row (select d), d)) w)
  found-Post select owner w h =
      (Ensures-query {P = λ v. v.db ≡ w.db} (λ now d. (one_row (select d), d)) _
          (λ v a os p e.
            h a (one_row-found (select w.db) a (ap (λ d. one_row (select d)) (sym p) ∙ e)))).at
        w refl

  on_link-Refuses :
      (link : ℕ) (next : ℕ → App R Reply) (w : World R)
      → (select_owner link 0 w.db).0 ≢ ok user
      → Refuses (require_link_ownership user (some link) next) w
  unfolding require_link_ownership with_owner Links.owner_user_id
  on_link-Refuses link next w h =
      Refuses-after (λ o. o ≢ user) _ _ w (Reads-query _ owner_reads) (owner-Post link w h)
        (λ e w. Refuses-pure _ w refl)
        (λ o w k. Refuses-if (not (o == user)) _ _ w (not_same o user k) (Refuses-pure _ w refl))
    where
      owner_reads : (now : ℕ) (d : Db) → (select_owner link now d).1 ≡ d
      owner_reads now d = unfold select_owner in refl

  get_session-Refuses :
      (id : ℕ) (w : World R)
      → ((s : OriginalSession)
          → first_row (session_by_id id) w.db.original_sessions ≡ some s
          → s.user_id ≢ user)
      → Refuses (handle_get_session user (some id)) w
  unfolding handle_get_session Sessions.get_by_id select_session
  get_session-Refuses id w h =
      Refuses-after (λ s. s.user_id ≢ user) _ _ w (Reads-query _ (λ now d. refl))
        (found-Post (λ d. first_row (session_by_id id) d.original_sessions) (λ s. s.user_id) w h)
        (λ e w. Refuses-pure _ w refl)
        (λ s w k. Refuses-pure (own_session user s) w (rw (not_same s.user_id user k) refl))

  delete_policy-Refuses :
      (id : ℕ) (w : World R)
      → ((p : AccessPolicy)
          → first_row (λ p. p.id == id) w.db.access_policies ≡ some p
          → p.user_id ≢ user)
      → Refuses (handle_delete_policy user (some id)) w
  unfolding handle_delete_policy delete_found_policy Policies.get_by_id select_policy
  delete_policy-Refuses id w h =
      Refuses-after (λ p. p.user_id ≢ user) _ _ w (Reads-query _ (λ now d. refl))
        (found-Post (λ d. first_row (λ p. p.id == id) d.access_policies) (λ p. p.user_id) w h)
        (λ e w. Refuses-pure _ w refl)
        (λ p w k.
          Refuses-if (not (p.user_id == user)) _ _ w (not_same p.user_id user k)
            (Refuses-pure _ w refl))

  get_endpoint-Post :
      (id : ℕ) (w : World R)
      → ((e : BlacklistedEndpoint)
          → first_row (λ e. e.id == id) w.db.blacklisted_endpoints ≡ some e
          → e.user_id ≢ user)
      → Post (λ e _. e.user_id ≢ user) (Blacklists.get_by_id id w)
  unfolding Blacklists.get_by_id select_endpoint
  get_endpoint-Post id w h =
      (Ensures-bind {P = λ v. v.db ≡ w.db} _ _ (λ e _. e.user_id ≢ user) (λ e _. e.user_id ≢ user)
          (Ensures-query _ _ (λ v a os p e. h a (
            one_row-found (first_row (λ e. e.id == id) w.db.blacklisted_endpoints) a (
              ap (λ d. one_row (first_row (λ e. e.id == id) d.blacklisted_endpoints)) (sym p)
              ∙ e))))
          (λ e.
            Ensures-bind _ _ (λ _ _. e.user_id ≢ user) _ (Ensures-fact (λ w p. p))
              (λ ms. Ensures-pure _ _ (λ w p. p)))).at
        w refl

  endpoint-Refuses :
      (id : ℕ) (next : BlacklistedEndpoint → App R Reply) (w : World R)
      → ((e : BlacklistedEndpoint)
          → first_row (λ e. e.id == id) w.db.blacklisted_endpoints ≡ some e
          → e.user_id ≢ user)
      → Refuses (owned_blacklist_endpoint user (some id) next) w
  unfolding owned_blacklist_endpoint with_found_endpoint
  endpoint-Refuses id next w h =
      Refuses-after (λ e. e.user_id ≢ user) _ _ w get_endpoint-Reads (get_endpoint-Post id w h)
        (λ e w. Refuses-pure _ w refl)
        (λ e w k.
          Refuses-if (not (e.user_id == user)) _ _ w (not_same e.user_id user k)
            (Refuses-pure _ w refl))
    where
      get_endpoint-Reads : Reads (Blacklists.get_by_id {R = R} id)
      get_endpoint-Reads =
          unfold Blacklists.get_by_id select_endpoint blocked_methods_of select_methods in
          Reads-bind _ _ (Reads-query _ (λ now d. refl))
            (λ e. Reads-bind _ _ (Reads-query _ (λ now d. refl)) (λ ms. Reads-pure _))

-- A call whose URL names first a link, session, policy or blacklist endpoint that is missing or
-- another user's is answered with status 404 and changes neither the tables nor Redis, however its
-- calls end. The ids in a body and the second id of a URL are not looked at.
pub serve_owner-IsForeign :
    {R : Type 0} (out : Outside) (user : ℕ) (call : OwnerCall) (w : World R)
    → IsForeign user call w.db
    → Refuses (serve_owner out user call) w
unfolding serve_owner handle_delete_blacklist_endpoint handle_set_blocked_methods
    handle_attach_blacklist_to_site
serve_owner-IsForeign out user (on_link (some link) call) w h = on_link-Refuses user link _ w h
serve_owner-IsForeign out user (get_session (some id)) w h = get_session-Refuses user id w h
serve_owner-IsForeign out user (delete_policy (some id)) w h = delete_policy-Refuses user id w h
serve_owner-IsForeign out user (delete_blacklist_endpoint (some id)) w h =
    endpoint-Refuses user id _ w h
serve_owner-IsForeign out user (set_blocked_methods (some id) methods) w h =
    endpoint-Refuses user id _ w h
serve_owner-IsForeign out user (attach_blacklist_to_site (some id) site) w h =
    endpoint-Refuses user id _ w h
serve_owner-IsForeign out user (on_link none call) w h = absurd h
serve_owner-IsForeign out user (get_session none) w h = absurd h
serve_owner-IsForeign out user (delete_policy none) w h = absurd h
serve_owner-IsForeign out user (delete_blacklist_endpoint none) w h = absurd h
serve_owner-IsForeign out user (set_blocked_methods none methods) w h = absurd h
serve_owner-IsForeign out user (attach_blacklist_to_site none site) w h = absurd h
serve_owner-IsForeign out user me w h = absurd h
serve_owner-IsForeign out user list_devices w h = absurd h
serve_owner-IsForeign out user list_api_keys w h = absurd h
serve_owner-IsForeign out user list_sessions w h = absurd h
serve_owner-IsForeign out user list_policies w h = absurd h
serve_owner-IsForeign out user list_blacklist w h = absurd h
serve_owner-IsForeign out user list_guests w h = absurd h
serve_owner-IsForeign out user (create_target_site req) w h = absurd h
serve_owner-IsForeign out user (create_device req) w h = absurd h
serve_owner-IsForeign out user (delete_device id) w h = absurd h
serve_owner-IsForeign out user (create_api_key req) w h = absurd h
serve_owner-IsForeign out user (revoke_api_key id) w h = absurd h
serve_owner-IsForeign out user (import_session req) w h = absurd h
serve_owner-IsForeign out user (create_policy req) w h = absurd h
serve_owner-IsForeign out user (create_blacklist_endpoint req) w h = absurd h
serve_owner-IsForeign out user (list_links status) w h = absurd h
serve_owner-IsForeign out user (create_link req) w h = absurd h
