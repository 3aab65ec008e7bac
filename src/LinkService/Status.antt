-- ===== src/LinkService/Status.antt =====
-- A link that is terminated stays so, whatever the services do and however their calls end.
use session_proxy.Base.{
  ℕ, suc, ◌<◌, ◌≡◌, refl, String, true, List, [], ◌∷◌, ◌++◌, arith, ◌==◌, All, All-append,
  update_rows, Bool-cases, inl, inr,
}
use session_proxy.Base.Bytes.{Bytes}
use session_proxy.Domain.{SharedLink, LinkTermination, link_status_terminated}
use session_proxy.Store.Db.{Db}
use session_proxy.Store.App.{App, World, Statement, query}
use session_proxy.Store.Keeps.{Keeps, OfDb, Keeps-query, Keeps-bind, keeps_rules}
use session_proxy.Repo.Links.{
  insert_link, select_link, update_link_status, set_status, select_owner, link_by_id, conflicts,
}
use session_proxy.Repo.Links
use session_proxy.Repo.Policies.{insert_link_policy}
use session_proxy.Repo.Policies
use session_proxy.Repo.Blacklists.{insert_link_rule}
use session_proxy.Repo.Blacklists
use session_proxy.Repo.Sessions
use session_proxy.Repo.Sessions.{select_session}
use session_proxy.Repo.Logs.{insert_termination, create_termination}
use session_proxy.LinkService

-- Every row of the id is terminated, and the id was given out before.
abbrev pub IsTerminated : ℕ → Db → Type 0
IsTerminated id d =
    (id < d.next_id)
    × All (λ l. (l.id == id) ≡ true → l.status ≡ link_status_terminated) d.shared_links

-- A statement keeps every terminated link.
abbrev pub Safe : {A : Type 0} → Statement A → Type 0
Safe q = (id now : ℕ) (d : Db) → IsTerminated id d → IsTerminated id (q now d).1

-- A new row has an id that no earlier row has.
insert_row :
    (id : ℕ) (d : Db) (row : SharedLink)
    → row.id ≡ d.next_id
    → IsTerminated id d
    → IsTerminated id
        (record d { shared_links = d.shared_links ++ row ∷ []; next_id = suc d.next_id })
insert_row id d row e h =
    (omega arith, All-append _ d.shared_links (row ∷ []) h.1 ((λ k. absurd (ground arith)), tt))

insert_link-Safe : (l : SharedLink) → Safe (insert_link l)
unfolding insert_link
insert_link-Safe l id now d h = elim (Bool-cases (conflicts l d)) [
  | inl e ↦ rw e h
  | inr e ↦ rw e (insert_row id d _ refl h)
]

update_rows-terminated :
    (id other : ℕ) (ls : List SharedLink)
    → All (λ l. (l.id == id) ≡ true → l.status ≡ link_status_terminated) ls
    → All
        (λ l. (l.id == id) ≡ true → l.status ≡ link_status_terminated)
        (update_rows (link_by_id other) (set_status link_status_terminated) ls)
unfolding set_status
update_rows-terminated id other [] h = tt
update_rows-terminated id other (l ∷ ls) h = elim (Bool-cases (l.id == other)) [
  | inl e ↦ simp e ((λ k. refl), update_rows-terminated id other ls h.1)
  | inr e ↦ simp e (h.0, update_rows-terminated id other ls h.1)
]

pub update_link_status-Safe : (link : ℕ) → Safe (update_link_status link link_status_terminated)
unfolding update_link_status
update_link_status-Safe link id now d h = (h.0, update_rows-terminated id link d.shared_links h.1)

insert_link_policy-Safe : (link policy : ℕ) → Safe (insert_link_policy link policy)
unfolding insert_link_policy
insert_link_policy-Safe link policy id now d h = ground arith

insert_link_rule-Safe : (link endpoint : ℕ) → Safe (insert_link_rule link endpoint)
unfolding insert_link_rule
insert_link_rule-Safe link endpoint id now d h = ground arith

pub insert_termination-Safe : (t : LinkTermination) → Safe (insert_termination t)
unfolding insert_termination
insert_termination-Safe t id now d h = ground arith

-- Reads change no table.
module _ {R : Type 0} (id : ℕ) where
  abbrev pub KeepsTerminated : {A : Type 0} → App R A → Type 0
  KeepsTerminated m = Keeps (OfDb (IsTerminated id)) m

  pub query-Safe : {A : Type 0} (q : Statement A) → Safe q → KeepsTerminated (query q)
  query-Safe q s = Keeps-query (IsTerminated id) q (λ now d h. s id now d h)

  owner-Keeps : (link : ℕ) → KeepsTerminated (Links.owner_user_id link)
  owner-Keeps link =
      unfold Links.owner_user_id in query-Safe _ (λ i now d h. unfold select_owner in h)

  link-Keeps : (link : ℕ) → KeepsTerminated (Links.get_by_id link)
  link-Keeps link = unfold Links.get_by_id in query-Safe _ (λ i now d h. unfold select_link in h)

  session-Keeps : (session : ℕ) → KeepsTerminated (Sessions.get_by_id session)
  session-Keeps session =
      unfold Sessions.get_by_id in query-Safe _ (λ i now d h. unfold select_session in h)

  create-Keeps : (l : SharedLink) → KeepsTerminated (Links.create l)
  create-Keeps l = unfold Links.create in query-Safe _ (insert_link-Safe l)

  update-Keeps : (link : ℕ) → KeepsTerminated (Links.update_status link link_status_terminated)
  update-Keeps link = unfold Links.update_status in query-Safe _ (update_link_status-Safe link)

  policy-Keeps : (link policy : ℕ) → KeepsTerminated (Policies.attach_to_link link policy)
  policy-Keeps link policy =
      unfold Policies.attach_to_link in query-Safe _ (insert_link_policy-Safe link policy)

  rule-Keeps : (link endpoint : ℕ) → KeepsTerminated (Blacklists.attach_to_link link endpoint)
  rule-Keeps link endpoint =
      unfold Blacklists.attach_to_link in query-Safe _ (insert_link_rule-Safe link endpoint)

  termination-Keeps : (t : LinkTermination) → KeepsTerminated (create_termination t)
  termination-Keeps t = unfold create_termination in query-Safe _ (insert_termination-Safe t)

  ruleset repo_rules = (
    keeps_rules, owner-Keeps, link-Keeps, session-Keeps, create-Keeps, update-Keeps, policy-Keeps,
    rule-Keeps, termination-Keeps,
  )

  record_termination-Keeps :
      (t : LinkTermination) → KeepsTerminated (LinkService.record_termination t)
  unfolding LinkService.record_termination
  record_termination-Keeps t = search repo_rules

  pub auto_terminate-Keeps :
      (link : ℕ) (reason : String) → KeepsTerminated (LinkService.auto_terminate link reason)
  unfolding LinkService.auto_terminate
  auto_terminate-Keeps link reason = search (repo_rules, record_termination-Keeps)

  pub terminate_link-Keeps :
      (user link : ℕ) (notes : String)
      → KeepsTerminated (LinkService.terminate_link user link notes)
  unfolding LinkService.terminate_link
  terminate_link-Keeps user link notes = search (repo_rules, record_termination-Keeps) depth 8

  attach_policies-Keeps :
      (link : ℕ) (ps : List ℕ) → KeepsTerminated (LinkService.attach_policies link ps)
  unfolding LinkService.attach_policies
  attach_policies-Keeps link [] = search repo_rules
  attach_policies-Keeps link (p ∷ ps) =
      Keeps-bind _ _ (policy-Keeps link p) (λ _. attach_policies-Keeps link ps)

  attach_endpoints-Keeps :
      (link : ℕ) (es : List ℕ) → KeepsTerminated (LinkService.attach_endpoints link es)
  unfolding LinkService.attach_endpoints
  attach_endpoints-Keeps link [] = search repo_rules
  attach_endpoints-Keeps link (e ∷ es) =
      Keeps-bind _ _ (rule-Keeps link e) (λ _. attach_endpoints-Keeps link es)

  random-db : (w : World R) (bs : List Bytes) (n : ℕ) → (LinkService.random_read w bs n).1.db ≡ w.db
  random-db w [] n = refl
  random-db w (b ∷ bs) n = ground arith

  read_random-Keeps : (n : ℕ) → KeepsTerminated (LinkService.read_random n)
  unfolding LinkService.read_random
  read_random-Keeps n = record { at = λ w h. rw (random-db w w.random n) h }

  token-Keeps : KeepsTerminated LinkService.generate_link_token
  unfolding LinkService.generate_link_token
  token-Keeps = search (keeps_rules, read_random-Keeps)

  store_link-Keeps :
      (input : LinkService.CreateLinkInput) → KeepsTerminated (LinkService.store_link input)
  unfolding LinkService.store_link
  store_link-Keeps input =
      search (repo_rules, token-Keeps, attach_policies-Keeps, attach_endpoints-Keeps) depth 9

  pub create_link-Keeps :
      (user : ℕ) (input : LinkService.CreateLinkInput)
      → KeepsTerminated (LinkService.create_link user input)
  unfolding LinkService.create_link
  create_link-Keeps user input = search (repo_rules, store_link-Keeps) depth 8
