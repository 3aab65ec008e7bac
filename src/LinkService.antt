-- ===== src/LinkService.antt =====
-- app/internal/service/link_service.go. Wrapped errors keep their cause, which is what is modelled.
pub mod Status
pub mod Termination
pub mod Owner
mod Tests
use session_proxy.Base.{
  ℕ, zero, suc, String, Bool, not, Option, none, some, List, [], ◌∷◌, ◌==◌, str_eq, if◌then◌else◌,
  ltb, length, take,
}
use session_proxy.Base.Int.{ℤ, pos, ltb_ℤ, add_duration}
use session_proxy.Base.Bytes.{Bytes}
use session_proxy.Base64.{encode_raw_url}
use session_proxy.Domain.{
  SharedLink, OriginalSession, LinkTermination, session_status_active, link_status_terminated,
  reason_manual,
}
use session_proxy.Store.App.{
  App, World, Result, ok, err, Error, entropy, session_not_owned, session_not_active,
  link_not_owned, link_already_terminated, pure, throw, attempt, gets, ◌>>=◌, ◌>>◌,
}
use session_proxy.Repo.Order.{null_if_empty}
use session_proxy.Repo.Links
use session_proxy.Repo.Policies
use session_proxy.Repo.Blacklists
use session_proxy.Repo.Sessions
use session_proxy.Repo.Logs.{create_termination}

pub record CreateLinkInput : Type 0 where
  pub original_session_id : ℕ
  pub label : String
  pub ttl : ℤ
  pub policy_ids : List ℕ
  pub endpoint_ids : List ℕ

-- CreateLink returns the link beside the error of an attach call.
pub record Created : Type 0 where
  pub link : SharedLink
  pub attached : Result (Unit {0})

abbrev pub random_read : {R : Type 0} → World R → List Bytes → ℕ → Result Bytes × World R
random_read w [] n = (err entropy, w)
random_read w (b ∷ bs) n =
    if length b == n
    then (ok b, record w { random = bs })
    else (err entropy, record w { random = bs })

-- `expiry := time.Now().Add(in.TTL)`, if in.TTL > 0
abbrev pub expiry : ℤ → ℕ → Option ℤ
expiry ttl now = if ltb_ℤ (pos 0) ttl then some (add_duration now ttl) else none

module _ {R : Type 0} where
  -- rand.Read into a buffer of n bytes
  unfoldable pub read_random : ℕ → App R Bytes
  read_random n w = random_read w w.random n

  unfoldable pub generate_link_token : App R Bytes
  generate_link_token = do raw ← read_random 24; pure (encode_raw_url raw)

  unfoldable pub attach_policies : ℕ → List ℕ → App R (Unit {0})
  attach_policies link [] = pure tt
  attach_policies link (p ∷ ps) = do Policies.attach_to_link link p; attach_policies link ps

  unfoldable pub attach_endpoints : ℕ → List ℕ → App R (Unit {0})
  attach_endpoints link [] = pure tt
  attach_endpoints link (e ∷ es) = do Blacklists.attach_to_link link e; attach_endpoints link es

  unfoldable pub store_link : CreateLinkInput → App R Created
  unfolding null_if_empty
  store_link input = do
    token ← generate_link_token
    now ← gets (λ w. w.now)
    created ← Links.create (record {
      id = 0;
      original_session_id = input.original_session_id;
      token = token;
      status = "";
      label = null_if_empty input.label;
      created_at = 0;
      expires_at = expiry input.ttl now;
    })
    attached ← attempt (do
      attach_policies created.id input.policy_ids
      attach_endpoints created.id input.endpoint_ids)
    pure (record { link = created; attached = attached })

  unfoldable pub create_link : ℕ → CreateLinkInput → App R Created
  create_link user input = do
    session ← Sessions.get_by_id input.original_session_id
    if not (session.user_id == user)
        then throw session_not_owned
        else if not (str_eq session.status session_status_active)
        then throw session_not_active
        else store_link input

  -- The writes that both ways to terminate a link end with.
  unfoldable pub record_termination : LinkTermination → App R (Unit {0})
  record_termination t = do
    Links.update_status t.shared_link_id link_status_terminated
    create_termination t

  unfoldable pub terminate_link : ℕ → ℕ → String → App R (Unit {0})
  unfolding null_if_empty
  terminate_link user link notes = do
    owner ← Links.owner_user_id link
    if not (owner == user) then throw link_not_owned else do
      l ← Links.get_by_id link
      if str_eq l.status link_status_terminated
          then throw link_already_terminated
          else record_termination (record {
            shared_link_id = link;
            reason_code = reason_manual;
            terminated_by = some user;
            notes = null_if_empty notes;
            terminated_at = 0;
          })

  unfoldable pub auto_terminate : ℕ → String → App R (Unit {0})
  auto_terminate link reason = do
    l ← Links.get_by_id link
    if str_eq l.status link_status_terminated
        then pure tt
        else record_termination (record {
          shared_link_id = link;
          reason_code = reason;
          terminated_by = none;
          notes = none;
          terminated_at = 0;
        })
