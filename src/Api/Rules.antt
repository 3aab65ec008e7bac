-- ===== src/Api/Rules.antt =====
-- app/internal/transport/http/handlers_policies.go and handlers_blacklist.go.
use session_proxy.Base.{
  ℕ, String, Bool, ◌||◌, not, Option, none, some, List, [], ◌∷◌, str_eq, ◌==◌, if◌then◌else◌,
}
use session_proxy.Base.Int.{ℤ}
use session_proxy.Base.Bytes.{Bytes}
use session_proxy.Domain.{
  AccessPolicy, BlacklistedEndpoint, pattern_type_prefix, pattern_type_regex,
}
use session_proxy.Store.App.{App, Result, ok, err, pure, attempt, ◌>>=◌}
use session_proxy.Repo.Order.{null_if_empty}
use session_proxy.Repo.Policies
use session_proxy.Repo.Blacklists
use session_proxy.Api.Sessions.{is_empty}
use session_proxy.Api.Reply.{
  Reply, write_json, write_error, no_content, internal_error, respond_or_500, policy, policies,
  endpoint, endpoints,
}

pub record CreatePolicyRequest : Type 0 where
  pub name : String
  pub max_requests : Option ℤ
  pub max_bytes_transferred : Option ℤ
  pub max_ttl_seconds : Option ℤ
  pub max_violation_count : Option ℤ

pub record CreateBlacklistRequest : Type 0 where
  pub pattern : Bytes
  pub pattern_type : String
  pub description : String
  pub methods : List Bytes

abbrev pub no_policy : Reply
no_policy = write_error 404 "policy not found"

abbrev pub no_endpoint : Reply
no_endpoint = write_error 404 "blacklist endpoint not found"

abbrev pub known_type : String → Bool
known_type t = str_eq t "" || str_eq t pattern_type_prefix || str_eq t pattern_type_regex

module _ {R : Type 0} where
  -- if len(req.Methods) > 0
  unfoldable pub store_methods : BlacklistedEndpoint → List Bytes → App R Reply
  store_methods created [] = pure (write_json 201 (endpoint created))
  store_methods created (m ∷ ms) =
      respond_or_500 (Blacklists.set_blocked_methods created.id (m ∷ ms))
        (λ _. write_json 201 (endpoint (record created { blocked_methods = m ∷ ms })))

  unfoldable pub created_endpoint : List Bytes → Result BlacklistedEndpoint → App R Reply
  unfolding store_methods
  created_endpoint methods (err e) = pure internal_error
  created_endpoint methods (ok created) = store_methods created methods

module _ {R : Type 0} (user : ℕ) where
  unfoldable pub handle_create_policy : Option CreatePolicyRequest → App R Reply
  handle_create_policy none = pure (write_error 400 "name is required")
  handle_create_policy (some req) =
      if str_eq req.name ""
      then pure (write_error 400 "name is required")
      else respond_or_500
          (Policies.create (record {
            id = 0;
            user_id = user;
            name = req.name;
            max_requests = req.max_requests;
            max_bytes_transferred = req.max_bytes_transferred;
            max_ttl_seconds = req.max_ttl_seconds;
            max_violation_count = req.max_violation_count;
            created_at = 0;
          }))
          (λ p. write_json 201 (policy p))

  unfoldable pub handle_list_policies : App R Reply
  handle_list_policies =
      respond_or_500 (Policies.list_by_user user) (λ ps. write_json 200 (policies ps))

  unfoldable pub delete_found_policy : ℕ → Result AccessPolicy → App R Reply
  delete_found_policy id (err e) = pure no_policy
  delete_found_policy id (ok p) =
      if not (p.user_id == user)
      then pure no_policy
      else respond_or_500 (Policies.delete id) (λ _. no_content)

  unfoldable pub handle_delete_policy : Option ℕ → App R Reply
  unfolding delete_found_policy
  handle_delete_policy none = pure (write_error 400 "invalid policy id")
  handle_delete_policy (some id) = do
    existing ← attempt (Policies.get_by_id id)
    delete_found_policy id existing

  unfoldable pub handle_create_blacklist_endpoint : Option CreateBlacklistRequest → App R Reply
  unfolding null_if_empty created_endpoint
  handle_create_blacklist_endpoint none = pure (write_error 400 "pattern is required")
  handle_create_blacklist_endpoint (some req) =
      if is_empty req.pattern
      then pure (write_error 400 "pattern is required")
      else if not (known_type req.pattern_type)
      then pure (write_error 400 "pattern_type must be 'prefix' or 'regex'")
      else (do
        created ← attempt (
            Blacklists.create (record {
              id = 0;
              user_id = user;
              pattern = req.pattern;
              pattern_type = req.pattern_type;
              description = null_if_empty req.description;
              created_at = 0;
              blocked_methods = [];
            }))
        created_endpoint req.methods created)

  unfoldable pub handle_list_blacklist : App R Reply
  handle_list_blacklist =
      respond_or_500 (Blacklists.list_by_user user) (λ es. write_json 200 (endpoints es))

  unfoldable pub with_found_endpoint :
      (BlacklistedEndpoint → App R Reply) → Result BlacklistedEndpoint → App R Reply
  with_found_endpoint k (err e) = pure no_endpoint
  with_found_endpoint k (ok e) = if not (e.user_id == user) then pure no_endpoint else k e

  -- A handler that goes on where its endpoint is the user's.
  unfoldable pub owned_blacklist_endpoint :
      Option ℕ → (BlacklistedEndpoint → App R Reply) → App R Reply
  unfolding with_found_endpoint
  owned_blacklist_endpoint none k = pure (write_error 400 "invalid endpoint id")
  owned_blacklist_endpoint (some id) k = do
    existing ← attempt (Blacklists.get_by_id id)
    with_found_endpoint k existing

  unfoldable pub handle_delete_blacklist_endpoint : Option ℕ → App R Reply
  unfolding owned_blacklist_endpoint
  handle_delete_blacklist_endpoint id =
      owned_blacklist_endpoint id (λ e. respond_or_500 (Blacklists.delete e.id) (λ _. no_content))

  unfoldable pub handle_set_blocked_methods : Option ℕ → Option (List Bytes) → App R Reply
  unfolding owned_blacklist_endpoint
  handle_set_blocked_methods id methods = owned_blacklist_endpoint id (λ e. elim methods [
    | none ↦ pure (write_error 400 "invalid request body")
    | some ms ↦ respond_or_500 (Blacklists.set_blocked_methods e.id ms) (λ _. no_content)
  ])

  unfoldable pub handle_attach_blacklist_to_site : Option ℕ → Option ℕ → App R Reply
  unfolding owned_blacklist_endpoint
  handle_attach_blacklist_to_site id site = owned_blacklist_endpoint id (λ e. elim site [
    | none ↦ pure (write_error 400 "invalid site id")
    | some s ↦ respond_or_500 (Blacklists.attach_to_site s e.id) (λ _. no_content)
  ])
