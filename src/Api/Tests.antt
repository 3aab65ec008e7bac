-- ===== src/Api/Tests.antt =====
-- Tests and witnesses of Api.
use session_proxy.Base.{◌+◌, ◌*◌, ◌≡◌, refl, ◌≢◌, true, none, some, [], ◌∷◌, arith}
use session_proxy.Base.Int.{pos, floor_micros}
use session_proxy.Base.Bytes.{codes}
use session_proxy.Domain.{SharedLink}
use session_proxy.Store.App.{World, ok, query, settle, ◌>>=◌}
use session_proxy.Store.Redis.{MapStore}
use session_proxy.Store.Sample.{start, tables}
use session_proxy.Crypto.Tests.{plain}
use session_proxy.LinkService.{
  create_link, store_link, generate_link_token, read_random, attach_policies, attach_endpoints,
}
use session_proxy.Repo.Order.{null_if_empty}
use session_proxy.Repo.Links.{insert_link, select_owner}
use session_proxy.Repo.Links
use session_proxy.Repo.Sessions.{select_session}
use session_proxy.Repo.Sessions
use session_proxy.Base64.{encode_raw_url}
use session_proxy.Base.Int.{seconds_to_duration}
use session_proxy.Api.Reply.{write_json, link}
use session_proxy.Api.Links.{CreateLinkRequest, handle_create_link, ttl_of}
use session_proxy.Api.Links.Expiry.{handle_create_link_expiry}
use session_proxy.Api.Router.{
  Outside, on_link, terminate_link, me, authenticated, serve_owner, serve_api,
}
use session_proxy.Api.Router.Credential.{Guarded, serve_api_authenticated}
use session_proxy.Api.Router.Ownership.{Refuses}
use session_proxy.Api.Router.Ownership.Refused.{serve_owner-IsForeign}

-- Every token is the JWT of user 1.
abbrev out : Outside
out = record {
  sha256_hex = λ b. "d";
  hash_password = λ p. ok p;
  compare_password = λ h p. true;
  issue_jwt = λ user now. ok [];
  verify_jwt = λ now token. ok 1;
  aead = plain;
  mv_link_stats = λ link. none;
  order_by_name = λ sites. sites;
}

serve_api_authenticated_example :
    Guarded out.sha256_hex out.verify_jwt
      (λ user. serve_owner out user me)
      (codes "Bearer x")
      (serve_api out (codes "Bearer x") (authenticated me))
      start
serve_api_authenticated_example = serve_api_authenticated out (codes "Bearer x") me start

owner_is_1 : (select_owner 4 0 tables).0 ≡ ok 1
unfolding select_owner
owner_is_1 = refl

not_of_2 : (select_owner 4 0 tables).0 ≢ ok 2
not_of_2 q = absurd (ground (arith, owner_is_1, q))

-- User 2 and the link of user 1
serve_owner-IsForeign_example :
    Refuses (serve_owner out 2 (on_link (some 4) (terminate_link ""))) start
serve_owner-IsForeign_example =
    serve_owner-IsForeign out 2 (on_link (some 4) (terminate_link "")) start not_of_2

abbrev request : CreateLinkRequest
request = record {
  original_session_id = 3;
  label = "";
  ttl_seconds = pos 60;
  policy_ids = [];
  endpoint_ids = [];
}

abbrev before : World MapStore
before = record start {
  random =
      (0 ∷ 0 ∷ 0 ∷ 0 ∷ 0 ∷ 0 ∷ 0 ∷ 0 ∷ 0 ∷ 0 ∷ 0 ∷ 0 ∷ 0 ∷ 0 ∷ 0 ∷ 0 ∷ 0 ∷ 0 ∷ 0 ∷ 0 ∷ 0 ∷ 0 ∷ 0 ∷ 0
        ∷ [])
      ∷ [];
}

abbrev created : SharedLink
created = record {
  id = 6;
  original_session_id = 3;
  token = codes "AAAAAAAAAAAAAAAAAAAAAAAAAAAAAAAA";
  status = "active";
  label = none;
  created_at = 100;
  expires_at = some (pos 60000000000);
}

abbrev after : World MapStore
after = (handle_create_link 1 (some request) before).1

link_is_created :
    handle_create_link 1 (some request) before ≡ (ok (write_json 201 (link created)), after)
unfolding handle_create_link create_link store_link generate_link_token read_random attach_policies
    attach_endpoints ttl_of seconds_to_duration null_if_empty insert_link Links.create
    select_session Sessions.get_by_id encode_raw_url query settle ◌>>=◌
link_is_created = refl

handle_create_link_expiry_example :
    created.expires_at ≡ some (floor_micros (pos (100 + 60 * 1000000000)))
handle_create_link_expiry_example =
    handle_create_link_expiry 1 60 request created before after refl (omega arith) (omega arith)
      link_is_created
