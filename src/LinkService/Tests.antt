-- ===== src/LinkService/Tests.antt =====
-- The sample link shared and terminated, and the theorems of LinkService at it.
use session_proxy.Base.{◌≡◌, ◌≢◌, refl, String, some, [], ◌∷◌, arith, first_row}
use session_proxy.Base.Int.{pos}
use session_proxy.Base.Bytes.{codes}
use session_proxy.Store.App.{World, ok, Result, answered, refused, query, settle, ◌>>=◌}
use session_proxy.Store.Redis.{MapStore}
use session_proxy.Store.Sample.{start, link}
use session_proxy.Repo.Links.{link_by_id, select_owner}
use session_proxy.Repo.Links.{insert_link}
use session_proxy.Repo.Links
use session_proxy.Repo.Order.{null_if_empty}
use session_proxy.Repo.Sessions.{select_session}
use session_proxy.Repo.Sessions
use session_proxy.Base64.{encode_raw_url, letter}
use session_proxy.Repo.Logs.{terminations_of}
use session_proxy.LinkService
use session_proxy.LinkService.Termination.{
  automatic, auto_terminate_once, auto_terminate_without_record,
}
use session_proxy.LinkService.Owner.{MayShare, create_link_owner_only, terminate_link_owner_only}

abbrev stopped : World MapStore
stopped = (LinkService.auto_terminate 4 "request_limit" start).1

auto_terminate_once_example :
    ((LinkService.auto_terminate 4 "request_limit" start).0 ≡ ok tt)
    × ((first_row (link_by_id 4) stopped.db.shared_links
          ≡ some (record link { status = "terminated" }))
        × ((terminations_of 4 stopped.db ≡ automatic 4 "request_limit" 100 ∷ [])
            × ((again : String) → LinkService.auto_terminate 4 again stopped ≡ (ok tt, stopped))))
auto_terminate_once_example = auto_terminate_once 4 "request_limit" start link refl refl refl refl

abbrev cut_off : World MapStore
cut_off = record start { outcomes = answered ∷ answered ∷ refused ∷ [] }

abbrev half : World MapStore
half = (LinkService.auto_terminate 4 "request_limit" cut_off).1

auto_terminate_without_record_example :
    (first_row (link_by_id 4) half.db.shared_links ≡ some (record link { status = "terminated" }))
    × ((terminations_of 4 half.db ≡ [])
        × ((again : String) → LinkService.auto_terminate 4 again half ≡ (ok tt, half)))
auto_terminate_without_record_example =
    auto_terminate_without_record 4 "request_limit" cut_off link refl refl refl

owner_is_one : (select_owner 4 100 start.db).0 ≡ ok 1
unfolding select_owner
owner_is_one = refl

terminate_link_owner_only_example :
    ((LinkService.terminate_link 7 4 "" start).1.db ≡ start.db)
    × ((LinkService.terminate_link 7 4 "" start).0 ≢ ok tt)
terminate_link_owner_only_example =
    terminate_link_owner_only 7 4 1 "" start owner_is_one (omega arith)

abbrev input : LinkService.CreateLinkInput
input = record {
  original_session_id = 3;
  label = "";
  ttl = pos 0;
  policy_ids = [];
  endpoint_ids = [];
}

abbrev seeded : World MapStore
seeded = record start { random = codes "012345678901234567890123" ∷ [] }

abbrev made : Result LinkService.Created × World MapStore
made = LinkService.create_link 1 input seeded

abbrev stored : LinkService.Created
stored = record {
  link = record link { id = 6; token = codes "MDEyMzQ1Njc4OTAxMjM0NTY3ODkwMTIz"; created_at = 100 };
  attached = ok tt;
}

made_ok : made ≡ (ok stored, made.1)
unfolding LinkService.create_link LinkService.store_link LinkService.generate_link_token
    LinkService.read_random LinkService.attach_policies LinkService.attach_endpoints Links.create
    insert_link Sessions.get_by_id select_session encode_raw_url letter null_if_empty query settle
    ◌>>=◌
made_ok = refl

create_link_owner_only_example : MayShare 1 3 start.db
create_link_owner_only_example = create_link_owner_only 1 input seeded made.1 stored made_ok
