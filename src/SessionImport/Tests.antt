-- ===== src/SessionImport/Tests.antt =====
-- Tests and witnesses of SessionImport: one cookie and one token of the sample's owner.
use mathlib.Core.List.{Permᴰ, List}
use session_proxy.Base.{refl, true, none, [], ◌∷◌, arith, List}
use session_proxy.Base.Bytes.{codes}
use session_proxy.Domain.{OriginalSession, session_status_active}
use session_proxy.Store.App.{World, ◌>>=◌, query, settle}
use session_proxy.Store.Redis.{MapStore}
use session_proxy.Store.Sample.{start}
use session_proxy.Base64.Std.{encode, letter}
use session_proxy.LinkService.{read_random}
use session_proxy.Repo.Order.{null_if_empty}
use session_proxy.Repo.Sessions.{
  get_or_create_by_domain, select_site_by_domain, create, insert_session, create_cookies,
  insert_cookie, create_tokens, insert_token, create_site, insert_site, site_or_created,
}
use session_proxy.Proxy.Handler.{build_injection_plan}
use session_proxy.Crypto.{decrypt, encrypt}
use session_proxy.Crypto.Tests.{plain}
use session_proxy.SessionImport.{
  CookieInput, TokenInput, import_session, store_cookies, encrypt_cookies, store_tokens,
  encrypt_tokens,
}
use session_proxy.SessionImport.Injected.{Injects, import_session-injected}

abbrev cookie : CookieInput
cookie = record {
  name = codes "sid";
  value = codes "v";
  domain = [];
  path = [];
  secure = true;
  http_only = true;
  same_site = [];
}

abbrev token : TokenInput
token = record { token_type = []; header_name = []; value = codes "Bearer t" }

abbrev before : World MapStore
before = record start { random = (1 ∷ 2 ∷ []) ∷ (3 ∷ 4 ∷ []) ∷ [] }

abbrev imported : OriginalSession
imported = record {
  id = 6;
  user_id = 1;
  target_site_id = 2;
  device_id = none;
  status = session_status_active;
  label = none;
  imported_at = 100;
  expires_at = none;
}

abbrev after : World MapStore
after =
    (import_session plain 1 "b.example" "b" (codes "https://b.example") (cookie ∷ []) (token ∷ [])
      before).1

same_rows : {A : Type 0} (rows : List A) → Permᴰ rows rows
same_rows [] = Permᴰ.nil
same_rows (r ∷ rows) = Permᴰ.cons refl (same_rows rows)

import_session-injected_example :
    Injects (cookie ∷ []) (token ∷ []) (build_injection_plan (decrypt plain) 6 after).0
unfolding import_session ◌>>=◌ get_or_create_by_domain query select_site_by_domain create
    insert_session store_cookies encrypt_cookies encrypt read_random create_cookies insert_cookie
    store_tokens encrypt_tokens create_tokens insert_token encode letter null_if_empty create_site
    insert_site site_or_created settle
import_session-injected_example =
    import_session-injected plain 1 "b.example" "b" (codes "https://b.example") (cookie ∷ [])
      (token ∷ []) imported before after after (ground arith) (ground arith) (tt, tt) (ground arith)
      refl refl (same_rows, same_rows) refl
