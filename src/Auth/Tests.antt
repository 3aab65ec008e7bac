-- ===== src/Auth/Tests.antt =====
-- A stored key, and the theorem of Auth at it.
use session_proxy.Base.{◌≡◌, refl, String, none, some, [], ◌∷◌}
use session_proxy.Base.Bytes.{Bytes, codes}
use session_proxy.Domain.{ApiKey}
use session_proxy.Store.App.{World, ok, query, settle, ◌>>=◌}
use session_proxy.Store.Redis.{MapStore}
use session_proxy.Store.Sample.{start}
use session_proxy.Repo.Users.{select_key_by_hash}
use session_proxy.Repo.Users
use session_proxy.Auth.{accept_key, judge_key, verify_api_key, pos}
use session_proxy.Auth.Keys.{IsValidKey, verify_api_key_sound}

abbrev digest : Bytes → String
digest raw = "d"

abbrev stored_key : ApiKey
stored_key = record {
  id = 9;
  user_id = 1;
  device_id = none;
  key_hash = "d";
  label = none;
  revoked_at = none;
  expires_at = some (pos 200);
  created_at = 0;
}

abbrev keyed : World MapStore
keyed = record start { db = record start.db { api_keys = stored_key ∷ [] } }

key_is_accepted : verify_api_key digest (codes "spk_x") keyed ≡ (ok 1, keyed)
unfolding verify_api_key judge_key accept_key Users.get_by_hash select_key_by_hash query settle
    ◌>>=◌
key_is_accepted = refl

verify_api_key_sound_example : IsValidKey "d" 1 100 keyed.db
verify_api_key_sound_example =
    verify_api_key_sound digest (codes "spk_x") 1 keyed keyed key_is_accepted
