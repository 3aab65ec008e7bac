-- ===== src/Repo/Users.antt =====
-- app/internal/repository/pgx/users.go: UserRepo, DeviceRepo, APIKeyRepo.
use session_proxy.Base.{
  ℕ, suc, String, Bool, not, Option, none, some, List, [], ◌∷◌, ◌++◌, ◌==◌, str_eq, if◌then◌else◌,
  first_row, any_row, where_rows, update_rows, take, ◌&&◌, drop,
}
use session_proxy.Domain.{User, Device, ApiKey}
use session_proxy.Store.App.{App, Statement, ok, err, constraint, query, no_rows}
use session_proxy.Repo.Order.{order_desc, one_row}

-- users.email is unique.
unfoldable pub insert_user : User → Statement User
insert_user u now d =
    let row = record u { id = d.next_id; created_at = now; updated_at = now } in
    if any_row (λ v. str_eq v.email u.email) d.users
    then (err constraint, d)
    else (ok row, record d { users = d.users ++ row ∷ []; next_id = suc d.next_id })

unfoldable pub select_user : ℕ → Statement User
select_user id now d = (one_row (first_row (λ u. u.id == id) d.users), d)

unfoldable pub select_user_by_email : String → Statement User
select_user_by_email email now d = (one_row (first_row (λ u. str_eq u.email email) d.users), d)

unfoldable pub insert_device : Device → Statement Device
insert_device v now d =
    let row = record v { id = d.next_id; last_seen_at = none; created_at = now } in
    if any_row (λ u. u.id == v.user_id) d.users
    then (ok row, record d { devices = d.devices ++ row ∷ []; next_id = suc d.next_id })
    else (err constraint, d)

unfoldable pub select_devices_of : ℕ → Statement (List Device)
select_devices_of user now d =
    (ok (order_desc (λ v. v.created_at) (where_rows (λ v. v.user_id == user) d.devices)), d)

abbrev unset_device : ℕ → Option ℕ → Option ℕ
unset_device id none = none
unset_device id (some v) = if v == id then none else some v

-- The email may not be another row's.
unfoldable pub update_user : User → Statement User
update_user u now d = elim (first_row (λ v. v.id == u.id) d.users) [
  | none ↦ (err no_rows, d)
  | some old ↦
      if any_row (λ v. not (v.id == u.id) && str_eq v.email u.email) d.users
      then (err constraint, d)
      else (
        ok (record old { email = u.email; display_name = u.display_name; updated_at = now }),
        record d {
          users =
              update_rows (λ v. v.id == u.id)
                (λ v. record v { email = u.email; display_name = u.display_name; updated_at = now })
                d.users;
        },
      )
]

unfoldable pub select_users : ℕ → ℕ → Statement (List User)
select_users limit offset now d =
    (ok (take limit (drop offset (order_desc (λ u. u.created_at) d.users))), d)

unfoldable pub select_device : ℕ → Statement Device
select_device id now d = (one_row (first_row (λ v. v.id == id) d.devices), d)

-- ON DELETE SET NULL on api_keys.device_id and original_sessions.device_id.
unfoldable pub delete_device : ℕ → Statement (Unit {0})
delete_device id now d = (
  ok tt,
  record d {
    devices = where_rows (λ v. not (v.id == id)) d.devices;
    api_keys =
        update_rows (λ k. Bool.true) (λ k. record k { device_id = unset_device id k.device_id })
          d.api_keys;
    original_sessions =
        update_rows (λ s. Bool.true) (λ s. record s { device_id = unset_device id s.device_id })
          d.original_sessions;
  },
)

abbrev pub device_exists : Option ℕ → List Device → Bool
device_exists none devices = Bool.true
device_exists (some v) devices = any_row (λ w. w.id == v) devices

unfoldable pub insert_key : ApiKey → Statement ApiKey
insert_key k now d =
    let row = record k { id = d.next_id; revoked_at = none; created_at = now } in
    if any_row (λ u. u.id == k.user_id) d.users && device_exists k.device_id d.devices
    then (ok row, record d { api_keys = d.api_keys ++ row ∷ []; next_id = suc d.next_id })
    else (err constraint, d)

unfoldable pub select_key_by_hash : String → Statement ApiKey
select_key_by_hash hash now d = (one_row (first_row (λ k. str_eq k.key_hash hash) d.api_keys), d)

unfoldable pub select_keys_of : ℕ → Statement (List ApiKey)
select_keys_of user now d =
    (ok (order_desc (λ k. k.created_at) (where_rows (λ k. k.user_id == user) d.api_keys)), d)

unfoldable pub revoke_key : ℕ → Statement (Unit {0})
revoke_key id now d = (
  ok tt,
  record d {
    api_keys = update_rows (λ k. k.id == id) (λ k. record k { revoked_at = some now }) d.api_keys;
  },
)

module _ {R : Type 0} where
  unfoldable pub create : User → App R User
  create u = query (insert_user u)

  unfoldable pub get_by_id : ℕ → App R User
  get_by_id id = query (select_user id)

  unfoldable pub get_by_email : String → App R User
  get_by_email email = query (select_user_by_email email)

  unfoldable pub create_device : Device → App R Device
  create_device v = query (insert_device v)

  unfoldable pub list_devices : ℕ → App R (List Device)
  list_devices user = query (select_devices_of user)

  unfoldable pub remove_device : ℕ → App R (Unit {0})
  remove_device id = query (delete_device id)

  unfoldable pub create_key : ApiKey → App R ApiKey
  create_key k = query (insert_key k)

  unfoldable pub get_by_hash : String → App R ApiKey
  get_by_hash hash = query (select_key_by_hash hash)

  unfoldable pub list_keys : ℕ → App R (List ApiKey)
  list_keys user = query (select_keys_of user)

  unfoldable pub revoke : ℕ → App R (Unit {0})
  revoke id = query (revoke_key id)

  unfoldable pub list : ℕ → ℕ → App R (List User)
  list limit offset = query (select_users limit offset)

  unfoldable pub update : User → App R User
  update u = query (update_user u)

  unfoldable pub get_device : ℕ → App R Device
  get_device id = query (select_device id)
