-- ===== src/Repo/Policies.antt =====
-- app/internal/repository/pgx/links.go: AccessPolicyRepo.
use session_proxy.Base.{
  ℕ, suc, not, ◌&&◌, ◌||◌, List, [], ◌∷◌, ◌++◌, ◌==◌, if◌then◌else◌, first_row, any_row, where_rows,
}
use session_proxy.Domain.{AccessPolicy}
use session_proxy.Store.Db.{Db, Pair}
use session_proxy.Store.App.{App, Statement, ok, err, constraint, query}
use session_proxy.Repo.Order.{order_desc, one_row}

unfoldable pub insert_policy : AccessPolicy → Statement AccessPolicy
insert_policy p now d =
    let row = record p { id = d.next_id; created_at = now } in
    if not (any_row (λ u. u.id == p.user_id) d.users) then (err constraint, d) else (
      ok row,
      record d { access_policies = d.access_policies ++ row ∷ []; next_id = suc d.next_id },
    )

unfoldable pub select_policy : ℕ → Statement AccessPolicy
select_policy id now d = (one_row (first_row (λ p. p.id == id) d.access_policies), d)

unfoldable pub select_policies_of : ℕ → Statement (List AccessPolicy)
select_policies_of user now d =
    (ok (order_desc (λ p. p.created_at) (where_rows (λ p. p.user_id == user) d.access_policies)), d)

-- ON DELETE CASCADE takes the policy's rows of link_policies with it.
unfoldable pub delete_policy : ℕ → Statement (Unit {0})
delete_policy id now d = (
  ok tt,
  record d {
    access_policies = where_rows (λ p. not (p.id == id)) d.access_policies;
    link_policies = where_rows (λ r. not (r.right == id)) d.link_policies;
  },
)

-- ON CONFLICT DO NOTHING
abbrev pub add_pair : Pair → List Pair → List Pair
add_pair r rs =
    if any_row (λ q. q.left == r.left && q.right == r.right) rs then rs else rs ++ r ∷ []

unfoldable pub insert_link_policy : ℕ → ℕ → Statement (Unit {0})
insert_link_policy link policy now d =
    if not (any_row (λ l. l.id == link) d.shared_links)
      || not (any_row (λ p. p.id == policy) d.access_policies)
    then (err constraint, d)
    else (
      ok tt,
      record d {
        link_policies = add_pair (record { left = link; right = policy }) d.link_policies;
      },
    )

-- The policies of a link through link_policies.
abbrev pub policies_of : ℕ → Db → List AccessPolicy
policies_of link d =
    where_rows (λ p. any_row (λ r. r.right == p.id && r.left == link) d.link_policies)
      d.access_policies

unfoldable pub select_policies_for : ℕ → Statement (List AccessPolicy)
select_policies_for link now d = (ok (policies_of link d), d)

module _ {R : Type 0} where
  unfoldable pub create : AccessPolicy → App R AccessPolicy
  create p = query (insert_policy p)

  unfoldable pub get_by_id : ℕ → App R AccessPolicy
  get_by_id id = query (select_policy id)

  unfoldable pub list_by_user : ℕ → App R (List AccessPolicy)
  list_by_user user = query (select_policies_of user)

  unfoldable pub delete : ℕ → App R (Unit {0})
  delete id = query (delete_policy id)

  unfoldable pub attach_to_link : ℕ → ℕ → App R (Unit {0})
  attach_to_link link policy = query (insert_link_policy link policy)

  unfoldable pub list_for_link : ℕ → App R (List AccessPolicy)
  list_for_link link = query (select_policies_for link)
