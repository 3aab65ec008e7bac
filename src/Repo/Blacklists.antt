-- ===== src/Repo/Blacklists.antt =====
-- app/internal/repository/pgx/links.go: BlacklistRepo.
use session_proxy.Base.{
  ℕ, suc, Bool, not, ◌&&◌, ◌||◌, List, [], ◌∷◌, ◌++◌, map, ◌==◌, if◌then◌else◌, first_row, any_row,
  where_rows,
}
use session_proxy.Base.Bytes.{Bytes, bytes_eq}
use session_proxy.Domain.{BlacklistedEndpoint, pattern_type_prefix}
use session_proxy.Store.Db.{Db}
use session_proxy.Store.App.{App, Statement, ok, err, constraint, query, pure, ◌>>=◌, ◌>>◌}
use session_proxy.Repo.Order.{order_desc, one_row, null_if_empty, coalesce}
use session_proxy.Repo.Policies.{add_pair}

unfoldable pub insert_endpoint : BlacklistedEndpoint → Statement BlacklistedEndpoint
unfolding null_if_empty
insert_endpoint e now d =
    let row = record e {
      id = d.next_id;
      pattern_type = coalesce (null_if_empty e.pattern_type) pattern_type_prefix;
      created_at = now;
      blocked_methods = [];
    } in
    if not (any_row (λ u. u.id == e.user_id) d.users) then (err constraint, d) else (
      ok row,
      record d {
        blacklisted_endpoints = d.blacklisted_endpoints ++ row ∷ [];
        next_id = suc d.next_id;
      },
    )

unfoldable pub select_endpoint : ℕ → Statement BlacklistedEndpoint
select_endpoint id now d = (one_row (first_row (λ e. e.id == id) d.blacklisted_endpoints), d)

unfoldable pub select_endpoints_of : ℕ → Statement (List BlacklistedEndpoint)
select_endpoints_of user now d = (
  ok (order_desc (λ e. e.created_at) (where_rows (λ e. e.user_id == user) d.blacklisted_endpoints)),
  d,
)

-- ON DELETE CASCADE takes the endpoint's rows of three tables with it.
unfoldable pub delete_endpoint : ℕ → Statement (Unit {0})
delete_endpoint id now d = (
  ok tt,
  record d {
    blacklisted_endpoints = where_rows (λ e. not (e.id == id)) d.blacklisted_endpoints;
    blocked_methods = where_rows (λ m. not (m.endpoint_id == id)) d.blocked_methods;
    site_endpoint_rules = where_rows (λ r. not (r.right == id)) d.site_endpoint_rules;
    link_endpoint_rules = where_rows (λ r. not (r.right == id)) d.link_endpoint_rules;
  },
)

abbrev has_endpoint : ℕ → Db → Bool
has_endpoint id d = any_row (λ e. e.id == id) d.blacklisted_endpoints

unfoldable pub insert_site_rule : ℕ → ℕ → Statement (Unit {0})
insert_site_rule site endpoint now d =
    if not (any_row (λ t. t.id == site) d.target_sites) || not (has_endpoint endpoint d)
    then (err constraint, d)
    else (
      ok tt,
      record d {
        site_endpoint_rules =
            add_pair (record { left = site; right = endpoint }) d.site_endpoint_rules;
      },
    )

unfoldable pub insert_link_rule : ℕ → ℕ → Statement (Unit {0})
insert_link_rule link endpoint now d =
    if not (any_row (λ l. l.id == link) d.shared_links) || not (has_endpoint endpoint d)
    then (err constraint, d)
    else (
      ok tt,
      record d {
        link_endpoint_rules =
            add_pair (record { left = link; right = endpoint }) d.link_endpoint_rules;
      },
    )

unfoldable pub delete_methods : ℕ → Statement (Unit {0})
delete_methods endpoint now d = (
  ok tt,
  record d {
    blocked_methods = where_rows (λ m. not (m.endpoint_id == endpoint)) d.blocked_methods;
  },
)

-- The primary key is the pair of endpoint and method.
unfoldable pub insert_method : ℕ → Bytes → Statement (Unit {0})
insert_method endpoint method now d =
    if not (has_endpoint endpoint d)
      || any_row (λ m. m.endpoint_id == endpoint && bytes_eq m.http_method method) d.blocked_methods
    then (err constraint, d)
    else (
      ok tt,
      record d {
        blocked_methods =
            d.blocked_methods ++ record { endpoint_id = endpoint; http_method = method } ∷ [];
      },
    )

abbrev pub methods_of : ℕ → Db → List Bytes
methods_of endpoint d =
    map (λ m. m.http_method) (where_rows (λ m. m.endpoint_id == endpoint) d.blocked_methods)

unfoldable pub select_methods : ℕ → Statement (List Bytes)
select_methods endpoint now d = (ok (methods_of endpoint d), d)

-- The UNION of the rules of the site and of the link: each endpoint once.
abbrev pub rules_of : ℕ → ℕ → Db → List BlacklistedEndpoint
rules_of link site d =
    where_rows
      (λ e.
        any_row (λ r. r.right == e.id && r.left == site) d.site_endpoint_rules
        || any_row (λ r. r.right == e.id && r.left == link) d.link_endpoint_rules)
      d.blacklisted_endpoints

unfoldable pub select_rules : ℕ → ℕ → Statement (List BlacklistedEndpoint)
select_rules link site now d = (ok (rules_of link site d), d)

module _ {R : Type 0} where
  unfoldable pub blocked_methods_of : ℕ → App R (List Bytes)
  blocked_methods_of endpoint = query (select_methods endpoint)

  -- The loop `for i := range out` that fills in the methods, a query for each row.
  unfoldable pub with_methods : List BlacklistedEndpoint → App R (List BlacklistedEndpoint)
  with_methods [] = pure []
  with_methods (e ∷ es) = do
    methods ← blocked_methods_of e.id
    rest ← with_methods es
    pure (record e { blocked_methods = methods } ∷ rest)

  unfoldable pub create : BlacklistedEndpoint → App R BlacklistedEndpoint
  create e = query (insert_endpoint e)

  unfoldable pub get_by_id : ℕ → App R BlacklistedEndpoint
  get_by_id id = do
    e ← query (select_endpoint id)
    methods ← blocked_methods_of e.id
    pure (record e { blocked_methods = methods })

  unfoldable pub list_by_user : ℕ → App R (List BlacklistedEndpoint)
  list_by_user user = do es ← query (select_endpoints_of user); with_methods es

  unfoldable pub delete : ℕ → App R (Unit {0})
  delete id = query (delete_endpoint id)

  unfoldable pub attach_to_site : ℕ → ℕ → App R (Unit {0})
  attach_to_site site endpoint = query (insert_site_rule site endpoint)

  unfoldable pub attach_to_link : ℕ → ℕ → App R (Unit {0})
  attach_to_link link endpoint = query (insert_link_rule link endpoint)

  unfoldable pub insert_methods : ℕ → List Bytes → App R (Unit {0})
  insert_methods endpoint [] = pure tt
  insert_methods endpoint (m ∷ ms) = do query (insert_method endpoint m); insert_methods endpoint ms

  unfoldable pub set_blocked_methods : ℕ → List Bytes → App R (Unit {0})
  unfolding insert_methods
  set_blocked_methods endpoint methods = do
    query (delete_methods endpoint)
    insert_methods endpoint methods

  unfoldable pub rules_for_link : ℕ → ℕ → App R (List BlacklistedEndpoint)
  rules_for_link link site = do es ← query (select_rules link site); with_methods es
