-- ===== src/SessionImport/Fresh.antt =====
-- No row belongs to a session that is still to come.
use session_proxy.Base.{ℕ, suc, ◌<◌, String, ◌≡◌, refl, List, [], ◌∷◌, arith, ◌==◌, where_rows, All}
use session_proxy.Base.Bytes.{Bytes}
use session_proxy.Base64.Std.RoundTrip.{IsBytes}
use session_proxy.Domain.{TargetSite, TargetSite}
use session_proxy.Store.Db.{Db}
use session_proxy.Store.App.{World, Result, ok, err, query, ◌>>=◌}
use session_proxy.Store.Keeps.{Keeps, Keeps-query, Keeps-bind, Keeps-attempt}
use session_proxy.Repo.Sessions.{
  insert_site, insert_session, select_site_by_domain, create_site, site_or_created, select_cookies,
  select_tokens, list_cookies, list_tokens,
}
use session_proxy.Repo.Sessions

-- No stored cookie or token is of a session that does not exist yet.
abbrev pub IsFresh : Db → Type 0
IsFresh d =
    All (λ c. c.original_session_id < d.next_id) d.session_cookies
    × All (λ t. t.original_session_id < d.next_id) d.session_tokens

pub All-later :
    {A : Type 0} (f : A → ℕ) (n : ℕ) (xs : List A)
    → All (λ x. f x < n) xs
    → All (λ x. f x < suc n) xs
All-later f n [] h = tt
All-later f n (x ∷ xs) h = (omega (arith, h.0), All-later f n xs h.1)

pub where_rows-below :
    {A : Type 0} (f : A → ℕ) (n : ℕ) (xs : List A)
    → All (λ x. f x < n) xs
    → where_rows (λ x. f x == n) xs ≡ []
where_rows-below f n [] h = refl
where_rows-below f n (x ∷ xs) h = ground (arith, h.0, where_rows-below f n xs h.1)

module _ {R : Type 0} where
  abbrev pub FreshIn : World R → Type 0
  FreshIn w = IsFresh w.db × All IsBytes w.random

  Keeps-select :
      {A : Type 0} (q : ℕ → Db → Result A × Db)
      → ((now : ℕ) (d : Db) → IsFresh d → IsFresh (q now d).1)
      → Keeps FreshIn (query q)
  unfolding query
  Keeps-select q k = record { at = λ w h. ((Keeps-query IsFresh q k).at w h.0, h.1) }

  create_site-Fresh : (s : TargetSite) → Keeps FreshIn (create_site s)
  unfolding create_site insert_site
  create_site-Fresh s = Keeps-select _ (λ now d h. (
    All-later (λ c. c.original_session_id) d.next_id d.session_cookies h.0,
    All-later (λ c. c.original_session_id) d.next_id d.session_tokens h.1,
  ))

  pub get_or_create-Fresh :
      (domain name : String) (url : Bytes)
      → Keeps FreshIn (Sessions.get_or_create_by_domain domain name url)
  unfolding Sessions.get_or_create_by_domain select_site_by_domain site_or_created ◌>>=◌
  get_or_create-Fresh domain name url =
      Keeps-bind _ _ (Keeps-attempt _ (Keeps-select _ kept)) created
    where
      kept : (now : ℕ) (d : Db) → IsFresh d → IsFresh (select_site_by_domain domain now d).1
      kept now d h = h

      created :
          (r : Result TargetSite)
          → Keeps FreshIn (
              site_or_created
                (record {
                  id = 0;
                  base_domain = domain;
                  name = name;
                  base_url = url;
                  created_at = 0;
                })
                r)
      created (ok s) = record { at = λ w h. h }
      created (err e) = create_site-Fresh _
