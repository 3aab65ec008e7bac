-- ===== src/LinkService/Termination.antt =====
-- What the two ways to terminate a link do to its status and its records.
use session_proxy.Base.{
  arith, sym, List, first_row-update_rows, where_rows-append, ◌∙◌, any_row-found,
  any_row-update_rows, ℕ, ◌≡◌, refl, String, true, false, none, some, [], ◌∷◌, ◌++◌, ◌==◌, str_eq,
  any_row, first_row, update_rows,
}
use session_proxy.Domain.{SharedLink, LinkTermination, link_status_terminated}
use session_proxy.Store.Db.{Db}
use session_proxy.Store.App.{
  err, unavailable, answered, refused, World, ok, AllAnswered, query, settle, ◌>>=◌,
}
use session_proxy.Repo.Links.{select_link, update_link_status, set_status, link_by_id}
use session_proxy.Repo.Links
use session_proxy.Repo.Logs.{terminations_of, insert_termination, create_termination}
use session_proxy.LinkService

-- The link is there and not terminated.
abbrev pub IsOpen : ℕ → Db → Type 0
IsOpen link d =
    (l : SharedLink) × ((first_row (link_by_id link) d.shared_links ≡ some l)
      × (str_eq l.status link_status_terminated ≡ false))

abbrev pub closed : ℕ → Db → Db
closed link d = record d {
  shared_links = update_rows (link_by_id link) (set_status link_status_terminated) d.shared_links;
}

-- The record of an automatic termination at an instant.
abbrev pub automatic : ℕ → String → ℕ → LinkTermination
automatic link reason now = record {
  shared_link_id = link;
  reason_code = reason;
  terminated_by = none;
  notes = none;
  terminated_at = now;
}

pub closed_row :
    (link : ℕ) (d : Db) (l : SharedLink)
    → first_row (link_by_id link) d.shared_links ≡ some l
    → first_row (link_by_id link) (closed link d).shared_links
      ≡ some (record l { status = link_status_terminated })
unfolding set_status
closed_row link d l found =
    first_row-update_rows (link_by_id link) _ d.shared_links l (λ x. refl) found

pub record_added :
    (link : ℕ) (t : LinkTermination) (d : Db) (ls : List SharedLink)
    → t.shared_link_id ≡ link
    → terminations_of link
        (record d { shared_links = ls; link_terminations = d.link_terminations ++ t ∷ [] })
      ≡ terminations_of link d ++ t ∷ []
record_added link t d ls e =
    where_rows-append (λ t. t.shared_link_id == link) d.link_terminations (t ∷ []) ∙ ground arith

module _ {R : Type 0} where
  pub auto_terminate-active :
      (link : ℕ) (reason : String) (w : World R) (l : SharedLink)
      → AllAnswered w
      → first_row (link_by_id link) w.db.shared_links ≡ some l
      → str_eq l.status link_status_terminated ≡ false
      → any_row (λ c. str_eq c reason) w.db.revocation_reasons ≡ true
      → LinkService.auto_terminate link reason w ≡ (
        ok tt,
        record w {
          db = record (closed link w.db) {
            link_terminations = w.db.link_terminations ++ automatic link reason w.now ∷ [];
          };
        },
      )
  unfolding LinkService.auto_terminate Links.get_by_id LinkService.record_termination
      Links.update_status create_termination query settle select_link update_link_status
      insert_termination set_status ◌>>=◌
  auto_terminate-active link reason w l h found active known =
      simp (h, found, active, known, stored)
    where
      stored :
          any_row
            (λ k. k.id == link)
            (update_rows (link_by_id link) (set_status link_status_terminated) w.db.shared_links)
          ≡ true
      stored =
          any_row-update_rows (link_by_id link) (link_by_id link) _ w.db.shared_links (λ x. refl)
          ∙ any_row-found _ w.db.shared_links l found

  -- A link that is terminated is left alone.
  auto_terminate-closed :
      (link : ℕ) (reason : String) (w : World R) (l : SharedLink)
      → AllAnswered w
      → first_row (link_by_id link) w.db.shared_links ≡ some l
      → str_eq l.status link_status_terminated ≡ true
      → LinkService.auto_terminate link reason w ≡ (ok tt, w)
  unfolding LinkService.auto_terminate Links.get_by_id query settle select_link ◌>>=◌
  auto_terminate-closed link reason w l h found over =
      simp (h, found, over) (λ i. (ok tt, record w { outcomes = sym h i }))

  -- AutoTerminate, when every call is answered, on a link that is there and not terminated, with
  -- a reason of the schema: it succeeds, makes the link's row terminated, adds exactly one
  -- termination record with that reason and the current time, and each later AutoTerminate with
  -- any reason changes nothing.
  pub auto_terminate_once :
      (link : ℕ) (reason : String) (w : World R) (l : SharedLink)
      → AllAnswered w
      → first_row (link_by_id link) w.db.shared_links ≡ some l
      → str_eq l.status link_status_terminated ≡ false
      → any_row (λ c. str_eq c reason) w.db.revocation_reasons ≡ true
      → ((LinkService.auto_terminate link reason w).0 ≡ ok tt)
        × ((first_row (link_by_id link) (LinkService.auto_terminate link reason w).1.db.shared_links
              ≡ some (record l { status = link_status_terminated }))
            × ((terminations_of link (LinkService.auto_terminate link reason w).1.db
                  ≡ terminations_of link w.db ++ automatic link reason w.now ∷ [])
                × ((again : String)
                    → LinkService.auto_terminate link again
                        (LinkService.auto_terminate link reason w).1
                      ≡ (ok tt, (LinkService.auto_terminate link reason w).1))))
  auto_terminate_once link reason w l h found active known =
      rw (auto_terminate-active link reason w l h found active known) (
        refl,
        (
          closed_row link w.db l found,
          (
            record_added link _ w.db (closed link w.db).shared_links refl,
            λ again. auto_terminate-closed link again _ _ h (closed_row link w.db l found) refl,
          ),
        ),
      )

  interrupted :
      (link : ℕ) (reason : String) (w : World R) (l : SharedLink)
      → w.outcomes ≡ answered ∷ answered ∷ refused ∷ []
      → first_row (link_by_id link) w.db.shared_links ≡ some l
      → str_eq l.status link_status_terminated ≡ false
      → LinkService.auto_terminate link reason w
        ≡ (err unavailable, record w { db = closed link w.db; outcomes = [] })
  unfolding LinkService.auto_terminate Links.get_by_id LinkService.record_termination
      Links.update_status create_termination query settle select_link update_link_status set_status
      ◌>>=◌
  interrupted link reason w l h found active = simp (h, found, active)

  -- AutoTerminate whose first two calls are answered and whose third fails, as of a lost
  -- connection: the link is terminated without a record, and no later AutoTerminate adds one.
  pub auto_terminate_without_record :
      (link : ℕ) (reason : String) (w : World R) (l : SharedLink)
      → w.outcomes ≡ answered ∷ answered ∷ refused ∷ []
      → first_row (link_by_id link) w.db.shared_links ≡ some l
      → str_eq l.status link_status_terminated ≡ false
      → (first_row (link_by_id link) (LinkService.auto_terminate link reason w).1.db.shared_links
          ≡ some (record l { status = link_status_terminated }))
        × ((terminations_of link (LinkService.auto_terminate link reason w).1.db
              ≡ terminations_of link w.db)
            × ((again : String)
                → LinkService.auto_terminate link again (LinkService.auto_terminate link reason w).1
                  ≡ (ok tt, (LinkService.auto_terminate link reason w).1)))
  auto_terminate_without_record link reason w l h found active =
      rw (interrupted link reason w l h found active) (
        closed_row link w.db l found,
        (
          refl,
          λ again. auto_terminate-closed link again _ _ refl (closed_row link w.db l found) refl,
        ),
      )
