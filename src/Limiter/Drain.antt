-- ===== src/Limiter/Drain.antt =====
-- What one tick of the sync worker leaves to be done.
use session_proxy.Base.{
  ℕ, ◌≡◌, refl, sym, ap, ◌∙◌, subst, inl, inr, Bool, true, false, ◌&&◌, ◌||◌, not, some, List, [],
  ◌∷◌, arith, ◌==◌, ==_iff, Bool-cases, any_row, All,
}
use session_proxy.Store.Redis.{Redis, has_member}
use session_proxy.Store.App.{World, ok, AllAnswered, command, settle, ◌>>=◌}
use session_proxy.Repo.Guests.{upsert_usage, usage_of}
use session_proxy.Limiter.{
  Counters, read_counters, flush_links, flush_listed, flush_once, dirty_link_ids,
}
use session_proxy.Limiter.Flush.{
  flushed, fits_columns, flush_link-answered, read-flushed, upsert_usage-stored,
}
use session_proxy.Limiter.Rows.{usage_of-upsert_usage, shared_links-upsert_usage}

or_false : (a b : Bool) → (a || b) ≡ false → (a ≡ false) × (b ≡ false)
or_false true b h = cc
or_false false b h = (refl, h)

member_new :
    (l j : ℕ) (ls : List ℕ)
    → has_member (l ∷ ls) j ≡ true
    → has_member ls j ≡ false
    → (l == j) ≡ true
member_new l j ls m f = grind arith

marks_cons : (a b m : Bool) → (not a && (not b && m)) ≡ (not (b || a) && m)
marks_cons true true m = refl
marks_cons true false m = refl
marks_cons false true m = refl
marks_cons false false m = refl

same_counters : (c d : Counters) → ok c ≡ ok d → c ≡ d
same_counters c d h = cc

module _ (rd : Redis) where
  -- A link whose row is there and whose counters can be read and fit the columns.
  abbrev pub IsReady : World rd.Store → ℕ → Type 0
  IsReady w l =
      (any_row (λ s. s.id == l) w.db.shared_links ≡ true)
      × ((c : Counters) × ((read_counters rd l w.redis ≡ ok c) × (fits_columns c ≡ true)))

  -- The state after the links of a list have been flushed.
  pub record Drained (ls : List ℕ) (w v : World rd.Store) : Type 0 where
    pub marks :
        (j : ℕ)
        → has_member (rd.s_members v.redis) j
          ≡ (not (has_member ls j) && has_member (rd.s_members w.redis) j)
    pub stored :
        (j : ℕ) (c : Counters)
        → has_member ls j ≡ true
        → read_counters rd j w.redis ≡ ok c
        → usage_of j v.db ≡ some (flushed j c w.now)
    pub others : (j : ℕ) → has_member ls j ≡ false → usage_of j v.db ≡ usage_of j w.db
    pub counters : (j : ℕ) → read_counters rd j v.redis ≡ read_counters rd j w.redis

  abbrev after_flush : ℕ → Counters → World rd.Store → World rd.Store
  after_flush l c w = record w {
    db = (upsert_usage (flushed l c 0) w.now w.db).1;
    redis = rd.s_rem w.redis l;
    outcomes = [];
  }

  IsReady-after :
      (l : ℕ) (c : Counters) (w : World rd.Store) (ls : List ℕ)
      → All (IsReady w) ls
      → All (IsReady (after_flush l c w)) ls
  IsReady-after l c w [] h = tt
  IsReady-after l c w (k ∷ ls) h = (
    (
      rw (shared_links-upsert_usage (flushed l c 0) w.now w.db) h.0.0,
      (h.0.1.0, (read-flushed rd l w.redis k ∙ h.0.1.1.0, h.0.1.1.1)),
    ),
    IsReady-after l c w ls h.1,
  )

  stored_now :
      (l j : ℕ) (c d : Counters) (w : World rd.Store)
      → l ≡ j
      → any_row (λ s. s.id == l) w.db.shared_links ≡ true
      → fits_columns c ≡ true
      → read_counters rd l w.redis ≡ ok c
      → read_counters rd j w.redis ≡ ok d
      → usage_of j (upsert_usage (flushed l c 0) w.now w.db).1 ≡ some (flushed j d w.now)
  stored_now l j c d w q k f e r =
      subst (λ i. usage_of i (upsert_usage (flushed l c 0) w.now w.db).1 ≡ some (flushed i d w.now))
        q
        ((upsert_usage-stored l c w.now w.db k f).1
          ∙ ap (λ x. some (flushed l x w.now))
              (same_counters c d (sym e ∙ (ap (λ i. read_counters rd i w.redis) q ∙ r))))

  Drained-cons :
      (l : ℕ) (c : Counters) (ls : List ℕ) (w v : World rd.Store)
      → read_counters rd l w.redis ≡ ok c
      → any_row (λ s. s.id == l) w.db.shared_links ≡ true
      → fits_columns c ≡ true
      → Drained ls (after_flush l c w) v
      → Drained (l ∷ ls) w v
  Drained-cons l c ls w v e k f h = record {
    marks = λ j.
        h.marks j
        ∙ rw (rd.members-s_rem w.redis l j)
            (marks_cons (has_member ls j) (l == j) (has_member (rd.s_members w.redis) j));
    stored = λ j d m r. elim (Bool-cases (has_member ls j)) [
      | inl t ↦ h.stored j d t (read-flushed rd l w.redis j ∙ r)
      | inr n ↦ h.others j n ∙ stored_now l j c d w ((==_iff l j).0 (member_new l j ls m n)) k f e r
    ];
    others = λ j m.
        h.others j (or_false (l == j) (has_member ls j) m).1
        ∙ usage_of-upsert_usage l j c w.now w.db (or_false (l == j) (has_member ls j) m).0;
    counters = λ j. h.counters j ∙ read-flushed rd l w.redis j;
  }

  flush_links-answered :
      (ls : List ℕ) (w : World rd.Store)
      → AllAnswered w
      → All (IsReady w) ls
      → ((flush_links rd ls w).0 ≡ ok tt) × Drained ls w (flush_links rd ls w).1
  unfolding flush_links ◌>>=◌
  flush_links-answered [] w h a = (
    refl,
    record {
      marks = λ j. refl;
      stored = λ j c m r. cc;
      others = λ j m. refl;
      counters = λ j. refl;
    },
  )
  flush_links-answered (l ∷ ls) w h ((k, (c, (e, f))), a) =
      let (r, d) = flush_links-answered ls (after_flush l c w) refl (IsReady-after l c w ls a) in
      rw (flush_link-answered rd l w c h e k f) (r, Drained-cons l c ls w _ e k f d)

  unmarked_all : (m : Bool) → (not m && m) ≡ false
  unmarked_all true = refl
  unmarked_all false = refl

  flush_once-fresh :
      (w : World rd.Store)
      → flush_once rd (record w { outcomes = [] })
        ≡ flush_links rd (rd.s_members w.redis) (record w { outcomes = [] })
  unfolding flush_once flush_listed dirty_link_ids ◌>>=◌ command settle
  flush_once-fresh w = refl

  flush_once-answered :
      (w : World rd.Store)
      → AllAnswered w
      → flush_once rd w ≡ flush_links rd (rd.s_members w.redis) w
  flush_once-answered w h =
      ap (λ o. flush_once rd (record w { outcomes = o })) h
      ∙ (flush_once-fresh w
          ∙ ap (λ o. flush_links rd (rd.s_members w.redis) (record w { outcomes = o })) (sym h))

  -- flush_once, when every call is answered and every dirty link has its row and counters that
  -- can be read, each below 2^31 requests and violations: it returns without an error, no link is dirty after it, the row of each link
  -- that was dirty holds the counters Redis had for it and the current time, and the rows of the
  -- other links and the counters of every link in Redis are what they were.
  pub flush_once_drains :
      (w : World rd.Store)
      → AllAnswered w
      → All (IsReady w) (rd.s_members w.redis)
      → ((flush_once rd w).0 ≡ ok tt)
        × (((j : ℕ) → has_member (rd.s_members (flush_once rd w).1.redis) j ≡ false)
            × (((j : ℕ) (c : Counters)
                  → has_member (rd.s_members w.redis) j ≡ true
                  → read_counters rd j w.redis ≡ ok c
                  → usage_of j (flush_once rd w).1.db ≡ some (flushed j c w.now))
                × (((j : ℕ)
                      → has_member (rd.s_members w.redis) j ≡ false
                      → usage_of j (flush_once rd w).1.db ≡ usage_of j w.db)
                    × ((j : ℕ)
                        → read_counters rd j (flush_once rd w).1.redis
                          ≡ read_counters rd j w.redis))))
  flush_once_drains w h a =
      let (r, d) = flush_links-answered (rd.s_members w.redis) w h a in
      rw (flush_once-answered w h) (
        r,
        (
          (λ j. d.marks j ∙ unmarked_all (has_member (rd.s_members w.redis) j)),
          (d.stored, (d.others, d.counters)),
        ),
      )
