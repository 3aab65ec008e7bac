-- ===== src/Store/Redis.antt =====
-- Redis as the program uses it: its documented commands on counters and on one set.
-- Values are int64 strings; a key is its format with the id that it names.
use session_proxy.Base.{
  ℕ, ◌+◌, ◌≡◌, refl, Bool, false, not, ◌&&◌, ◌||◌, Option, none, some, List, [], ◌∷◌, arith, leb,
  ◌==◌, if◌then◌else◌, any_row, where_rows, ==_iff, Bool-cases, inl, inr,
}
use session_proxy.Base.Int.{int64_max}

-- requestsKey, bytesKey, violationsKey
pub data Key : Type 0 where
  requests_key bytes_key violations_key : ℕ → Key

abbrev pub key_eq : Key → Key → Bool
key_eq (requests_key i) (requests_key j) = i == j
key_eq (bytes_key i) (bytes_key j) = i == j
key_eq (violations_key i) (violations_key j) = i == j
key_eq _ _ = false

-- What GET answers: no value, an int64, or a text that is none.
pub data Cell : Type 0 where
  missing : Cell
  number : ℕ → Cell
  malformed : Cell

-- SETNX
abbrev pub seeded : Cell → ℕ → Cell
seeded missing n = number n
seeded (number m) n = number m
seeded malformed n = malformed

-- INCRBY, which fails on overflow and on what is no number, and then changes nothing
abbrev pub bumped : Cell → ℕ → Cell
bumped missing d = number d
bumped (number n) d = if leb (n + d) int64_max then number (n + d) else number n
bumped malformed d = malformed

abbrev pub bump_reply : Cell → ℕ → Option ℕ
bump_reply missing d = some d
bump_reply (number n) d = if leb (n + d) int64_max then some (n + d) else none
bump_reply malformed d = none

abbrev pub has_member : List ℕ → ℕ → Bool
has_member ms j = any_row (λ i. i == j) ms

pub record Redis : Type 1 where
  pub Store : Type 0
  pub get : Store → Key → Cell
  pub set_nx : Store → Key → ℕ → Store
  pub incr_by : Store → Key → ℕ → Store × Option ℕ
  -- SADD, SREM and SMEMBERS on sp:dirty_links
  pub s_add : Store → ℕ → Store
  pub s_rem : Store → ℕ → Store
  pub s_members : Store → List ℕ
  pub get-set_nx :
      (s : Store) (k : Key) (n : ℕ) (j : Key)
      → get (set_nx s k n) j ≡ (if key_eq k j then seeded (get s k) n else get s j)
  pub get-incr_by :
      (s : Store) (k : Key) (d : ℕ) (j : Key)
      → get (incr_by s k d).0 j ≡ (if key_eq k j then bumped (get s k) d else get s j)
  pub reply-incr_by : (s : Store) (k : Key) (d : ℕ) → (incr_by s k d).1 ≡ bump_reply (get s k) d
  pub get-s_add : (s : Store) (i : ℕ) (j : Key) → get (s_add s i) j ≡ get s j
  pub get-s_rem : (s : Store) (i : ℕ) (j : Key) → get (s_rem s i) j ≡ get s j
  pub members-set_nx : (s : Store) (k : Key) (n : ℕ) → s_members (set_nx s k n) ≡ s_members s
  pub members-incr_by : (s : Store) (k : Key) (d : ℕ) → s_members (incr_by s k d).0 ≡ s_members s
  pub members-s_add :
      (s : Store) (i j : ℕ)
      → has_member (s_members (s_add s i)) j ≡ (i == j || has_member (s_members s) j)
  pub members-s_rem :
      (s : Store) (i j : ℕ)
      → has_member (s_members (s_rem s i)) j ≡ (not (i == j) && has_member (s_members s) j)

-- A Redis of functions and a list, which has these laws.
pub record MapStore : Type 0 where
  pub cells : Key → Cell
  pub members : List ℕ

abbrev map_put : MapStore → Key → Cell → MapStore
map_put s k c = record s { cells = λ j. if key_eq k j then c else s.cells j }

pub members_without :
    (ms : List ℕ) (i j : ℕ)
    → has_member (where_rows (λ m. not (m == i)) ms) j ≡ (not (i == j) && has_member ms j)
members_without [] i j = ground arith
members_without (m ∷ ms) i j = ground (arith, members_without ms i j)

abbrev pub map_s_add : MapStore → ℕ → MapStore
map_s_add s i = if has_member s.members i then s else record s { members = i ∷ s.members }

pub cells-map_s_add : (s : MapStore) (i : ℕ) (j : Key) → (map_s_add s i).cells j ≡ s.cells j
cells-map_s_add s i j = ground arith

pub members-map_s_add :
    (s : MapStore) (i j : ℕ)
    → has_member (map_s_add s i).members j ≡ (i == j || has_member s.members j)
members-map_s_add s i j = elim (Bool-cases (has_member s.members i)) [
  | inl old ↦ simp old (elim (Bool-cases (i == j)) [
    | inl e ↦ rw (e, ← (==_iff i j).0 e, old) refl
    | inr e ↦ rw e refl
  ])
  | inr new ↦ simp new
]

abbrev pub map_redis : Redis
map_redis = record {
  Store = MapStore;
  get = λ s k. s.cells k;
  set_nx = λ s k n. map_put s k (seeded (s.cells k) n);
  incr_by = λ s k d. (map_put s k (bumped (s.cells k) d), bump_reply (s.cells k) d);
  s_add = map_s_add;
  s_rem = λ s i. record s { members = where_rows (λ m. not (m == i)) s.members };
  s_members = λ s. s.members;
  get-set_nx = λ s k n j. refl;
  get-incr_by = λ s k d j. refl;
  reply-incr_by = λ s k d. refl;
  get-s_add = cells-map_s_add;
  get-s_rem = λ s i j. refl;
  members-set_nx = λ s k n. refl;
  members-incr_by = λ s k d. refl;
  members-s_add = members-map_s_add;
  members-s_rem = λ s i j. members_without s.members i j;
}
