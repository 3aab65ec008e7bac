-- ===== src/Repo/Order.antt =====
-- What the statements of app/internal/repository/pgx share: ORDER BY ... DESC, LIMIT, COALESCE.
use session_proxy.Base.{
  ◌≡◌, ℕ, String, Bool, Option, none, some, List, [], ◌∷◌, leb, str_eq, if◌then◌else◌,
}
use session_proxy.Store.App.{Result, ok, err, no_rows}

module _ {A : Type 0} (key : A → ℕ) where
  abbrev insert_desc : A → List A → List A
  insert_desc x [] = x ∷ []
  insert_desc x (y ∷ ys) = if leb (key y) (key x) then x ∷ y ∷ ys else y ∷ insert_desc x ys

  -- Newest first.
  unfoldable pub order_desc : List A → List A
  order_desc [] = []
  order_desc (x ∷ xs) = insert_desc x (order_desc xs)

module _ {A : Type 0} where
  -- The row that QueryRow scans, with pgx.ErrNoRows where there is none.
  abbrev pub one_row : Option A → Result A
  one_row none = err no_rows
  one_row (some a) = ok a

  abbrev pub head_row : List A → Option A
  head_row [] = none
  head_row (x ∷ xs) = some x

-- nullIfEmpty
unfoldable pub null_if_empty : String → Option String
null_if_empty s = if str_eq s "" then none else some s

abbrev pub coalesce {ℓ} : {A : Type ℓ} → Option A → A → A
coalesce none b = b
coalesce (some a) b = a

-- `column IS NOT DISTINCT FROM $1`
abbrev pub same_text : Option String → Option String → Bool
same_text none none = Bool.true
same_text (some a) (some b) = str_eq a b
same_text _ _ = Bool.false

pub one_row-found : {A : Type 0} (o : Option A) (a : A) → one_row o ≡ ok a → o ≡ some a
one_row-found none a e = cc
one_row-found (some b) a e = cc
