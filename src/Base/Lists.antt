-- ===== src/Base/Lists.antt =====
-- Lists over the native numbers, with Boolean tests for `filter` and `find`.
use Prim.Native.Nat.{ℕ, zero, suc, ◌+◌}
use mathlib.Core.Path.{◌≡◌}
use mathlib.Core.Bool.{Bool, false, ◌||◌}
use mathlib.Core.Option.{Option, none, some}
use mathlib.Core.List.{List, [], ◌∷◌, ◌++◌}
use native.Mathlib.Omega.{arith}
use session_proxy.Base.Tests.{if◌then◌else◌}

module _ {ℓ} {A : Type ℓ} where
  abbrev pub length : List A → ℕ
  length [] = 0
  length (x ∷ xs) = suc (length xs)

  pub length-append : (xs ys : List A) → length (xs ++ ys) ≡ length xs + length ys
  length-append [] ys = omega arith
  length-append (x ∷ xs) ys = omega (arith, length-append xs ys)

  abbrev pub take : ℕ → List A → List A
  take zero xs = []
  take (suc n) [] = []
  take (suc n) (x ∷ xs) = x ∷ take n xs

  abbrev pub drop : ℕ → List A → List A
  drop zero xs = xs
  drop (suc n) [] = []
  drop (suc n) (x ∷ xs) = drop n xs

  -- The rows that pass a test, in order: a WHERE clause.
  abbrev pub where_rows : (A → Bool) → List A → List A
  where_rows p [] = []
  where_rows p (x ∷ xs) = if p x then x ∷ where_rows p xs else where_rows p xs

  -- The first row that passes a test: QueryRow with a WHERE clause.
  abbrev pub first_row : (A → Bool) → List A → Option A
  first_row p [] = none
  first_row p (x ∷ xs) = if p x then some x else first_row p xs

  -- The rows that pass a test changed in place: UPDATE.
  abbrev pub update_rows : (A → Bool) → (A → A) → List A → List A
  update_rows p f [] = []
  update_rows p f (x ∷ xs) = (if p x then f x else x) ∷ update_rows p f xs

  abbrev pub any_row : (A → Bool) → List A → Bool
  any_row p [] = false
  any_row p (x ∷ xs) = p x || any_row p xs

  -- A predicate of every element.
  abbrev pub All {κ} : (A → Type κ) → List A → Type κ
  All P [] = Unit
  All P (x ∷ xs) = P x × All P xs

  pub All-append {κ} : (P : A → Type κ) (xs ys : List A) → All P xs → All P ys → All P (xs ++ ys)
  All-append P [] ys h k = k
  All-append P (x ∷ xs) ys h k = (h.0, All-append P xs ys h.1 k)

  pub any_row-found :
      (p : A → Bool) (xs : List A) (a : A) → first_row p xs ≡ some a → any_row p xs ≡ Bool.true
  any_row-found p [] a h = cc
  any_row-found p (x ∷ xs) a h = ground (arith, any_row-found p xs a)

  -- A change that the test does not see.
  pub any_row-update_rows :
      (p q : A → Bool) (f : A → A) (xs : List A)
      → ((x : A) → p (f x) ≡ p x)
      → any_row p (update_rows q f xs) ≡ any_row p xs
  any_row-update_rows p q f [] h = ground arith
  any_row-update_rows p q f (x ∷ xs) h = ground (arith, any_row-update_rows p q f xs h, h x)

  pub first_row-update_rows :
      (p : A → Bool) (f : A → A) (xs : List A) (a : A)
      → ((x : A) → p (f x) ≡ p x)
      → first_row p xs ≡ some a
      → first_row p (update_rows p f xs) ≡ some (f a)
  first_row-update_rows p f [] a h k = cc
  first_row-update_rows p f (x ∷ xs) a h k = ground (arith, first_row-update_rows p f xs a h, h x)

  pub where_rows-append :
      (p : A → Bool) (xs ys : List A) → where_rows p (xs ++ ys) ≡ where_rows p xs ++ where_rows p ys
  where_rows-append p [] ys = ground arith
  where_rows-append p (x ∷ xs) ys = ground (arith, where_rows-append p xs ys)
