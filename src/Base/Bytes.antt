-- ===== src/Base/Bytes.antt =====
-- Texts that the program walks, as lists of bytes, and Go's functions on them from `strings`.
use Prim.Native.Char.{code}
use Prim.Native.Nat.{ℕ, ◌+◌}
use Prim.Native.String.{String}
use mathlib.Core.Path.{◌≡◌, refl}
use mathlib.Core.Bool.{Bool, true, false, ◌&&◌}
use mathlib.Core.List.{List, [], ◌∷◌, ◌++◌}
use native.Mathlib.Omega.{arith}
use session_proxy.Base.Tests.{leb, ◌==◌, if◌then◌else◌}
use session_proxy.Base.Lists.{length, drop}

abbrev pub Bytes : Type 0
Bytes = List ℕ

-- The bytes of an ASCII text.
abbrev pub codes : String → Bytes
codes String.[] = []
codes (String.◌∷◌ c s) = code c ∷ codes s

abbrev pub bytes_eq : Bytes → Bytes → Bool
bytes_eq [] [] = true
bytes_eq [] (_ ∷ _) = false
bytes_eq (_ ∷ _) [] = false
bytes_eq (x ∷ xs) (y ∷ ys) = x == y && bytes_eq xs ys

-- strings.HasPrefix(s, prefix)
abbrev pub has_prefix : Bytes → Bytes → Bool
has_prefix s [] = true
has_prefix [] (_ ∷ _) = false
has_prefix (x ∷ s) (y ∷ prefix) = x == y && has_prefix s prefix

-- strings.TrimPrefix(s, prefix)
abbrev pub trim_prefix : Bytes → Bytes → Bytes
trim_prefix s prefix = if has_prefix s prefix then drop (length prefix) s else s

-- strings.HasSuffix(s, "/"), the one suffix that the program looks for
abbrev pub has_slash_suffix : Bytes → Bool
has_slash_suffix [] = false
has_slash_suffix (x ∷ []) = x == b'/'
has_slash_suffix (_ ∷ y ∷ s) = has_slash_suffix (y ∷ s)

-- One letter in lower case.
abbrev pub to_lower : ℕ → ℕ
to_lower c = if leb b'A' c && leb c b'Z' then c + 32 else c

-- A byte in front of a folded text. Two letters beyond ASCII fold to one of ASCII: U+017F, which is
-- the bytes 197 191, to s, and U+212A, which is the bytes 226 132 170, to k.
abbrev fold_before : ℕ → Bytes → Bytes
fold_before c s =
    if c == 197 && has_prefix s (191 ∷ [])
    then b's' ∷ drop 1 s
    else if c == 226 && has_prefix s (132 ∷ 170 ∷ [])
    then b'k' ∷ drop 2 s
    else to_lower c ∷ s

abbrev folded : Bytes → Bytes
folded [] = []
folded (c ∷ s) = fold_before c (folded s)

-- strings.EqualFold, where one of the texts is ASCII
abbrev pub equal_fold : Bytes → Bytes → Bool
equal_fold s t = bytes_eq (folded s) (folded t)

pub bytes_eq_self : (s : Bytes) → bytes_eq s s ≡ true
bytes_eq_self [] = refl
bytes_eq_self (x ∷ s) = ground (arith, bytes_eq_self s)

pub bytes_eq_sound : (s t : Bytes) → bytes_eq s t ≡ true → s ≡ t
bytes_eq_sound [] [] h = refl
bytes_eq_sound [] (y ∷ t) h = cc
bytes_eq_sound (x ∷ s) [] h = cc
bytes_eq_sound (x ∷ s) (y ∷ t) h = ground (arith, bytes_eq_sound s t)

pub has_prefix-append : (prefix s : Bytes) → has_prefix (prefix ++ s) prefix ≡ true
has_prefix-append [] s = refl
has_prefix-append (x ∷ prefix) s = ground (arith, has_prefix-append prefix s)

pub drop-append : (prefix s : Bytes) → drop (length prefix) (prefix ++ s) ≡ s
drop-append [] s = refl
drop-append (x ∷ prefix) s = drop-append prefix s

-- A prefix that is found splits the text.
pub has_prefix_sound :
    (s prefix : Bytes) → has_prefix s prefix ≡ true → s ≡ prefix ++ drop (length prefix) s
has_prefix_sound s [] h = refl
has_prefix_sound [] (y ∷ prefix) h = cc
has_prefix_sound (x ∷ s) (y ∷ prefix) h = ground (arith, has_prefix_sound s prefix)
