-- ===== src/Proxy/Path/Laws.antt =====
-- Which token and path a guest URL has, and how a path is joined to the base URL of its site.
use session_proxy.Base.{
  ℕ, ◌≡◌, refl, sym, ap, ◌∙◌, subst, ◌⊎◌, true, false, none, some, [], ◌∷◌, ◌++◌, ◌==◌, All, drop,
  Bool-cases, inl, inr,
}
use session_proxy.Base.Bytes.{Bytes, codes, has_prefix, has_slash_suffix, has_prefix_sound}
use session_proxy.Proxy.Path.{
  slash, route_prefix, split_at_slash, split_rest, parse_token_and_path, single_joining_slash,
}

-- No byte of the token is a slash.
abbrev pub IsSlashFree : Bytes → Type 0
IsSlashFree = All (λ c. (c == slash) ≡ false)

split-slash_free :
    (token rest : Bytes)
    → IsSlashFree token
    → split_at_slash (token ++ slash ∷ rest) ≡ (token, slash ∷ rest)
unfolding split_at_slash
split-slash_free [] rest h = refl
split-slash_free (c ∷ token) rest h = rw (h.0, split-slash_free token rest h.1) refl

split-no_slash : (token : Bytes) → IsSlashFree token → split_at_slash token ≡ (token, slash ∷ [])
unfolding split_at_slash
split-no_slash [] h = refl
split-no_slash (c ∷ token) h = rw (h.0, split-no_slash token h.1) refl

split-token : (rest : Bytes) → IsSlashFree (split_at_slash rest).0
unfolding split_at_slash
split-token [] = tt
split-token (c ∷ rest) = elim (Bool-cases (c == slash)) [
  | inl e ↦ rw e tt
  | inr e ↦ rw e (e, split-token rest)
]

-- A guest URL of a token that is not empty and has no slash is read as that token with the rest
-- of the URL, or with "/" where the URL ends after the token.
pub parse_token_and_path_roundtrip :
    (c : ℕ) (token rest : Bytes)
    → IsSlashFree (c ∷ token)
    → (parse_token_and_path (route_prefix ++ (c ∷ token) ++ slash ∷ rest)
        ≡ some (c ∷ token, slash ∷ rest))
      × (parse_token_and_path (route_prefix ++ c ∷ token) ≡ some (c ∷ token, slash ∷ []))
unfolding parse_token_and_path split_rest
parse_token_and_path_roundtrip c token rest h =
    (ap some (split-slash_free (c ∷ token) rest h), ap some (split-no_slash (c ∷ token) h))

-- The parts make up the text, but for a path that is not in it.
Whole : Bytes → Bytes × Bytes → Type 0
Whole rest (token, path) = (rest ≡ token ++ path) ⊎ ((rest ≡ token) × (path ≡ slash ∷ []))

split-Whole : (rest : Bytes) → Whole rest (split_at_slash rest)
unfolding split_at_slash Whole
split-Whole [] = inr (refl, refl)
split-Whole (c ∷ rest) = elim (Bool-cases (c == slash)) [
  | inl e ↦ rw e (inl refl)
  | inr e ↦ rw e (elim (split-Whole rest) [
    | inl h ↦ inl (ap (λ r. c ∷ r) h)
    | inr h ↦ inr (ap (λ r. c ∷ r) h.0, h.1)
  ])
]

split_rest-split :
    (rest : Bytes) (r : Bytes × Bytes) → split_rest rest ≡ some r → split_at_slash rest ≡ r
unfolding split_rest
split_rest-split [] r h = cc
split_rest-split (c ∷ rest) r h = cc

parse-routed :
    (p : Bytes) → has_prefix p route_prefix ≡ true → parse_token_and_path p ≡ split_rest (drop 3 p)
unfolding parse_token_and_path
parse-routed p e = rw e refl

parse-unrouted : (p : Bytes) → has_prefix p route_prefix ≡ false → parse_token_and_path p ≡ none
unfolding parse_token_and_path
parse-unrouted p e = rw e refl

parse-parts :
    (p token path rest : Bytes)
    → p ≡ route_prefix ++ rest
    → split_at_slash rest ≡ (token, path)
    → IsSlashFree token
      × ((p ≡ route_prefix ++ token ++ path) ⊎ ((p ≡ route_prefix ++ token) × (path ≡ slash ∷ [])))
unfolding Whole
parse-parts p token path rest e f = (
  subst (λ r. IsSlashFree r.0) f (split-token rest),
  elim (subst (Whole rest) f (split-Whole rest)) [
    | inl h ↦ inl (e ∙ ap (λ r. route_prefix ++ r) h)
    | inr h ↦ inr (e ∙ ap (λ r. route_prefix ++ r) h.0, h.1)
  ],
)

-- What parseTokenAndPath returns of a guest URL: a token without a slash and a path that together
-- with "/r/" make up the URL, where the path is "/" if the URL has nothing after the token.
pub parse_token_and_path_sound :
    (p token path : Bytes)
    → parse_token_and_path p ≡ some (token, path)
    → IsSlashFree token
      × ((p ≡ route_prefix ++ token ++ path) ⊎ ((p ≡ route_prefix ++ token) × (path ≡ slash ∷ [])))
parse_token_and_path_sound p token path h = elim (Bool-cases (has_prefix p route_prefix)) [
  | inl e ↦
      parse-parts p token path (drop 3 p) (has_prefix_sound p route_prefix e)
        (split_rest-split (drop 3 p) (token, path) (sym (parse-routed p e) ∙ h))
  | inr e ↦ absurd (unrouted (sym (parse-unrouted p e) ∙ h))
]
  where
    unrouted : {r : Bytes × Bytes} → ¬ (none ≡ some r)
    unrouted e = cc

joined : (a b : Bytes) → (a ++ slash ∷ []) ++ b ≡ a ++ slash ∷ b
joined [] b = refl
joined (x ∷ a) b = ap (λ r. x ∷ r) (joined a b)

slash_suffix : (a : Bytes) → has_slash_suffix (a ++ slash ∷ []) ≡ true
slash_suffix [] = refl
slash_suffix (x ∷ []) = refl
slash_suffix (x ∷ y ∷ a) = slash_suffix (y ∷ a)

-- A base path and a request path are joined by exactly one slash, whichever of the two has it:
-- where the first ends and the second begins without one, the four ways to add slashes between
-- them give the same path.
pub single_joining_slash_one :
    (a b : Bytes)
    → has_slash_suffix a ≡ false
    → has_prefix b (codes "/") ≡ false
    → (single_joining_slash a b ≡ a ++ slash ∷ b)
      × ((single_joining_slash (a ++ slash ∷ []) b ≡ a ++ slash ∷ b)
          × ((single_joining_slash a (slash ∷ b) ≡ a ++ slash ∷ b)
              × (single_joining_slash (a ++ slash ∷ []) (slash ∷ b) ≡ a ++ slash ∷ b)))
unfolding single_joining_slash
single_joining_slash_one a b h k = (
  rw (h, k) (joined a b),
  (rw (slash_suffix a, k) (joined a b), (rw h refl, rw (slash_suffix a) (joined a b))),
)
