-- ===== src/Blacklist/Blocks.antt =====
-- What it means that a rule blocks a request, without the matching loop.
use session_proxy.Base.{
  ◌≡◌, ◌≢◌, refl, ap, ◌∙◌, ◌⊎◌, inl, inr, Bool, true, false, ◌&&◌, not, Option, none, some, List,
  [], ◌∷◌, arith, if◌then◌else◌, str_eq, eq_iff, Bool-cases, Option-cases,
}
use session_proxy.Base.Bytes.{Bytes, has_prefix, equal_fold}
use session_proxy.Domain.{BlacklistedEndpoint, pattern_type_regex}
use session_proxy.Blacklist.{path_matches, match_rules, contains_method, lists_methods}

-- Some listed method is the request's, up to case.
pub data Lists (method : Bytes) : List Bytes → Type 0 where
  here : {m : Bytes} {ms : List Bytes} → equal_fold m method ≡ true → Lists method (m ∷ ms)
  there : {m : Bytes} {ms : List Bytes} → Lists method ms → Lists method (m ∷ ms)

module _ (regexp_match : Bytes → Bytes → Option Bool) where
  -- A regular expression matches or does not compile; any other pattern is a prefix.
  pub data PathBlocked (rule : BlacklistedEndpoint) (path : Bytes) : Type 0 where
    by_regex :
        rule.pattern_type ≡ pattern_type_regex
        → regexp_match rule.pattern path ≡ some true
        → PathBlocked rule path
    by_broken_regex :
        rule.pattern_type ≡ pattern_type_regex
        → regexp_match rule.pattern path ≡ none
        → PathBlocked rule path
    by_prefix :
        rule.pattern_type ≢ pattern_type_regex
        → has_prefix path rule.pattern ≡ true
        → PathBlocked rule path

  -- No listed method means every method.
  abbrev pub Blocks : BlacklistedEndpoint → Bytes → Bytes → Type 0
  Blocks rule method path =
      PathBlocked rule path × ((rule.blocked_methods ≡ []) ⊎ Lists method rule.blocked_methods)

-- A rule blocks, as the loop tests it.
module _ (regexp_match : Bytes → Bytes → Option Bool) where
  abbrev rule_blocks : BlacklistedEndpoint → Bytes → Bytes → Bool
  rule_blocks rule method path =
      if not (path_matches regexp_match rule path)
      then false
      else if lists_methods rule.blocked_methods
          && not (contains_method rule.blocked_methods method)
      then false
      else true

contains_method_sound :
    (ms : List Bytes) (method : Bytes) → contains_method ms method ≡ true → Lists method ms
unfolding contains_method
contains_method_sound [] method h = cc
contains_method_sound (m ∷ ms) method h = elim (Bool-cases (equal_fold m method)) [
  | inl e ↦ here e
  | inr e ↦ there (contains_method_sound ms method (rw e at h))
]

contains_method_complete :
    (method : Bytes) {ms : List Bytes} → Lists method ms → contains_method ms method ≡ true
unfolding contains_method
contains_method_complete method (here e) = rw e
contains_method_complete method (there l) = ground (arith, contains_method_complete method l)

module _ (regexp_match : Bytes → Bytes → Option Bool) where
  path_matches_sound :
      (rule : BlacklistedEndpoint) (path : Bytes)
      → path_matches regexp_match rule path ≡ true
      → PathBlocked regexp_match rule path
  unfolding path_matches
  path_matches_sound rule path h = elim (Bool-cases (str_eq rule.pattern_type pattern_type_regex)) [
    | inl t ↦ elim (Option-cases (regexp_match rule.pattern path)) [
      | inl e ↦ by_broken_regex ((eq_iff _ _).0 t) e
      | inr (m, e) ↦ by_regex ((eq_iff _ _).0 t) (e ∙ ap some (ground arith))
    ]
    | inr t ↦ by_prefix (λ e. ground (arith, eq_iff rule.pattern_type "regex")) (ground arith)
  ]

  path_matches_complete :
      (rule : BlacklistedEndpoint) (path : Bytes)
      → PathBlocked regexp_match rule path
      → path_matches regexp_match rule path ≡ true
  unfolding path_matches
  path_matches_complete rule path (by_regex t e) = ground (arith, eq_iff rule.pattern_type "regex")
  path_matches_complete rule path (by_broken_regex t e) =
      ground (arith, eq_iff rule.pattern_type "regex")
  path_matches_complete rule path (by_prefix t e) = ground (arith, eq_iff rule.pattern_type "regex")

  rule_blocks_sound :
      (rule : BlacklistedEndpoint) (method path : Bytes)
      → rule_blocks regexp_match rule method path ≡ true
      → Blocks regexp_match rule method path
  rule_blocks_sound rule method path h =
      (path_matches_sound rule path (ground arith), listed rule.blocked_methods (ground arith))
    where
      listed :
          (ms : List Bytes)
          → (lists_methods ms && not (contains_method ms method)) ≡ false
          → (ms ≡ []) ⊎ Lists method ms
      listed [] h = inl refl
      listed (m ∷ ms) h = inr (contains_method_sound (m ∷ ms) method (ground arith))

  rule_blocks_complete :
      (rule : BlacklistedEndpoint) (method path : Bytes)
      → Blocks regexp_match rule method path
      → rule_blocks regexp_match rule method path ≡ true
  rule_blocks_complete rule method path (p, inl e) = rw (path_matches_complete rule path p, e)
  rule_blocks_complete rule method path (p, inr l) =
      rw (path_matches_complete rule path p, contains_method_complete method l) (ground arith)

  match_rules_step :
      (rule : BlacklistedEndpoint) (rules : List BlacklistedEndpoint) (method path : Bytes)
      → match_rules regexp_match (rule ∷ rules) method path ≡ (
          if rule_blocks regexp_match rule method path
          then some rule
          else match_rules regexp_match rules method path)
  unfolding match_rules
  match_rules_step rule rules method path = ground arith

  -- The outcome of a search for the first rule that blocks.
  pub data FirstBlocking (method path : Bytes)
      : List BlacklistedEndpoint → Option BlacklistedEndpoint → Type 0 where
    nothing : FirstBlocking method path [] none
    found :
        {r : BlacklistedEndpoint} {rs : List BlacklistedEndpoint}
        → Blocks regexp_match r method path
        → FirstBlocking method path (r ∷ rs) (some r)
    later :
        {r : BlacklistedEndpoint} {rs : List BlacklistedEndpoint} {o : Option BlacklistedEndpoint}
        → ¬ Blocks regexp_match r method path
        → FirstBlocking method path rs o
        → FirstBlocking method path (r ∷ rs) o

  -- For every list of rules, method and path, the search returns the first rule of the list that
  -- blocks the request, and no rule exactly when none blocks it: a rule blocks if its prefix or
  -- regular expression matches, or its regular expression is broken, and its methods are empty or
  -- list the request's up to case.
  pub match_rules_first :
      (rules : List BlacklistedEndpoint) (method path : Bytes)
      → FirstBlocking method path rules (match_rules regexp_match rules method path)
  match_rules_first [] method path = unfold match_rules in nothing
  match_rules_first (r ∷ rs) method path =
      elim (Bool-cases (rule_blocks regexp_match r method path)) [
        | inl e ↦
            rw (match_rules_step r rs method path, e) (found (rule_blocks_sound r method path e))
        | inr e ↦
            rw (match_rules_step r rs method path, e)
              (later (λ b. cc (rule_blocks_complete r method path b))
                (match_rules_first rs method path))
      ]
