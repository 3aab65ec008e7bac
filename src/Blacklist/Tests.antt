-- ===== src/Blacklist/Tests.antt =====
-- Rules of a link, and the theorems of Blacklist at them.
use session_proxy.Base.{◌≡◌, refl, Bool, Option, none, some, [], ◌∷◌, ◌++◌, true}
use session_proxy.Base.Bytes.{Bytes, codes, equal_fold}
use session_proxy.Domain.{BlacklistedEndpoint}
use session_proxy.Blacklist.{match_rules}
use session_proxy.Blacklist.Blocks.{FirstBlocking, match_rules_first}

-- An engine that compiles no pattern.
abbrev broken : Bytes → Bytes → Option Bool
broken pattern path = none

abbrev settings : BlacklistedEndpoint
settings = record {
  id = 1;
  user_id = 7;
  pattern = codes "/settings";
  pattern_type = "prefix";
  description = none;
  created_at = 0;
  blocked_methods = codes "POST" ∷ [];
}

abbrev regex_rule : BlacklistedEndpoint
regex_rule = record settings {
  id = 2;
  pattern = codes "(";
  pattern_type = "regex";
  blocked_methods = [];
}

post_is_blocked :
    match_rules broken (settings ∷ []) (codes "post") (codes "/settings/a") ≡ some settings
unfolding match_rules
post_is_blocked = refl

get_passes : match_rules broken (settings ∷ []) (codes "GET") (codes "/settings/a") ≡ none
unfolding match_rules
get_passes = refl

broken_regex_blocks :
    match_rules broken (settings ∷ regex_rule ∷ []) (codes "GET") (codes "/") ≡ some regex_rule
unfolding match_rules
broken_regex_blocks = refl

match_rules_first_example :
    FirstBlocking broken
      (codes "GET")
      (codes "/")
      (settings ∷ regex_rule ∷ [])
      (match_rules broken (settings ∷ regex_rule ∷ []) (codes "GET") (codes "/"))
match_rules_first_example =
    match_rules_first broken (settings ∷ regex_rule ∷ []) (codes "GET") (codes "/")

-- The Kelvin sign, U+212A, folds to k.
kelvin_folds : equal_fold (codes "LIN" ++ 226 ∷ 132 ∷ 170 ∷ []) (codes "link") ≡ true
kelvin_folds = refl
