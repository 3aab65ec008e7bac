-- ===== src/Blacklist.antt =====
-- app/internal/service/blacklist_service.go: which rule blocks a request. Go's regexp package is
-- the parameter `regexp_match`: none where the pattern does not compile.
pub mod Blocks
mod Tests
use session_proxy.Base.{
  Bool, true, ◌&&◌, ◌||◌, not, Option, none, some, List, [], ◌∷◌, if◌then◌else◌, str_eq,
}
use session_proxy.Base.Bytes.{Bytes, has_prefix, equal_fold}
use session_proxy.Domain.{BlacklistedEndpoint, pattern_type_regex}

-- net/http lets only an ASCII method through; a listed method is any text.
unfoldable pub contains_method : List Bytes → Bytes → Bool
contains_method [] method = Bool.false
contains_method (m ∷ methods) method =
    if equal_fold m method then true else contains_method methods method

-- `len(rule.BlockedMethods) > 0`
abbrev pub lists_methods : List Bytes → Bool
lists_methods [] = Bool.false
lists_methods (_ ∷ _) = true

-- A pattern that does not compile fails closed.
abbrev pub closed_on_error : Option Bool → Bool
closed_on_error none = true
closed_on_error (some matched) = matched

module _ (regexp_match : Bytes → Bytes → Option Bool) where
  unfoldable pub path_matches : BlacklistedEndpoint → Bytes → Bool
  path_matches rule path =
      if str_eq rule.pattern_type pattern_type_regex
      then closed_on_error (regexp_match rule.pattern path)
      else has_prefix path rule.pattern

  unfoldable pub match_rules : List BlacklistedEndpoint → Bytes → Bytes → Option BlacklistedEndpoint
  unfolding path_matches contains_method
  match_rules [] method path = none
  match_rules (rule ∷ rules) method path =
      let rest = match_rules rules method path in
      if not (path_matches rule path)
      then rest
      else if lists_methods rule.blocked_methods
          && not (contains_method rule.blocked_methods method)
      then rest
      else some rule
