-- ===== src/Proxy/Path.antt =====
-- app/internal/proxy/handler.go and director.go: the paths of the guest's and of the outgoing
-- request, and inactiveReason.
pub mod Laws
use session_proxy.Base.{
  ℕ, String, Bool, not, ◌&&◌, Option, none, some, List, [], ◌∷◌, ◌++◌, ◌==◌, str_eq, if◌then◌else◌,
  drop,
}
use session_proxy.Base.Int.{ℤ, pos, ltb_ℤ}
use session_proxy.Base.Bytes.{Bytes, codes, has_prefix, trim_prefix, has_slash_suffix}
use session_proxy.Domain.{LinkWithSession, link_status_active, session_status_active}

abbrev pub slash : ℕ
slash = b'/'

abbrev pub route_prefix : Bytes
route_prefix = codes "/r/"

-- rest[:slash] and rest[slash:], with `(rest, "/")` where strings.IndexByte finds none
unfoldable pub split_at_slash : Bytes → Bytes × Bytes
split_at_slash [] = ([], slash ∷ [])
split_at_slash (c ∷ rest) =
    let (token, path) = split_at_slash rest in
    if c == slash then ([], c ∷ rest) else (c ∷ token, path)

split_rest : Bytes → Option (Bytes × Bytes)
split_rest [] = none
split_rest (c ∷ rest) = some (split_at_slash (c ∷ rest))

unfoldable pub parse_token_and_path : Bytes → Option (Bytes × Bytes)
unfolding split_rest
parse_token_and_path p =
    if has_prefix p route_prefix then split_rest (trim_prefix p route_prefix) else none

unfoldable pub single_joining_slash : Bytes → Bytes → Bytes
single_joining_slash a b =
    if has_slash_suffix a && has_prefix b (codes "/")
    then a ++ drop 1 b
    else if not (has_slash_suffix a) && not (has_prefix b (codes "/"))
    then a ++ codes "/" ++ b
    else a ++ b

-- time.Now().After(*expires)
abbrev pub past : Option ℤ → ℕ → Bool
past none now = Bool.false
past (some t) now = ltb_ℤ t (pos now)

-- The message for a link that cannot be used, none for one that can.
unfoldable pub inactive_reason : LinkWithSession → ℕ → Option String
inactive_reason l now =
    if not (str_eq l.link.status link_status_active)
    then some "this link is no longer active"
    else if past l.link.expires_at now
    then some "this link has expired"
    else if not (str_eq l.original_session.status session_status_active)
    then some "the underlying session is no longer active"
    else none
