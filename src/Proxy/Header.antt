-- ===== src/Proxy/Header.antt =====
-- http.Header of Go's net/http as the proxy uses it, app/internal/proxy/stripper.go, and Apply of
-- app/internal/proxy/injector.go. A header is its fields, in order for each name.
pub mod Owner
use session_proxy.Base.{
  ℕ, ◌+◌, ◌-◌, Bool, true, false, not, ◌&&◌, ◌||◌, Option, none, some, List, [], ◌∷◌, ◌++◌, map,
  leb, ◌==◌, if◌then◌else◌, any_row, where_rows,
}
use session_proxy.Base.Bytes.{Bytes, codes, bytes_eq, to_lower}

pub record Field : Type 0 where
  pub name : Bytes
  pub value : Bytes

abbrev pub Header : Type 0
Header = List Field

-- The bytes of a header name.
abbrev is_token_byte : ℕ → Bool
is_token_byte c =
    leb b'0' c && leb c b'9'
    || (leb b'A' c && leb c b'Z'
        || (leb b'a' c && leb c b'z' || any_row (λ k. k == c) (codes "!#$%&'*+-.^_`|~")))

abbrev to_upper : ℕ → ℕ
to_upper c = if leb b'a' c && leb c b'z' then c - 32 else c

-- Upper case at the start and after a dash, lower case elsewhere.
abbrev recased : Bool → Bytes → Bytes
recased upper [] = []
recased upper (c ∷ s) = (if upper then to_upper c else to_lower c) ∷ recased (c == b'-') s

abbrev is_field_name : Bytes → Bool
is_field_name s = not (any_row (λ c. not (is_token_byte c)) s)

-- textproto.CanonicalMIMEHeaderKey, which leaves a text that is no header name
unfoldable pub canonical : Bytes → Bytes
canonical s = if is_field_name s then recased true s else s

abbrev pub is_named : Bytes → Field → Bool
is_named name f = bytes_eq f.name name

-- h[name], for a canonical name
abbrev pub values_of : Bytes → Header → List Bytes
values_of name h = map (λ f. f.value) (where_rows (is_named name) h)

unfoldable pub del : Bytes → Header → Header
unfolding canonical
del name h = where_rows (λ f. not (is_named (canonical name) f)) h

unfoldable pub add : Bytes → Bytes → Header → Header
unfolding canonical
add name value h = h ++ record { name = canonical name; value = value } ∷ []

abbrev pub cookie_name : Bytes
cookie_name = codes "Cookie"

abbrev pub authorization_name : Bytes
authorization_name = codes "Authorization"

-- http.Cookie as the plan holds it
pub record Cookie : Type 0 where
  pub name : Bytes
  pub value : Bytes

-- sanitizeCookieName and sanitizeCookieValue of net/http
abbrev clean_name : Bytes → Bytes
clean_name s = map (λ c. if c == 10 || c == 13 then b'-' else c) s

abbrev is_cookie_byte : ℕ → Bool
is_cookie_byte c = leb 32 c && leb c 126 && not (c == 34) && not (c == b';') && not (c == 92)

abbrev quoted : Bytes → Bytes
quoted v = if any_row (λ c. c == b' ' || c == b',') v then 34 ∷ (v ++ 34 ∷ []) else v

abbrev clean_value : Bytes → Bytes
clean_value s = quoted (where_rows is_cookie_byte s)

abbrev pub cookie_pair : Cookie → Bytes
cookie_pair c = clean_name c.name ++ (b'=' ∷ clean_value c.value)

-- What r.Header.Get("Cookie") and the pair make up.
abbrev pub with_pair : List Bytes → Bytes → Bytes
with_pair [] pair = pair
with_pair ([] ∷ vs) pair = pair
with_pair ((c ∷ v) ∷ vs) pair = (c ∷ v) ++ (codes "; " ++ pair)

-- r.AddCookie: one Cookie field, with the pairs in order
unfoldable pub add_cookie : Cookie → Header → Header
unfolding add del
add_cookie c h =
    add cookie_name (with_pair (values_of cookie_name h) (cookie_pair c)) (del cookie_name h)

abbrev pub identity_headers : List Bytes
identity_headers =
    codes "Set-Cookie" ∷ codes "Set-Cookie2" ∷ codes "Authorization" ∷ codes "X-Powered-By" ∷ []

del_all : List Bytes → Header → Header
unfolding del
del_all [] h = h
del_all (n ∷ ns) h = del_all ns (del n h)

unfoldable pub strip_identity_headers : Header → Header
unfolding del_all
strip_identity_headers h = del_all identity_headers h

pub record InjectionPlan : Type 0 where
  pub cookies : List Cookie
  pub headers : Header

unfoldable pub add_cookies : List Cookie → Header → Header
unfolding add_cookie
add_cookies [] h = h
add_cookies (c ∷ cs) h = add_cookies cs (add_cookie c h)

unfoldable pub add_fields : Header → Header → Header
unfolding add
add_fields [] h = h
add_fields (f ∷ fs) h = add_fields fs (add f.name f.value h)

unfoldable pub apply : InjectionPlan → Header → Header
unfolding add_fields add_cookies del
apply p out =
    add_fields p.headers (add_cookies p.cookies (del authorization_name (del cookie_name out)))
