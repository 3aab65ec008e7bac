-- ===== src/Proxy/Header/Owner.antt =====
-- The guest's credentials do not reach the target site, and the owner's do not reach the guest.
use session_proxy.Base.{
  append-nil, ◌≡◌, ◌≢◌, refl, sym, ap, ◌∙◌, subst, true, false, List, [], ◌∷◌, ◌++◌, map, All,
  if◌then◌else◌, Bool-cases, inl, inr,
}
use session_proxy.Base.Bytes.{Bytes, bytes_eq, bytes_eq_self, bytes_eq_sound}
use session_proxy.Proxy.Header.{
  Field, Header, canonical, is_named, values_of, del, add, cookie_name, authorization_name, Cookie,
  cookie_pair, with_pair, add_cookie, identity_headers, del_all, strip_identity_headers,
  InjectionPlan, add_cookies, add_fields, apply,
}

values-append :
    (name : Bytes) (h k : Header) → values_of name (h ++ k) ≡ values_of name h ++ values_of name k
values-append name [] k = refl
values-append name (f ∷ h) k = elim (Bool-cases (is_named name f)) [
  | inl e ↦ rw e (ap (λ vs. f.value ∷ vs) (values-append name h k))
  | inr e ↦ rw e (values-append name h k)
]

values-del : (name : Bytes) (h : Header) → values_of (canonical name) (del name h) ≡ []
unfolding del
values-del name [] = refl
values-del name (f ∷ h) = elim (Bool-cases (is_named (canonical name) f)) [
  | inl e ↦ rw e (values-del name h)
  | inr e ↦ rw (e, e) (values-del name h)
]

different : (a b : Bytes) → a ≢ b → bytes_eq a b ≡ false
different a b k = elim (Bool-cases (bytes_eq a b)) [
  | inl t ↦ absurd (k (bytes_eq_sound a b t))
  | inr t ↦ t
]

distinct : (a b : Bytes) → bytes_eq a b ≡ false → a ≢ b
distinct a b h e = absurd (true_not_false (sym (bytes_eq_self a) ∙ (ap (bytes_eq a) e ∙ h)))
  where
    true_not_false : ¬ (true ≡ false)
    true_not_false e = cc

-- A field has one name.
not_both : (a b : Bytes) (f : Field) → a ≢ b → is_named a f ≡ true → is_named b f ≡ false
not_both a b f k e = elim (Bool-cases (is_named b f)) [
  | inl t ↦ absurd (k (sym (bytes_eq_sound f.name a e) ∙ bytes_eq_sound f.name b t))
  | inr t ↦ t
]

values-del_other :
    (name other : Bytes) (h : Header)
    → canonical name ≢ other
    → values_of other (del name h) ≡ values_of other h
unfolding del
values-del_other name other [] k = refl
values-del_other name other (f ∷ h) k = elim (Bool-cases (is_named (canonical name) f)) [
  | inl e ↦ rw (e, not_both (canonical name) other f k e) (values-del_other name other h k)
  | inr e ↦ rw e (elim (Bool-cases (is_named other f)) [
    | inl t ↦ rw t (ap (λ vs. f.value ∷ vs) (values-del_other name other h k))
    | inr t ↦ rw t (values-del_other name other h k)
  ])
]

values-add :
    (name value : Bytes) (h : Header)
    → values_of (canonical name) (add name value h) ≡ values_of (canonical name) h ++ value ∷ []
unfolding add
values-add name value h =
    values-append (canonical name) h _ ∙ rw (bytes_eq_self (canonical name)) refl

values-add_other :
    (name value other : Bytes) (h : Header)
    → canonical name ≢ other
    → values_of other (add name value h) ≡ values_of other h
unfolding add
values-add_other name value other h k =
    values-append other h _
    ∙ (ap
          (λ b.
            values_of other h
            ++ map {A = Field} (λ f. f.value)
                (if b then record { name = canonical name; value = value } ∷ [] else []))
          (different (canonical name) other k)
        ∙ append-nil (values_of other h))

-- Headers that have the same values of a name.
Agree : Bytes → Header → Header → Type 0
Agree name h k = values_of name h ≡ values_of name k

cookie-canonical : canonical cookie_name ≡ cookie_name
unfolding canonical
cookie-canonical = refl

authorization-canonical : canonical authorization_name ≡ authorization_name
unfolding canonical
authorization-canonical = refl

add-Agree :
    (name value other : Bytes) (h k : Header)
    → Agree other h k
    → Agree other (add name value h) (add name value k)
unfolding Agree add
add-Agree name value other h k e =
    values-append other h _
    ∙ (ap (λ vs. vs ++ values_of other (record { name = canonical name; value = value } ∷ [])) e
        ∙ sym (values-append other k _))

add_fields-Agree :
    (fs : Header) (other : Bytes) (h k : Header)
    → Agree other h k
    → Agree other (add_fields fs h) (add_fields fs k)
unfolding add_fields
add_fields-Agree [] other h k e = e
add_fields-Agree (f ∷ fs) other h k e =
    add_fields-Agree fs other _ _ (add-Agree f.name f.value other h k e)

values-add_cookie :
    (c : Cookie) (h : Header)
    → values_of cookie_name (add_cookie c h)
      ≡ with_pair (values_of cookie_name h) (cookie_pair c) ∷ []
unfolding add_cookie canonical
values-add_cookie c h =
    values-add cookie_name _ (del cookie_name h)
    ∙ ap (λ vs. vs ++ with_pair (values_of cookie_name h) (cookie_pair c) ∷ [])
        (values-del cookie_name h)

add_cookie-Authorization :
    (c : Cookie) (h : Header)
    → values_of authorization_name (add_cookie c h) ≡ values_of authorization_name h
unfolding add_cookie canonical
add_cookie-Authorization c h =
    values-add_other cookie_name _ authorization_name (del cookie_name h) (distinct _ _ refl)
    ∙ values-del_other cookie_name authorization_name h (distinct _ _ refl)

add_cookies-Cookie :
    (cs : List Cookie) (h k : Header)
    → Agree cookie_name h k
    → Agree cookie_name (add_cookies cs h) (add_cookies cs k)
unfolding add_cookies Agree
add_cookies-Cookie [] h k e = e
add_cookies-Cookie (c ∷ cs) h k e = add_cookies-Cookie cs _ _ (
    values-add_cookie c h
    ∙ (ap (λ vs. with_pair vs (cookie_pair c) ∷ []) e ∙ sym (values-add_cookie c k)))

add_cookies-Authorization :
    (cs : List Cookie) (h k : Header)
    → Agree authorization_name h k
    → Agree authorization_name (add_cookies cs h) (add_cookies cs k)
unfolding add_cookies Agree
add_cookies-Authorization [] h k e = e
add_cookies-Authorization (c ∷ cs) h k e =
    add_cookies-Authorization cs _ _
      (add_cookie-Authorization c h ∙ (e ∙ sym (add_cookie-Authorization c k)))

cleared-Cookie :
    (h : Header) → values_of cookie_name (del authorization_name (del cookie_name h)) ≡ []
unfolding canonical
cleared-Cookie h =
    values-del_other authorization_name cookie_name (del cookie_name h) (distinct _ _ refl)
    ∙ values-del cookie_name h

cleared-Authorization :
    (h : Header) → values_of authorization_name (del authorization_name (del cookie_name h)) ≡ []
unfolding canonical
cleared-Authorization h = values-del authorization_name (del cookie_name h)

-- Apply gives the outgoing request Cookie and Authorization values that are the same whatever the
-- guest sent: none of the guest's own reaches the target site.
pub apply_ignores_guest :
    (p : InjectionPlan) (guest other : Header)
    → (values_of cookie_name (apply p guest) ≡ values_of cookie_name (apply p other))
      × (values_of authorization_name (apply p guest)
          ≡ values_of authorization_name (apply p other))
unfolding apply Agree
apply_ignores_guest p guest other = (
  add_fields-Agree p.headers cookie_name _ _
      (add_cookies-Cookie p.cookies _ _ (cleared-Cookie guest ∙ sym (cleared-Cookie other))),
  add_fields-Agree p.headers authorization_name _ _ (
      add_cookies-Authorization p.cookies _ _
        (cleared-Authorization guest ∙ sym (cleared-Authorization other))),
)

del_all-others :
    (ns : List Bytes) (other : Bytes) (h : Header)
    → All (λ n. canonical n ≢ other) ns
    → values_of other (del_all ns h) ≡ values_of other h
unfolding del_all
del_all-others [] other h k = refl
del_all-others (n ∷ ns) other h k =
    del_all-others ns other (del n h) k.1 ∙ values-del_other n other h k.0

-- What is deleted stays so.
del_all-empty :
    (ns : List Bytes) (name : Bytes) (h : Header)
    → values_of name h ≡ []
    → values_of name (del_all ns h) ≡ []
unfolding del_all
del_all-empty [] name h e = e
del_all-empty (n ∷ ns) name h e =
    del_all-empty ns name (del n h) (elim (Bool-cases (bytes_eq (canonical n) name)) [
      | inl t ↦
          subst (λ k. values_of k (del n h) ≡ []) (bytes_eq_sound (canonical n) name t)
            (values-del n h)
      | inr t ↦ values-del_other n name h (distinct _ _ t) ∙ e
    ])

del_all-All :
    (ns : List Bytes) (h : Header) → All (λ n. values_of (canonical n) (del_all ns h) ≡ []) ns
unfolding del_all
del_all-All [] h = tt
del_all-All (n ∷ ns) h =
    (del_all-empty ns (canonical n) (del n h) (values-del n h), del_all-All ns (del n h))

pub strip_identity_headers_exact :
    (h : Header)
    → All (λ n. values_of n (strip_identity_headers h) ≡ []) identity_headers
      × ((other : Bytes)
          → All (λ n. n ≢ other) identity_headers
          → values_of other (strip_identity_headers h) ≡ values_of other h)
unfolding strip_identity_headers canonical
strip_identity_headers_exact h =
    (del_all-All identity_headers h, λ other k. del_all-others identity_headers other h k)
