-- ===== src/SessionImport/Order.antt =====
-- The order of a session's rows and of what is injected from them.
use mathlib.Core.List.{Permᴰ}
use session_proxy.Base.{◌≡◌, refl, sym, ◌∙◌, subst, List, [], ◌∷◌, ◌++◌, append_assoc, append-nil}
use session_proxy.Proxy.Header.{Header, Field, add, canonical}
use session_proxy.SessionImport.{CookieInput, TokenInput}
use session_proxy.SessionImport.Plans.{
  All2, submitted_cookies, submitted_headers, name_or_authorization,
}

-- Where the rows are rearranged, the inputs that they carry are rearranged likewise.
pub All2-Permᴰ :
    {A B : Type 0} (P : A → B → Type 0) {xs zs : List A} (ys : List B)
    → Permᴰ xs zs
    → All2 P zs ys
    → (us : List B) × (All2 P xs us × Permᴰ us ys)
All2-Permᴰ P [] Permᴰ.nil h = ([], (tt, Permᴰ.nil))
All2-Permᴰ P (y ∷ ys) Permᴰ.nil h = absurd h
All2-Permᴰ P [] (Permᴰ.cons e d) h = absurd h
All2-Permᴰ P (y ∷ ys) (Permᴰ.cons e d) h =
    let (us, (k, p)) = All2-Permᴰ P ys d h.1 in
    (y ∷ us, ((subst (λ x. P x y) (sym e) h.0, k), Permᴰ.cons refl p))
All2-Permᴰ P [] (Permᴰ.swap e f) h = absurd h
All2-Permᴰ P (y ∷ []) (Permᴰ.swap e f) h = absurd h.1
All2-Permᴰ P (y ∷ z ∷ ys) (Permᴰ.swap e f) h = (
  z ∷ y ∷ ys,
  (
    (subst (λ x. P x z) (sym e) h.1.0, (subst (λ x. P x y) (sym f) h.0, h.1.1)),
    Permᴰ.swap refl refl,
  ),
)
All2-Permᴰ P ys (Permᴰ.trans d k) h =
    let (vs, (a, p)) = All2-Permᴰ P ys k h in
    let (us, (b, q)) = All2-Permᴰ P vs d a in (us, (b, Permᴰ.trans q p))

pub submitted_cookies-Permᴰ :
    {cs ds : List CookieInput} → Permᴰ cs ds → Permᴰ (submitted_cookies cs) (submitted_cookies ds)
submitted_cookies-Permᴰ Permᴰ.nil = Permᴰ.nil
submitted_cookies-Permᴰ (Permᴰ.cons e d) =
    Permᴰ.cons (λ i. record { name = (e i).name; value = (e i).value }) (submitted_cookies-Permᴰ d)
submitted_cookies-Permᴰ (Permᴰ.swap e f) =
    Permᴰ.swap (λ i. record { name = (e i).name; value = (e i).value })
      (λ i. record { name = (f i).name; value = (f i).value })
submitted_cookies-Permᴰ (Permᴰ.trans d k) =
    Permᴰ.trans (submitted_cookies-Permᴰ d) (submitted_cookies-Permᴰ k)

abbrev field_of : TokenInput → Field
field_of t = record { name = canonical (name_or_authorization t.header_name); value = t.value }

abbrev fields_of : List TokenInput → Header
fields_of [] = []
fields_of (t ∷ ts) = field_of t ∷ fields_of ts

submitted_headers-fields :
    (h : Header) (ts : List TokenInput) → submitted_headers h ts ≡ h ++ fields_of ts
unfolding add
submitted_headers-fields h [] = sym (append-nil h)
submitted_headers-fields h (t ∷ ts) =
    submitted_headers-fields (h ++ field_of t ∷ []) ts
    ∙ append_assoc h (field_of t ∷ []) (fields_of ts)

fields_of-Permᴰ : {ts us : List TokenInput} → Permᴰ ts us → Permᴰ (fields_of ts) (fields_of us)
fields_of-Permᴰ Permᴰ.nil = Permᴰ.nil
fields_of-Permᴰ (Permᴰ.cons e d) = Permᴰ.cons (λ i. field_of (e i)) (fields_of-Permᴰ d)
fields_of-Permᴰ (Permᴰ.swap e f) = Permᴰ.swap (λ i. field_of (e i)) (λ i. field_of (f i))
fields_of-Permᴰ (Permᴰ.trans d k) = Permᴰ.trans (fields_of-Permᴰ d) (fields_of-Permᴰ k)

pub submitted_headers-Permᴰ :
    {ts us : List TokenInput}
    → Permᴰ ts us
    → Permᴰ (submitted_headers [] ts) (submitted_headers [] us)
submitted_headers-Permᴰ {ts} {us} d =
    rw (submitted_headers-fields [] ts, submitted_headers-fields [] us) (fields_of-Permᴰ d)
