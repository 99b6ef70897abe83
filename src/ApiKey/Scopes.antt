-- ===== src/ApiKey/Scopes.antt =====
-- backend/internal/apikey/scopes.go: the scopes of a key, stored as one comma-separated text.
-- strings.TrimSpace is a parameter.
use Prim.Native.String.{[] as empty, ◌∷◌ as ◌▹◌, ◌++◌ as ◌<>◌}
use Prim.Native.String.append
use Prim.Native.Char.{Char, code}
use mailfold.Prelude.{
  ℕ, String, ◌≡◌, refl, sym, ◌∙◌, ap, Bool, true, false, ◌||◌, List, [], ◌∷◌, All, str_eq, ◌==◌,
  if◌then◌else◌, arith, eq_iff, Bool-cases, inl, inr,
}

abbrev pub scope_send : String
scope_send = "mail:send"

abbrev pub scope_read : String
scope_read = "mail:read"

abbrev pub scope_write : String
scope_write = "mail:write"

unfoldable pub default_scopes : List String
default_scopes = scope_send ∷ scope_read ∷ scope_write ∷ []

unfoldable pub valid_scope : String → Bool
valid_scope s = str_eq s scope_send || (str_eq s scope_read || str_eq s scope_write)

abbrev comma : ℕ
comma = 44

-- strings.Join(scopes, ",")
unfoldable pub join_scopes : List String → String
join_scopes [] = ""
join_scopes (s ∷ []) = s
join_scopes (s ∷ t ∷ l) = s <> ("," <> join_scopes (t ∷ l))

unfoldable pub to_first : Char → List String → List String
to_first c [] = (c ▹ "") ∷ []
to_first c (part ∷ parts) = (c ▹ part) ∷ parts

-- strings.Split(s, ",")
unfoldable pub split_commas : String → List String
unfolding to_first
split_commas empty = "" ∷ []
split_commas (c ▹ s) =
    let rest = split_commas s in if code c == comma then "" ∷ rest else to_first c rest

unfoldable pub not_blank : (String → String) → List String → List String
not_blank trim [] = []
not_blank trim (p ∷ ps) =
    let rest = not_blank trim ps in if str_eq (trim p) "" then rest else trim p ∷ rest

unfoldable pub split_scopes : (String → String) → String → List String
unfolding split_commas not_blank
split_scopes trim s = if str_eq s "" then [] else not_blank trim (split_commas s)

unfoldable pub contains : String → List String → Bool
contains want [] = false
contains want (s ∷ l) = let rest = contains want l in if str_eq s want then true else rest

unfoldable pub has_scope : (String → String) → String → String → Bool
unfolding split_scopes contains
has_scope trim stored want = contains want (split_scopes trim stored)

-- No comma in a text.
unfoldable pub lacks_comma : String → Bool
lacks_comma empty = true
lacks_comma (c ▹ s) = let rest = lacks_comma s in if code c == comma then false else rest

split-lacks : (s : String) → lacks_comma s ≡ true → split_commas s ≡ s ∷ []
unfolding split_commas lacks_comma to_first
split-lacks empty h = refl
split-lacks (c ▹ s) h = ground (arith, split-lacks s)

split-append :
    (s rest : String)
    → lacks_comma s ≡ true
    → split_commas (s <> ("," <> rest)) ≡ s ∷ split_commas rest
unfolding split_commas lacks_comma to_first
split-append empty rest h = rw (append.nil ("," <> rest), append.cons, append.nil rest) refl
split-append (c ▹ s) rest h = elim (Bool-cases (code c == comma)) [
  | inl hit ↦ (let e : false ≡ true = rw hit at h in cc)
  | inr miss ↦
      (let e : lacks_comma s ≡ true = rw miss at h in
        rw (append.cons, miss, split-append s rest e) refl)
]

split-join :
    (s : String) (l : List String)
    → All (λ x. lacks_comma x ≡ true) (s ∷ l)
    → split_commas (join_scopes (s ∷ l)) ≡ s ∷ l
unfolding join_scopes
split-join s [] h = split-lacks s h.0
split-join s (t ∷ l) h = split-append s _ h.0 ∙ ap (λ r. s ∷ r) (split-join t l h.1)

not_blank-same :
    (trim : String → String) (l : List String)
    → All (λ x. trim x ≡ x) l
    → All (λ x. str_eq x "" ≡ false) l
    → not_blank trim l ≡ l
unfolding not_blank
not_blank-same trim [] t h = refl
not_blank-same trim (x ∷ l) t h = rw (t.0, h.0) (ap (λ r. x ∷ r) (not_blank-same trim l t.1 h.1))

first_valid : (s : String) → valid_scope s ≡ true → (lacks_comma s ≡ true) × (str_eq s "" ≡ false)
unfolding valid_scope lacks_comma
first_valid s h = elim (Bool-cases (str_eq s scope_send)) [
  | inl e ↦ known scope_send ((eq_iff s scope_send).0 e) refl refl
  | inr other ↦ elim (Bool-cases (str_eq s scope_read)) [
    | inl e ↦ known scope_read ((eq_iff s scope_read).0 e) refl refl
    | inr other' ↦
        (let e : str_eq s scope_write ≡ true = rw (other, other') at h in
          known scope_write ((eq_iff s scope_write).0 e) refl refl)
  ]
]
  where
    known :
        (w : String)
        → s ≡ w
        → lacks_comma w ≡ true
        → str_eq w "" ≡ false
        → (lacks_comma s ≡ true) × (str_eq s "" ≡ false)
    known w e l b = rw e (l, b)

scopes_fit :
    (l : List String)
    → All (λ s. valid_scope s ≡ true) l
    → All (λ s. lacks_comma s ≡ true) l × All (λ s. str_eq s "" ≡ false) l
scopes_fit [] h = (tt, tt)
scopes_fit (s ∷ l) h =
    let first = first_valid s h.0 in
    let rest = scopes_fit l h.1 in ((first.0, rest.0), (first.1, rest.1))

-- Recognised scopes, which strings.TrimSpace leaves as they are, read back from the stored text as they
-- were given, in order and with repetitions.
pub split_scopes-join_scopes :
    (trim : String → String) (l : List String)
    → All (λ s. valid_scope s ≡ true) l
    → All (λ s. trim s ≡ s) l
    → split_scopes trim (join_scopes l) ≡ l
unfolding split_scopes join_scopes
split_scopes-join_scopes trim [] h t = refl
split_scopes-join_scopes trim (s ∷ l) h t =
    let v = scopes_fit (s ∷ l) h in
    rw (joined_not_empty, split-join s l v.0) (not_blank-same trim (s ∷ l) t v.1)
  where
    joined_not_empty : str_eq (join_scopes (s ∷ l)) "" ≡ false
    joined_not_empty = elim (Bool-cases (str_eq (join_scopes (s ∷ l)) "")) [
      | inr other ↦ other
      | inl e ↦
          (let v = scopes_fit (s ∷ l) h in
            let parts : "" ∷ [] ≡ s ∷ l =
              ap split_commas (sym ((eq_iff (join_scopes (s ∷ l)) "").0 e)) ∙ split-join s l v.0 in
            let blank : str_eq s "" ≡ true = (eq_iff s "").1 (cc) in cc (v.1.0))
    ]

-- A key that was stored with recognised scopes, which strings.TrimSpace leaves as they are, is granted
-- exactly those.
pub has_scope-join_scopes :
    (trim : String → String) (l : List String) (want : String)
    → All (λ s. valid_scope s ≡ true) l
    → All (λ s. trim s ≡ s) l
    → has_scope trim (join_scopes l) want ≡ contains want l
unfolding has_scope
has_scope-join_scopes trim l want h t = ap (contains want) (split_scopes-join_scopes trim l h t)
