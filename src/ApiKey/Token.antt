-- ===== src/ApiKey/Token.antt =====
-- backend/internal/apikey/token.go: the shape of a token, mf_live_<kid>_<secret>. The random bytes, in
-- hexadecimal and base64url, are arguments; SHA-256 in hexadecimal is a parameter.
use Prim.Native.String.append
use Prim.Native.String.{[] as empty, ◌∷◌ as ◌▹◌, ◌++◌ as ◌<>◌}
use Prim.Native.Char.{Char, code}
use mailfold.Prelude.{
  ℕ, String, ◌≡◌, ◌≢◌, refl, Bool, true, false, ◌||◌, Option, none, some, str_eq, ◌==◌,
  if◌then◌else◌, arith, eq_iff, Bool-cases, inl, inr,
}

abbrev pub token_prefix : String
token_prefix = "mf_live_"

abbrev underscore : ℕ
underscore = 95

-- strings.HasPrefix, and what follows the prefix
unfoldable pub after_prefix : String → String → Option String
after_prefix empty s = some s
after_prefix (p ▹ ps) empty = none
after_prefix (p ▹ ps) (c ▹ s) =
    let rest = after_prefix ps s in if code p == code c then rest else none

abbrev pub push : Char → Option (String × String) → Option (String × String)
push c none = none
push c (some (before, behind)) = some (c ▹ before, behind)

-- strings.SplitN(rest, "_", 2), where there are two parts
unfoldable pub split_first : String → Option (String × String)
split_first empty = none
split_first (c ▹ s) =
    let rest = split_first s in if code c == underscore then some ("", s) else push c rest

unfoldable pub kid_of : Option (String × String) → Option String
kid_of none = none
kid_of (some (kid, secret)) = if str_eq kid "" || str_eq secret "" then none else some kid

unfoldable pub parse_rest : Option String → Option String
unfolding split_first kid_of
parse_rest none = none
parse_rest (some rest) = kid_of (split_first rest)

-- ErrMalformedToken is `none`.
unfoldable pub parse_kid : String → Option String
unfolding after_prefix parse_rest
parse_kid token = parse_rest (after_prefix token_prefix token)

unfoldable pub new_token : String → String → String
new_token kid secret = token_prefix <> (kid <> ("_" <> secret))

unfoldable pub token_matches : (String → String) → String → String → Bool
token_matches hash_token presented stored = str_eq (hash_token presented) stored

-- No underscore in a text, as in hexadecimal.
unfoldable pub lacks_underscore : String → Bool
lacks_underscore empty = true
lacks_underscore (c ▹ s) =
    let rest = lacks_underscore s in if code c == underscore then false else rest

same_code : (c : Char) → (code c == code c) ≡ true
same_code c = ground arith

after_prefix-append : (p s : String) → after_prefix p (p <> s) ≡ some s
unfolding after_prefix
after_prefix-append empty s = rw (append.nil s) refl
after_prefix-append (c ▹ p) s = rw (append.cons c p s, same_code c) (after_prefix-append p s)

split_first-append :
    (kid secret : String)
    → lacks_underscore kid ≡ true
    → split_first (kid <> ("_" <> secret)) ≡ some (kid, secret)
unfolding split_first lacks_underscore
split_first-append empty secret h =
    rw (append.nil ("_" <> secret), append.cons, append.nil secret) refl
split_first-append (c ▹ kid) secret h = elim (Bool-cases (code c == underscore)) [
  | inl hit ↦ (let e : false ≡ true = rw hit at h in cc)
  | inr miss ↦
      (let e : lacks_underscore kid ≡ true = rw miss at h in
        rw (append.cons c kid ("_" <> secret), miss, split_first-append kid secret e) refl)
]

-- The key id of a new token, in which an id has no underscore and neither part is empty, is read back,
-- also where the secret has underscores of its own.
pub parse_kid-new_token :
    (kid secret : String)
    → lacks_underscore kid ≡ true
    → kid ≢ ""
    → secret ≢ ""
    → parse_kid (new_token kid secret) ≡ some kid
unfolding parse_kid new_token parse_rest kid_of
parse_kid-new_token kid secret h named hidden =
    rw (after_prefix-append token_prefix (kid <> ("_" <> secret)), split_first-append kid secret h)
      (ground (arith, eq_iff kid "", eq_iff secret ""))
