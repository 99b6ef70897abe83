-- ===== src/ApiKey/Compensation.antt =====
-- `handleAPIKeyCreate` of backend/internal/api/apikeys.go: a refused creation leaves no app-password.
use mailfold.Prelude.{
  All, ℕ, String, ◌≡◌, ◌⊎◌, refl, sym, ap, subst, ◌∙◌, Bool, true, false, not, Option, none, some,
  List, [], ◌∷◌, map, str_eq, arith, eq_iff, if◌then◌else◌, inl, inr, Bool-cases,
}
use mailfold.Sql.{Result, ok, err, Conn}
use mailfold.Http.{Response, answer, refuse}
use mailfold.ApiKey.Store.{Table, create}
use mailfold.ApiKey.Mint.{
  Entry, Mailcow, Env, CreateKeyRequest, Created, named, named_entries, list_by_name, recover_id,
  remove_found, delete_by_name, app_name, take_back, persisted, sealed_with, identified, added,
  mint_key, handle_create, or_default, all_scopes_valid, key_record,
}

unfoldable pub has_text : String → List String → Bool
has_text x [] = false
has_text x (y ∷ l) = let rest = has_text x l in if str_eq y x then true else rest

unfoldable pub without : List String → List Entry → List Entry
without ids [] = []
without ids (e ∷ es) = let rest = without ids es in if has_text e.id ids then rest else e ∷ rest

-- mailcow as it is documented, while it can be reached: a list shows a mailbox's app-passwords, and a
-- deletion removes those of the ids. `view` is what stands at a mailbox.
pub record Reachable {M : Type 0} (mc : Mailcow M) (view : M → String → List Entry) : Type 0 where
  pub lists :
      (mailbox : String) (m : M)
      → ((mc.entries mailbox m).0 ≡ ok (some (view m mailbox)))
        ⊎ (((mc.entries mailbox m).0 ≡ ok none) × (view m mailbox ≡ []))
  pub lists-same :
      (mailbox : String) (m : M) → view (mc.entries mailbox m).1 mailbox ≡ view m mailbox
  pub removes :
      (ids : List String) (m : M) (mailbox : String)
      → view (mc.remove ids m).1 mailbox ≡ without ids (view m mailbox)

cleared :
    (name : String) (ids : List String) (es : List Entry)
    → All (λ e. has_text e.id ids ≡ true) (named name es)
    → named name (without ids es) ≡ []
unfolding named without
cleared name ids [] h = refl
cleared name ids (e ∷ es) h = elim (Bool-cases (str_eq e.name name)) [
  | inl hit ↦
      (let h' : All (λ e. has_text e.id ids ≡ true) (e ∷ named name es) = rw hit at h in
        rw (h'.0) (cleared name ids es h'.1))
  | inr miss ↦
      (let h' : All (λ e. has_text e.id ids ≡ true) (named name es) = rw miss at h in
        ground (arith, miss, cleared name ids es h'))
]

All-listed :
    (es : List Entry) (ids : List String)
    → ((x : String) → has_text x (map (λ (e : Entry). e.id) es) ≡ true → has_text x ids ≡ true)
    → All (λ e. has_text e.id ids ≡ true) es
unfolding has_text
All-listed [] ids k = tt
All-listed (e ∷ es) ids k =
    (k e.id (ground (arith, eq_iff e.id e.id)), All-listed es ids (λ x h. k x (ground (arith, h))))

module _ {M : Type 0} (mc : Mailcow M) (view : M → String → List Entry)
    (up : Reachable mc view) where
  open mc use {entries, remove}

  removed-none :
      (mailbox name : String) (l : List Entry) (m : M)
      → named name (view m mailbox) ≡ l
      → named name (view (remove_found mc (ok l) m) mailbox) ≡ []
  unfolding remove_found
  removed-none mailbox name [] m h = h
  removed-none mailbox name (e ∷ es) m h =
      let ids = map (λ (e : Entry). e.id) (e ∷ es) in
      ap (named name) (up.removes ids m mailbox)
      ∙ cleared name ids (view m mailbox)
          (subst (All (λ e. has_text e.id ids ≡ true)) (sym h) (All-listed (e ∷ es) ids (λ x k. k)))

  deleted-none :
      (mailbox name : String) (m : M)
      → named name (view (delete_by_name mc mailbox name m) mailbox) ≡ []
  unfolding delete_by_name list_by_name named_entries named
  deleted-none mailbox name m = elim (up.lists mailbox m) [
    | inl e ↦ rw e (
        removed-none mailbox name (named name (view m mailbox)) (entries mailbox m).1
          (ap (named name) (up.lists-same mailbox m)))
    | inr (e, nothing) ↦ rw e (
        removed-none mailbox name [] (entries mailbox m).1
          (ap (named name) (up.lists-same mailbox m ∙ nothing)))
  ]

  module _ (env : Env) (req : CreateKeyRequest) (scopes : List String) (kid secret app_pw : String)
      (now : ℕ) where
    -- A refusal has left no app-password of the key's name.
    abbrev Clean : Response Created × M × Conn Table → Type 0
    Clean (refuse code message, m, c) = named (app_name kid) (view m req.mailbox) ≡ []
    Clean (answer created, m, c) = Unit {0}

    sealed-Clean :
        (app_pw_id : String) (o : Option (String × String)) (m : M) (c : Conn Table)
        → Clean (sealed_with mc env req scopes kid secret app_pw now app_pw_id o m c)
    unfolding sealed_with take_back
    sealed-Clean app_pw_id none m c = deleted-none req.mailbox (app_name kid) m
    sealed-Clean app_pw_id (some (enc, nonce)) m c =
        stored (create (key_record mc env req scopes kid secret app_pw now app_pw_id enc nonce) c).0
          (create (key_record mc env req scopes kid secret app_pw now app_pw_id enc nonce) c).1
      where
        stored :
            (r : Result (Unit {0})) (c : Conn Table)
            → Clean (persisted mc env req scopes kid secret app_pw now r m c)
        stored (ok u) c = unfold persisted in tt
        stored (err e) c = unfold persisted in deleted-none req.mailbox (app_name kid) m

    identified-Clean :
        (r : Result String) (m : M) (c : Conn Table)
        → Clean (identified mc env req scopes kid secret app_pw now r m c)
    unfolding identified take_back
    identified-Clean (err e) m c = deleted-none req.mailbox (app_name kid) m
    identified-Clean (ok id) m c = sealed-Clean id (env.seal app_pw) m c

    added-Clean :
        (r : Result Bool) (m : M) (c : Conn Table)
        → r ≡ ok true
        → Clean (added mc env req scopes kid secret app_pw now r m c)
    unfolding added
    added-Clean (err e) m c h = cc
    added-Clean (ok false) m c h = cc
    added-Clean (ok true) m c h =
        identified-Clean (recover_id mc req.mailbox (app_name kid) m).0
          (recover_id mc req.mailbox (app_name kid) m).1 c

    either-Clean :
        (b : Bool) (x y : Response Created × M × Conn Table)
        → Clean x
        → Clean y
        → Clean (if b then x else y)
    either-Clean true x y p q = p
    either-Clean false x y p q = q

    read_Clean :
        (x : Response Created × M × Conn Table) (code : ℕ) (message : String)
        → Clean x
        → x.0 ≡ refuse code message
        → named (app_name kid) (view x.1 req.mailbox) ≡ []
    read_Clean (refuse code' message', m, c) code message p h = p
    read_Clean (answer created, m, c) code message p h = cc

    mint-Clean :
        (m : M) (c : Conn Table)
        → (mc.add req.mailbox (app_name kid) app_pw m).0 ≡ ok true
        → Clean (mint_key mc env req scopes kid secret app_pw now m c)
    unfolding mint_key
    mint-Clean m c created =
        added-Clean (mc.add req.mailbox (app_name kid) app_pw m).0
          (mc.add req.mailbox (app_name kid) app_pw m).1 c created

  -- While mailcow can be reached and would report that the app-password has been added: a creation of a
  -- key that is refused, be it before mailcow is asked, because the app-password cannot be identified,
  -- by the cipher or by the key table with whatever error, leaves no app-password of the key's name at
  -- the mailbox, if there was none before. (Nothing is said of an addition that fails at mailcow.)
  pub refused_clean :
      (env : Env) (req : CreateKeyRequest) (kid secret app_pw : String) (now : ℕ) (m : M)
      (c : Conn Table) (code : ℕ) (message : String)
      → named (app_name kid) (view m req.mailbox) ≡ []
      → (mc.add req.mailbox (app_name kid) app_pw m).0 ≡ ok true
      → (handle_create mc env (ok req) (ok (kid, secret)) (ok app_pw) now m c).0
        ≡ refuse code message
      → named (app_name kid) (
          view (handle_create mc env (ok req) (ok (kid, secret)) (ok app_pw) now m c).1 req.mailbox)
        ≡ []
  unfolding handle_create
  refused_clean env req kid secret app_pw now m c code message fresh created h =
      let scopes = or_default req.scopes in
      read_Clean env req scopes kid secret app_pw now
        (handle_create mc env (ok req) (ok (kid, secret)) (ok app_pw) now m c) code message
        (either-Clean env req scopes kid secret app_pw now (not (env.is_address req.mailbox)) _ _
          fresh
          (either-Clean env req scopes kid secret app_pw now (not (all_scopes_valid scopes)) _ _
            fresh (mint-Clean env req scopes kid secret app_pw now m c created)))
        h
