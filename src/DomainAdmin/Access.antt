-- ===== src/DomainAdmin/Access.antt =====
-- backend/internal/domainadmin/session.go: which identity `Get` hands back after `Create` and `Delete`.
use mathlib.Core.Option
use mailfold.Prelude.{
  ℕ, ◌+◌, String, ◌≡◌, ◌≢◌, refl, sym, ap, ◌∙◌, Bool, true, false, Option, none, some, List, arith,
  eq_iff, if◌then◌else◌, inl, inr, Bool-cases,
}
use mailfold.Prelude.Assoc.{lookup, erase, put, lookup-erase, lookup-put}
use mailfold.Storage.{at, unix, from_unix, is_after}
use mailfold.Sql.{ok}
use mailfold.Sql.Laws.{IsReliable}
use mailfold.SessionStore
use mailfold.SessionStore.{TokenRow, scan}
use mailfold.SessionStore.Isolation.{held}
use mailfold.SessionStore.Cell.{
  open_at, get_reliable, put_reliable, delete_reliable, put-KeepsOutcome, delete-KeepsOutcome,
}
use mailfold.DomainAdmin.{
  Identity, Sessions, Env, session_kind, get_in_memory, created_params, create_attached, create,
  row_identity, found_identity, get_attached, get, delete,
}

-- The table answers, where one is attached.
abbrev pub CanAnswer : Sessions → Type 0
CanAnswer s = s.attached ≡ true → IsReliable s.conn

-- An identity, unless it has expired.
unfoldable pub unexpired : ℕ → Option Identity → Option Identity
unexpired now none = none
unexpired now (some id) = if is_after now id.expires_at then none else some id

-- A new identity as it reads back: the table keeps whole seconds.
unfoldable pub created : String → List String → ℕ → Bool → Identity
created username domains expires_at true = record {
  username = username;
  domains = domains;
  expires_at = from_unix (unix (at expires_at));
}
created username domains expires_at false = record {
  username = username;
  domains = domains;
  expires_at = at expires_at;
}

module _ (env : Env) where
  open env use {digest, encode_domains, decode_domains}

  -- What stands behind a token, whichever way it is kept.
  unfoldable pub identity_of : String → Sessions → Option Identity
  identity_of token s =
      if s.attached
      then Option.map (λ r. row_identity env (scan r))
          (held digest token session_kind s.conn.tables)
      else lookup token s.m

  module _ (token : String) (s : Sessions) where
    identity_on :
        s.attached ≡ true
        → identity_of token s
          ≡ Option.map
              (λ r. row_identity env (scan r))
              (held digest token session_kind s.conn.tables)
    unfolding identity_of
    identity_on on = ground arith

    identity_off : s.attached ≡ false → identity_of token s ≡ lookup token s.m
    unfolding identity_of
    identity_off off = ground arith

  found-open_at :
      (now : ℕ) (o : Option TokenRow)
      → found_identity env (ok (Option.map scan (open_at now o)))
        ≡ unexpired now (Option.map (λ r. row_identity env (scan r)) o)
  unfolding found_identity unexpired row_identity scan
  found-open_at now none = refl
  found-open_at now (some r) = ground arith

  module _ (token : String) (now : ℕ) (s : Sessions) (named : token ≢ "") where
    get_on :
        s.attached ≡ true
        → IsReliable s.conn
        → (get env token now s).0
          ≡ found_identity env
              (ok (Option.map scan (open_at now (held digest token session_kind s.conn.tables))))
    unfolding get get_attached
    get_on on r =
        ground (arith, eq_iff token "", (get_reliable digest token session_kind now s.conn r).0)

    get_off : s.attached ≡ false → (get env token now s).0 ≡ unexpired now (lookup token s.m)
    unfolding get get_in_memory unexpired
    get_off off = ground (arith, eq_iff token "")

    -- `Get` hands back exactly the identity that is kept for a non-empty token, unless it has
    -- expired, in memory and, so long as it answers, in the table alike.
    pub get_refines : CanAnswer s → (get env token now s).0 ≡ unexpired now (identity_of token s)
    get_refines r = elim (Bool-cases s.attached) [
      | inl on ↦
          get_on on (r on)
          ∙ found-open_at now (held digest token session_kind s.conn.tables)
          ∙ ap (unexpired now) (sym (identity_on token s on))
      | inr off ↦ get_off off ∙ ap (unexpired now) (sym (identity_off token s off))
    ]

  module _ (username : String) (domains : List String) (token : String) (now : ℕ)
      (s : Sessions) where
    abbrev after_create : Sessions
    after_create = (create env username domains (ok token) now s).1

    create_on :
        s.attached ≡ true
        → after_create ≡ record s {
          conn =
              (SessionStore.put digest (created_params env username domains token now s) s.conn).1;
        }
    unfolding create create_attached
    create_on on = ground arith

    create_off :
        s.attached ≡ false
        → after_create
          ≡ record s { m = put token (created username domains (now + s.ttl) false) s.m }
    unfolding create created
    create_off off = ground arith

    created_row :
        decode_domains (encode_domains domains) ≡ domains
        → row_identity env
            (scan (SessionStore.put_row digest (created_params env username domains token now s)))
          ≡ created username domains (now + s.ttl) true
    unfolding row_identity scan SessionStore.put_row created_params created
    created_row codec = ground (arith, codec)

    identity_of-create :
        decode_domains (encode_domains domains) ≡ domains
        → CanAnswer s
        → (identity_of token after_create
            ≡ some (created username domains (now + s.ttl) s.attached))
          × CanAnswer after_create
    unfolding created_params created
    identity_of-create codec r = elim (Bool-cases s.attached) [
      | inl on ↦
          let p = created_params env username domains token now s in
          let s' : Sessions = record s { conn = (SessionStore.put digest p s.conn).1 } in
          rw (create_on on) (
            identity_on token s' on
                ∙ ap (Option.map (λ r. row_identity env (scan r)))
                    (put_reliable digest p s.conn (r on)).1
                ∙ ap some (created_row codec)
                ∙ ap (λ b. some (created username domains (now + s.ttl) b)) (sym on),
            λ _ n. ap (λ o. o n) (put-KeepsOutcome digest p s.conn) ∙ r on n,
          )
      | inr off ↦
          let id = created username domains (now + s.ttl) false in
          let s' : Sessions = record s { m = put token id s.m } in
          rw (create_off off) (
            identity_off token s' off
                ∙ lookup-put token token id s.m
                ∙ ground (arith, eq_iff token token)
                ∙ ap (λ b. some (created username domains (now + s.ttl) b)) (sym off),
            λ on. r on,
          )
    ]

    -- While encoding/json reads back the domains that it has written and an attached table answers,
    -- the non-empty token of a new session hands back its user name and domains until its expiry,
    -- which the table cuts to whole seconds.
    pub get-create :
        (t : ℕ)
        → token ≢ ""
        → decode_domains (encode_domains domains) ≡ domains
        → CanAnswer s
        → (get env token t after_create).0
          ≡ unexpired t (some (created username domains (now + s.ttl) s.attached))
    get-create t named codec r =
        let i = identity_of-create codec r in
        get_refines token t after_create named i.1 ∙ ap (unexpired t) i.0

  module _ (token : String) (s : Sessions) where
    delete_on :
        s.attached ≡ true
        → delete env token s
          ≡ record s { conn = (SessionStore.delete_token digest token session_kind s.conn).1 }
    unfolding delete
    delete_on on = ground arith

    delete_off : s.attached ≡ false → delete env token s ≡ record s { m = erase token s.m }
    unfolding delete
    delete_off off = ground arith

    identity_of-delete :
        CanAnswer s
        → (identity_of token (delete env token s) ≡ none) × CanAnswer (delete env token s)
    identity_of-delete r = elim (Bool-cases s.attached) [
      | inl on ↦
          let c = (SessionStore.delete_token digest token session_kind s.conn).1 in
          rw (delete_on on) (
            identity_on token (record s { conn = c }) on
                ∙ ap (Option.map (λ r. row_identity env (scan r)))
                    (delete_reliable digest token session_kind 0 s.conn (r on)).1,
            λ _ n. ap (λ o. o n) (delete-KeepsOutcome digest token session_kind 0 s.conn) ∙ r on n,
          )
      | inr off ↦ rw (delete_off off) (
        identity_off token (record s { m = erase token s.m }) off
            ∙ lookup-erase token token s.m
            ∙ ground (arith, eq_iff token token),
        λ on. r on,
      )
    ]

    -- After `Delete`, so long as an attached table answers, a non-empty token is refused at every
    -- instant.
    pub get-delete :
        (t : ℕ) → token ≢ "" → CanAnswer s → (get env token t (delete env token s)).0 ≡ none
    unfolding unexpired
    get-delete t named r =
        let i = identity_of-delete r in
        get_refines token t (delete env token s) named i.1 ∙ ap (unexpired t) i.0
