-- ===== src/Auth/Login.antt =====
-- backend/internal/auth/auth.go: what a login, a minted session and a logout leave behind.
use mathlib.Core.Option
use mathlib.Core.Bool.{false≢true}
use mailfold.Prelude.{
  ℕ, String, ◌≡◌, ◌≢◌, sym, ap, ◌∙◌, Bool, true, false, none, some, arith, str_eq, eq_iff, ◌⊎◌, inl,
  inr, Bool-cases,
}
use mailfold.Prelude.Assoc.{erase, put, lookup-erase, lookup-put}
use mailfold.Prelude.Text.{take, take-hex}
use mailfold.Storage.{unix, from_unix}
use mailfold.Sql.{Result, ok, err}
use mailfold.SessionStore
use mailfold.SessionStore.{TokenRow, Table, scan, hash_token}
use mailfold.SessionStore.Cell.{
  put_reliable, delete_reliable, put-KeepsOutcome, delete-KeepsOutcome,
}
use mailfold.Auth.{
  Authenticator, Env, Meta, Session, kind_session, mint_session, new_session, session_params,
  row_session, check_password, login, invalid_credentials, validate, logout,
}
use mailfold.Auth.Listing.{session_id}
use mailfold.Auth.SecondFactor.{CanAnswer}
use mailfold.Auth.Validity.{unexpired, session_of, session_on, session_off, validate_refines}

-- A session as it reads back: the table keeps whole seconds.
unfoldable pub read_back : Bool → Session → Session
read_back false s = s
read_back true s = record s {
  created_at = from_unix (unix s.created_at);
  expires_at = from_unix (unix s.expires_at);
}

module _ (env : Env) where
  open env use {digest, decode_meta, encode_meta, bcrypt_matches}

  check_sound :
      (user password : String) (a : Authenticator)
      → check_password env user password a ≡ true
      → (user ≡ a.user)
        × (((a.password_hash ≡ "") × (password ≡ a.password))
            ⊎ ((a.password_hash ≢ "") × (bcrypt_matches a.password_hash password ≡ true)))
  unfolding check_password
  check_sound user password a h = (
    ground (arith, eq_iff user a.user),
    elim (Bool-cases (str_eq a.password_hash "")) [
      | inl unset ↦
          inl ((eq_iff a.password_hash "").0 unset, ground (arith, eq_iff password a.password))
      | inr is_set ↦
          inr (λ e. false≢true (sym is_set ∙ (eq_iff a.password_hash "").1 e), ground arith)
    ],
  )

  -- A login succeeds only with the configured user name, and with the configured password or, once a
  -- hash has been set, with a password that bcrypt accepts for it.
  pub login_sound :
      (user password : String) (meta : Meta) (draw : Result String) (now : ℕ) (a : Authenticator)
      {s : Session}
      → (login env user password meta draw now a).0 ≡ ok s
      → (user ≡ a.user)
        × (((a.password_hash ≡ "") × (password ≡ a.password))
            ⊎ ((a.password_hash ≢ "") × (bcrypt_matches a.password_hash password ≡ true)))
  unfolding login
  login_sound user password meta draw now a h =
      elim (Bool-cases (check_password env user password a)) [
        | inl passed ↦ check_sound user password a passed
        | inr failed ↦ let refused : (err invalid_credentials) ≡ ok _ = rw failed at h in cc
      ]

  module _ (token : String) (meta : Meta) (now : ℕ) (a : Authenticator) where
    mint_on :
        a.attached ≡ true
        → (mint_session env meta (ok token) now a).1 ≡ record a {
          conn = (SessionStore.put digest (session_params env meta token now a) a.conn).1;
        }
    unfolding mint_session
    mint_on on = ground arith

    mint_off :
        a.attached ≡ false
        → (mint_session env meta (ok token) now a).1
          ≡ record a { sessions = put token (new_session env meta token now a) a.sessions }
    unfolding mint_session
    mint_off off = ground arith

    stored_session :
        decode_meta (encode_meta meta) ≡ meta
        → row_session env token
            (scan (SessionStore.put_row digest (session_params env meta token now a)))
          ≡ read_back true (new_session env meta token now a)
    unfolding row_session scan SessionStore.put_row session_params new_session read_back
    stored_session codec = ground (arith, codec)

    -- The session that a login mints is the one kept for its token.
    pub session_of-mint :
        decode_meta (encode_meta meta) ≡ meta
        → CanAnswer a
        → session_of env token (mint_session env meta (ok token) now a).1
          ≡ some (read_back a.attached (new_session env meta token now a))
    unfolding session_params read_back
    session_of-mint codec r = elim (Bool-cases a.attached) [
      | inl on ↦
          let p = session_params env meta token now a in
          let a' : Authenticator = record a { conn = (SessionStore.put digest p a.conn).1 } in
          let s = new_session env meta token now a in
          rw (mint_on on) (
            session_on env token a' on
            ∙ ap (Option.map (λ r. row_session env token (scan r)))
                (put_reliable digest p a.conn (r on)).1
            ∙ ap some (stored_session codec)
            ∙ ap (λ b. some (read_back b s)) (sym on))
      | inr off ↦
          let s = new_session env meta token now a in
          let a' : Authenticator = record a { sessions = put token s a.sessions } in
          rw (mint_off off) (
            session_off env token a' off
            ∙ lookup-put token token s a.sessions
            ∙ ground (arith, eq_iff token token)
            ∙ ap (λ b. some (read_back b s)) (sym off))
    ]

    CanAnswer-mint : CanAnswer a → CanAnswer (mint_session env meta (ok token) now a).1
    CanAnswer-mint r = elim (Bool-cases a.attached) [
      | inl on ↦ rw (mint_on on) (λ _ n.
          ap (λ o. o n) (put-KeepsOutcome digest (session_params env meta token now a) a.conn)
          ∙ r on n)
      | inr off ↦ rw (mint_off off) r
    ]

  -- While encoding/json reads back the metadata that it has written and an attached table answers,
  -- the non-empty token of a minted session is accepted until its expiry and hands the session
  -- back, with the times cut to whole seconds where the table keeps it.
  pub validate-mint :
      (token : String) (meta : Meta) (now t : ℕ) (a : Authenticator)
      → decode_meta (encode_meta meta) ≡ meta
      → token ≢ ""
      → CanAnswer a
      → (validate env token t (mint_session env meta (ok token) now a).1).0
        ≡ unexpired t (some (read_back a.attached (new_session env meta token now a)))
  validate-mint token meta now t a codec named r =
      validate_refines env token t _ named (CanAnswer-mint token meta now a r)
      ∙ ap (unexpired t) (session_of-mint token meta now a codec r)

  session_of-logout :
      (token : String) (a : Authenticator)
      → CanAnswer a
      → session_of env token (logout env token a) ≡ none
  unfolding logout session_of
  session_of-logout token a r = elim (Bool-cases a.attached) [
    | inl on ↦ ground (arith, (delete_reliable digest token kind_session 0 a.conn (r on)).1)
    | inr off ↦ ground (arith, lookup-erase token token a.sessions, eq_iff token token)
  ]

  logout_on :
      (token : String) (a : Authenticator)
      → a.attached ≡ true
      → logout env token a
        ≡ record a { conn = (SessionStore.delete_token digest token kind_session a.conn).1 }
  unfolding logout
  logout_on token a on = ground arith

  logout_off :
      (token : String) (a : Authenticator)
      → a.attached ≡ false
      → logout env token a ≡ record a { sessions = erase token a.sessions }
  unfolding logout
  logout_off token a off = ground arith

  CanAnswer-logout :
      (token : String) (a : Authenticator) → CanAnswer a → CanAnswer (logout env token a)
  CanAnswer-logout token a r = elim (Bool-cases a.attached) [
    | inl on ↦
        rw (logout_on token a on)
          (λ _ n. ap (λ o. o n) (delete-KeepsOutcome digest token kind_session 0 a.conn) ∙ r on n)
    | inr off ↦ rw (logout_off token a off) r
  ]

  -- After a logout, so long as an attached table answers, its non-empty token is refused at every
  -- instant.
  pub validate-logout :
      (token : String) (t : ℕ) (a : Authenticator)
      → token ≢ ""
      → CanAnswer a
      → (validate env token t (logout env token a)).0 ≡ none
  unfolding unexpired
  validate-logout token t a named r =
      validate_refines env token t _ named (CanAnswer-logout token a r)
      ∙ ap (unexpired t) (session_of-logout token a r)

  -- The identifier cut from a stored token hash is the one computed from the token.
  pub session_id-take : (token : String) → take 16 (hash_token digest token) ≡ session_id env token
  unfolding session_id hash_token
  session_id-take token = take-hex 8 (digest token)
