-- ===== src/Auth/Validity.antt =====
-- backend/internal/auth/auth.go: which tokens `Validate` accepts, after each of the methods.
use mathlib.Core.Option
use mailfold.Prelude.{
  ℕ, String, ◌≡◌, ◌≢◌, refl, sym, ap, ◌∙◌, true, false, Option, none, some, arith, eq_iff,
  if◌then◌else◌, inl, inr, Bool-cases,
}
use mailfold.Prelude.Assoc.{lookup}
use mailfold.Storage.{is_after}
use mailfold.Sql.Laws.{IsReliable}
use mailfold.SessionStore.{TokenRow, scan}
use mailfold.SessionStore.Isolation.{held}
use mailfold.SessionStore.Cell.{open_at, get_reliable}
use mailfold.Auth.{
  Authenticator, Env, Session, kind_session, row_session, validate, validate_in_memory,
}
use mailfold.Auth.SecondFactor.{CanAnswer}

-- A session, unless it has expired.
unfoldable pub unexpired : ℕ → Option Session → Option Session
unexpired now none = none
unexpired now (some s) = if is_after now s.expires_at then none else some s

module _ (env : Env) where
  open env use {digest, decode_meta, encode_meta, bcrypt_matches}

  -- The session that a method keeps for a token, whichever way it is kept.
  unfoldable pub session_of : String → Authenticator → Option Session
  session_of token a =
      if a.attached
      then Option.map (λ r. row_session env token (scan r))
          (held digest token kind_session a.conn.tables)
      else lookup token a.sessions

  pub session_on :
      (token : String) (a : Authenticator)
      → a.attached ≡ true
      → session_of token a
        ≡ Option.map
            (λ r. row_session env token (scan r))
            (held digest token kind_session a.conn.tables)
  unfolding session_of
  session_on token a on = ground arith

  pub session_off :
      (token : String) (a : Authenticator)
      → a.attached ≡ false
      → session_of token a ≡ lookup token a.sessions
  unfolding session_of
  session_off token a off = ground arith

  module _ (token : String) (now : ℕ) (a : Authenticator) (named : token ≢ "") where
    validate_on :
        a.attached ≡ true
        → IsReliable a.conn
        → (validate env token now a).0
          ≡ Option.map
              (λ r. row_session env token r)
              (Option.map scan (open_at now (held digest token kind_session a.conn.tables)))
    unfolding validate
    validate_on on r =
        ground (arith, eq_iff token "", (get_reliable digest token kind_session now a.conn r).0)

    validate_off :
        a.attached ≡ false → (validate env token now a).0 ≡ unexpired now (lookup token a.sessions)
    unfolding validate validate_in_memory unexpired
    validate_off off = ground (arith, eq_iff token "")

  unexpired-scan :
      (token : String) (now : ℕ) (o : Option TokenRow)
      → Option.map (λ r. row_session env token r) (Option.map scan (open_at now o))
        ≡ unexpired now (Option.map (λ r. row_session env token (scan r)) o)
  unfolding unexpired row_session scan
  unexpired-scan token now none = refl
  unexpired-scan token now (some r) = ground arith

  -- `Validate` hands back exactly the session that is kept for a non-empty token, unless it has
  -- expired, in memory and, so long as it answers, in the table alike.
  pub validate_refines :
      (token : String) (now : ℕ) (a : Authenticator)
      → token ≢ ""
      → CanAnswer a
      → (validate env token now a).0 ≡ unexpired now (session_of token a)
  validate_refines token now a named r = elim (Bool-cases a.attached) [
    | inl on ↦
        validate_on token now a named on (r on)
        ∙ unexpired-scan token now (held digest token kind_session a.conn.tables)
        ∙ ap (unexpired now) (sym (session_on token a on))
    | inr off ↦
        validate_off token now a named off ∙ ap (unexpired now) (sym (session_off token a off))
  ]
