-- ===== src/Auth/Revoke.antt =====
-- backend/internal/auth/auth.go: `RevokeAllExcept`, by what `Validate` accepts afterwards.
use mathlib.Core.Option
use mathlib.Core.Bool.{false≢true}
use mailfold.Prelude.{
  ℕ, String, ◌≡◌, ◌≢◌, refl, sym, ap, ◌∙◌, true, false, none, [], ◌∷◌, arith, str_eq, eq_iff,
  if◌then◌else◌, inl, inr, Bool-cases, All,
}
use mailfold.Prelude.Assoc.{retain, lookup-retain, IsMap}
use mailfold.Prelude.Text.{Text, text_eq_iff, hex_inj}
use mailfold.Sql.{Conn, ◌>>=◌}
use mailfold.Sql.Laws.{
  IsReliable, statement_reliable, statement-KeepsOutcome, statement_cases, first-delete_ne,
}
use mailfold.Sql.Table.{delete}
use mailfold.SessionStore
use mailfold.SessionStore.{
  TokenRow, Table, scan, hash_token, has_key, is_other, is_stale, rows_affected,
}
use mailfold.SessionStore.Isolation.{held}
use mailfold.SessionStore.Keys.{first-delete_covered}
use mailfold.Auth.{Authenticator, Env, kind_session, row_session, validate}
use mailfold.Auth.Listing.{revoke_all_except}
use mailfold.Auth.SecondFactor.{CanAnswer}
use mailfold.Auth.Validity.{unexpired, session_of, session_on, session_off, validate_refines}

-- Every session row of the table is the administrator's.
abbrev pub OwnsAll : String → Table → Type 0
OwnsAll user t = All (λ r. str_eq r.kind kind_session ≡ true → r.subject ≡ user) t

module _ (env : Env) where
  open env use {digest}

  revoke_on :
      (current : String) (a : Authenticator)
      → a.attached ≡ true
      → (revoke_all_except env current a).1 ≡ record a {
        conn = (SessionStore.delete_by_subject_except digest kind_session a.user current a.conn).1;
      }
  unfolding revoke_all_except
  revoke_on current a on = ground arith

  revoke_off :
      (current : String) (a : Authenticator)
      → a.attached ≡ false
      → (revoke_all_except env current a).1
        ≡ record a { sessions = retain (λ token _. str_eq token current) a.sessions }
  unfolding revoke_all_except
  revoke_off current a off = ground arith

  tables-rows_affected : (n : ℕ) (c : Conn Table) → (rows_affected n c).1.tables ≡ c.tables
  unfolding rows_affected
  tables-rows_affected n c = statement_cases (λ t. t ≡ c.tables) (λ t. (n, t)) c refl refl

  outcome-rows_affected : (n : ℕ) (c : Conn Table) → (rows_affected n c).1.outcome ≡ c.outcome
  unfolding rows_affected
  outcome-rows_affected n c = statement-KeepsOutcome (λ t. (n, t)) c

  module _ (current : String) (a : Authenticator) (r : IsReliable a.conn) where
    tables-revoke :
        (SessionStore.delete_by_subject_except digest kind_session a.user current a.conn).1.tables
        ≡ delete (is_other kind_session a.user (hash_token digest current)) a.conn.tables
    unfolding SessionStore.delete_by_subject_except ◌>>=◌
    tables-revoke = rw (statement_reliable _ a.conn r) (tables-rows_affected _ _)

    outcome-revoke :
        (SessionStore.delete_by_subject_except digest kind_session a.user current a.conn).1.outcome
        ≡ a.conn.outcome
    unfolding SessionStore.delete_by_subject_except ◌>>=◌
    outcome-revoke = rw (statement_reliable _ a.conn r) (outcome-rows_affected _ _)

  CanAnswer-revoke :
      (current : String) (a : Authenticator)
      → CanAnswer a
      → CanAnswer (revoke_all_except env current a).1
  CanAnswer-revoke current a r = elim (Bool-cases a.attached) [
    | inl on ↦
        rw (revoke_on current a on)
          (λ _ n. ap (λ o. o n) (outcome-revoke current a (r on)) ∙ r on n)
    | inr off ↦ rw (revoke_off current a off) r
  ]

  not_other :
      (user : String) (h : Text) (r : TokenRow)
      → has_key h kind_session r ≡ true
      → is_other kind_session user h r ≡ false
  unfolding has_key is_other
  not_other user h r m = ground (arith, text_eq_iff r.token_hash h)

  is_other_lem :
      (user : String) (h h' : Text) (t : Table)
      → h' ≢ h
      → OwnsAll user t
      → All (λ r. has_key h' kind_session r ≡ true → is_other kind_session user h r ≡ true) t
  unfolding has_key is_other
  is_other_lem user h h' [] d o = tt
  is_other_lem user h h' (r ∷ t) d o = (
    λ m. ground (
      arith,
      o.0,
      eq_iff r.subject user,
      text_eq_iff r.token_hash h,
      text_eq_iff r.token_hash h',
    ),
    is_other_lem user h h' t d o.1,
  )

  -- What "sign out all other devices" requires of the state: map keys are unique, and the session
  -- rows are the administrator's.
  abbrev pub IsOwned : Authenticator → Type 0
  IsOwned a = IsMap a.sessions × OwnsAll a.user a.conn.tables

  held-revoke :
      (user current token : String) (t : Table)
      → (digest token ≡ digest current → token ≡ current)
      → OwnsAll user t
      → held digest token kind_session
          (delete (is_other kind_session user (hash_token digest current)) t)
        ≡ (if str_eq token current then held digest token kind_session t else none)
  unfolding held hash_token
  held-revoke user current token t apart o = elim (Bool-cases (str_eq token current)) [
    | inl same ↦
        let e : token ≡ current = (eq_iff token current).0 same in
        rw (same, e) (first-delete_ne _ _ t (not_other user (hash_token digest current)))
    | inr ne ↦ rw ne (
        first-delete_covered _ _ t (
          is_other_lem user _ _ t
            (λ e. false≢true (sym ne ∙ (eq_iff token current).1 (apart (hex_inj _ _ e)))) o))
  ]

  session_of-revoke :
      (current token : String) (a : Authenticator)
      → (digest token ≡ digest current → token ≡ current)
      → CanAnswer a
      → IsOwned a
      → session_of env token (revoke_all_except env current a).1
        ≡ (if str_eq token current then session_of env token a else none)
  session_of-revoke current token a apart r o = elim (Bool-cases a.attached) [
    | inl on ↦
        let c =
          (SessionStore.delete_by_subject_except digest kind_session a.user current a.conn).1 in
        let a' : Authenticator = record a { conn = c } in
        rw (revoke_on current a on) (
          session_on env token a' on
          ∙ ap
              (λ t.
                Option.map (λ r. row_session env token (scan r)) (held digest token kind_session t))
              (tables-revoke current a (r on))
          ∙ ap (Option.map (λ r. row_session env token (scan r)))
              (held-revoke a.user current token a.conn.tables apart o.1)
          ∙ ground (arith, session_on env token a on))
    | inr off ↦
        let a' : Authenticator = record a {
          sessions = retain (λ t _. str_eq t current) a.sessions;
        } in
        rw (revoke_off current a off) (
          session_off env token a' off
          ∙ lookup-retain (λ t _. str_eq t current) token a.sessions o.0
          ∙ ground (arith, session_off env token a off))
  ]

  -- After "sign out all other devices", while SHA-256 tells the two tokens apart, map keys are
  -- unique, an attached table answers and its session rows are the administrator's, every other
  -- non-empty token is refused, and the current one is accepted as before.
  pub validate-revoke_all_except :
      (current token : String) (t : ℕ) (a : Authenticator)
      → token ≢ ""
      → (digest token ≡ digest current → token ≡ current)
      → CanAnswer a
      → IsOwned a
      → (validate env token t (revoke_all_except env current a).1).0
        ≡ (if str_eq token current then (validate env token t a).0 else none)
  unfolding unexpired
  validate-revoke_all_except current token t a named apart r o =
      validate_refines env token t _ named (CanAnswer-revoke current a r)
      ∙ ap (unexpired t) (session_of-revoke current token a apart r o)
      ∙ ground (arith, validate_refines env token t a named r)
