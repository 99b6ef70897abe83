-- ===== src/Auth/Sweep.antt =====
-- backend/internal/auth/auth.go: `GC`, by what `Validate` accepts afterwards.
use mathlib.Core.Option
use mailfold.Prelude.{
  ℕ, ◌<◌, String, ◌≡◌, ◌≢◌, refl, sym, ap, ◌∙◌, true, false, not, Option, none, some, arith, inl,
  inr, Bool-cases,
}
use mailfold.Prelude.Assoc.{lookup, retain, kept, lookup-retain, IsMap}
use mailfold.Storage.{Time, at, zero_time, unix, from_unix, is_after}
use mailfold.Sql.Laws.{statement_reliable, statement-KeepsOutcome}
use mailfold.Sql.Table.{delete}
use mailfold.SessionStore
use mailfold.SessionStore.{
  TokenRow, Table, scan, hash_token, has_key, is_other, is_stale, rows_affected,
}
use mailfold.SessionStore.Isolation.{held}
use mailfold.SessionStore.Keys.{IsTable, first-delete_where, dropped}
use mailfold.Auth.{Authenticator, Env, Session, kind_session, row_session, validate}
use mailfold.Auth.Listing.{gc}
use mailfold.Auth.SecondFactor.{CanAnswer}
use mailfold.Auth.Validity.{unexpired, session_of, session_on, session_off, validate_refines}

module _ (env : Env) where
  open env use {digest}

  gc_on :
      (now : ℕ) (a : Authenticator)
      → a.attached ≡ true
      → gc env now a ≡ record a { conn = (SessionStore.gc now a.conn).1 }
  unfolding gc
  gc_on now a on = ground arith

  gc_off :
      (now : ℕ) (a : Authenticator)
      → a.attached ≡ false
      → gc env now a ≡ record a {
        sessions = retain (λ _ s. not (is_after now s.expires_at)) a.sessions;
        pendings = retain (λ _ p. not (is_after now p.expires_at)) a.pendings;
      }
  unfolding gc
  gc_off now a off = ground arith

  CanAnswer-gc : (now : ℕ) (a : Authenticator) → CanAnswer a → CanAnswer (gc env now a)
  unfolding SessionStore.gc
  CanAnswer-gc now a r = elim (Bool-cases a.attached) [
    | inl on ↦ rw (gc_on now a on) (λ _ n. ap (λ o. o n) (statement-KeepsOutcome _ a.conn) ∙ r on n)
    | inr off ↦ rw (gc_off now a off) r
  ]

  -- What the sweep drops is past its expiry at any later instant.
  stale_unexpired :
      (token : String) (now t : ℕ) (o : Option TokenRow)
      → now < t
      → unexpired t (Option.map (λ r. row_session env token (scan r)) (dropped (is_stale now) o))
        ≡ unexpired t (Option.map (λ r. row_session env token (scan r)) o)
  unfolding unexpired row_session scan is_stale unix from_unix is_after
  stale_unexpired token now t none le = refl
  stale_unexpired token now t (some r) le = ground arith

  unexpired-kept :
      (token : String) (now t : ℕ) (o : Option Session)
      → now < t
      → unexpired t (kept (λ _ s. not (is_after now s.expires_at)) token o) ≡ unexpired t o
  unfolding unexpired is_after
  unexpired-kept token now t none le = refl
  unexpired-kept token now t (some s) le = expiry s.expires_at refl
    where
      expiry :
          (x : Time)
          → s.expires_at ≡ x
          → unexpired t (kept (λ _ s. not (is_after now s.expires_at)) token (some s))
            ≡ unexpired t (some s)
      expiry zero_time e = ground arith
      expiry (at n) e = ground arith

  held-gc :
      (token : String) (now : ℕ) (t : Table)
      → IsTable t
      → held digest token kind_session (delete (is_stale now) t)
        ≡ dropped (is_stale now) (held digest token kind_session t)
  unfolding held
  held-gc token now t u = first-delete_where (is_stale now) _ _ t u

  unexpired-gc :
      (token : String) (now t : ℕ) (a : Authenticator)
      → now < t
      → CanAnswer a
      → IsMap a.sessions
      → IsTable a.conn.tables
      → unexpired t (session_of env token (gc env now a)) ≡ unexpired t (session_of env token a)
  unfolding SessionStore.gc
  unexpired-gc token now t a le r m u = elim (Bool-cases a.attached) [
    | inl on ↦
        let row = Option.map (λ r. row_session env token (scan r)) in
        let a' : Authenticator = record a { conn = (SessionStore.gc now a.conn).1 } in
        rw (gc_on now a on) (
          ap (unexpired t) (
            session_on env token a' on
            ∙ ap (λ c. row (held digest token kind_session c.1.tables))
                (statement_reliable (λ t. (tt, delete (is_stale now) t)) a.conn (r on))
            ∙ ap row (held-gc token now a.conn.tables u))
          ∙ stale_unexpired token now t (held digest token kind_session a.conn.tables) le
          ∙ ap (unexpired t) (sym (session_on env token a on)))
    | inr off ↦
        let a' : Authenticator = record a {
          sessions = retain (λ _ s. not (is_after now s.expires_at)) a.sessions;
          pendings = retain (λ _ p. not (is_after now p.expires_at)) a.pendings;
        } in
        rw (gc_off now a off) (
          ap (unexpired t) (session_off env token a' off ∙ lookup-retain _ token a.sessions m)
          ∙ unexpired-kept token now t (lookup token a.sessions) le
          ∙ ap (unexpired t) (sym (session_off env token a off)))
  ]

  -- Where map keys and table keys are unique and an attached table answers, sweeping changes no
  -- answer of `Validate` to a non-empty token at a later instant, in memory and in the table
  -- alike.
  pub validate-gc :
      (token : String) (now t : ℕ) (a : Authenticator)
      → token ≢ ""
      → now < t
      → CanAnswer a
      → IsMap a.sessions
      → IsTable a.conn.tables
      → (validate env token t (gc env now a)).0 ≡ (validate env token t a).0
  validate-gc token now t a named le r m u =
      validate_refines env token t _ named (CanAnswer-gc now a r)
      ∙ unexpired-gc token now t a le r m u
      ∙ sym (validate_refines env token t a named r)
