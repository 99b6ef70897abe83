-- ===== src/Auth/Budget.antt =====
-- backend/internal/auth/auth.go: how many codes can be tried against one pending login.
use mathlib.Core.Option
use mailfold.Prelude.{
  ℕ, ◌+◌, ◌-◌, ◌≤◌, ◌<◌, min, String, ◌≡◌, ◌≢◌, refl, sym, ap, ◌∙◌, Bool, true, false, none, some,
  List, [], ◌∷◌, arith, eq_iff, All, length, inl, inr, Bool-cases,
}
use mailfold.Prelude.Assoc.{put, lookup-put}
use mailfold.Storage.{at, second, unix, from_unix, is_after}
use mailfold.Sql.{ok}
use mailfold.SessionStore
use mailfold.SessionStore.Cell.{put_reliable, put-KeepsOutcome}
use mailfold.Auth.{
  Authenticator, Env, Pending, pending_ttl, issue_pending, pending_params, verify_pending,
}
use mailfold.Auth.SecondFactor.{
  CanAnswer, row_pending, count_attempt, pending_of, pending_on, pending_off,
  verify_pending-Verifies, let_through,
}

module _ (env : Env) (token : String) (named : token ≢ "") where
  let_through-none :
      (ts : List ℕ) (a : Authenticator)
      → CanAnswer a
      → pending_of env token a ≡ none
      → let_through env token ts a ≡ 0
  unfolding let_through count_attempt
  let_through-none [] a r h = refl
  let_through-none (t ∷ ts) a r h =
      let v = verify_pending-Verifies env token t a named r in
      ground (
        arith,
        h,
        v.0,
        v.1,
        let_through-none ts (verify_pending env token t a).1 v.2 (v.1 ∙ ap (count_attempt t) h),
      )

  -- At most the attempts that are left, at any instants.
  let_through-le :
      (ts : List ℕ) (a : Authenticator) (p : Pending)
      → CanAnswer a
      → pending_of env token a ≡ some p
      → p.attempts ≤ 5
      → let_through env token ts a + p.attempts ≤ 5
  unfolding let_through count_attempt
  let_through-le [] a p r h le = omega arith
  let_through-le (t ∷ ts) a p r h le =
      let v = verify_pending-Verifies env token t a named r in
      let a' = (verify_pending env token t a).1 in
      ground (
        arith,
        h,
        v.0,
        v.1,
        let_through-none ts a' v.2,
        let_through-le ts a' (record p { attempts = p.attempts + 1 }) v.2,
      )

  -- Exactly those, while the login has not expired.
  let_through-eq :
      (ts : List ℕ) (a : Authenticator) (p : Pending)
      → CanAnswer a
      → pending_of env token a ≡ some p
      → p.attempts ≤ 5
      → All (λ t. is_after t p.expires_at ≡ false) ts
      → let_through env token ts a ≡ min (length ts) (5 - p.attempts)
  unfolding let_through count_attempt
  let_through-eq [] a p r h le live = omega arith
  let_through-eq (t ∷ ts) a p r h le live =
      let v = verify_pending-Verifies env token t a named r in
      let a' = (verify_pending env token t a).1 in
      ground (
        arith,
        h,
        v.0,
        v.1,
        live.0,
        let_through-none ts a' v.2,
        let_through-eq ts a' (record p { attempts = p.attempts + 1 }) v.2,
      )

  -- What `IssuePending` leaves behind the token that it drew.
  issued : (now : ℕ) (a : Authenticator) → Bool → Pending
  issued now a true = record {
    user = a.user;
    expires_at = from_unix (unix (at (now + pending_ttl)));
    attempts = 0;
  }
  issued now a false = record { user = a.user; expires_at = at (now + pending_ttl); attempts = 0 }

  issue_on :
      (now : ℕ) (a : Authenticator)
      → a.attached ≡ true
      → (issue_pending env (ok token) now a).1 ≡ record a {
        conn = (SessionStore.put env.digest (pending_params env token now a) a.conn).1;
      }
  unfolding issue_pending
  issue_on now a on = ground arith

  issue_off :
      (now : ℕ) (a : Authenticator)
      → a.attached ≡ false
      → (issue_pending env (ok token) now a).1
        ≡ record a { pendings = put token (issued now a false) a.pendings }
  unfolding issue_pending issued
  issue_off now a off = ground arith

  pending_of-issue :
      (now : ℕ) (a : Authenticator)
      → CanAnswer a
      → (pending_of env token (issue_pending env (ok token) now a).1
          ≡ some (issued now a a.attached))
        × CanAnswer (issue_pending env (ok token) now a).1
  unfolding issued pending_params SessionStore.put_row
  pending_of-issue now a r = elim (Bool-cases a.attached) [
    | inl on ↦
        let p = pending_params env token now a in
        let stored = put_reliable env.digest p a.conn (r on) in
        let a' : Authenticator = record a { conn = (SessionStore.put env.digest p a.conn).1 } in
        rw (issue_on now a on) (
          pending_on env token a' on
              ∙ ap (Option.map row_pending) stored.1
              ∙ ap (λ b. some (issued now a b)) (sym on),
          λ _ n. ap (λ o. o n) (put-KeepsOutcome env.digest p a.conn) ∙ r on n,
        )
    | inr off ↦
        let a' : Authenticator = record a {
          pendings = put token (issued now a false) a.pendings;
        } in
        rw (issue_off now a off) (
          pending_off env token a' off
              ∙ lookup-put token token (issued now a false) a.pendings
              ∙ ground (arith, eq_iff token token),
          λ on. r on,
        )
  ]

  issued_live :
      (now : ℕ) (a : Authenticator) (b : Bool) (ts : List ℕ)
      → 0 < now
      → All (λ t. (now ≤ t) × (t + second ≤ now + pending_ttl)) ts
      → All (λ t. is_after t (issued now a b).expires_at ≡ false) ts
  unfolding issued unix from_unix is_after
  issued_live now a b [] pos h = tt
  issued_live now a true (t ∷ ts) pos h = (ground arith, issued_live now a true ts pos h.1)
  issued_live now a false (t ∷ ts) pos h = (ground arith, issued_live now a false ts pos h.1)

  attempts_issued : (now : ℕ) (a : Authenticator) (b : Bool) → (issued now a b).attempts ≡ 0
  unfolding issued
  attempts_issued now a true = refl
  attempts_issued now a false = refl

  -- A non-empty pending token lets at most five codes be tried, whenever they are tried and
  -- whichever way the token is kept, so long as an attached table answers.
  pub second_factor_bounded :
      (now : ℕ) (a : Authenticator) (ts : List ℕ)
      → CanAnswer a
      → let_through env token ts (issue_pending env (ok token) now a).1 ≤ 5
  second_factor_bounded now a ts r =
      let i = pending_of-issue now a r in
      let p = issued now a a.attached in
      omega (
        arith,
        let_through-le ts (issue_pending env (ok token) now a).1 p i.1 i.0
            (omega (arith, attempts_issued now a a.attached)),
      )

  -- After `IssuePending` of a non-empty token at a positive instant, while an attached table
  -- answers, attempts made up to a second before the login would expire are all let through until
  -- five have been, and no other.
  pub second_factor_budget :
      (now : ℕ) (a : Authenticator) (ts : List ℕ)
      → 0 < now
      → CanAnswer a
      → All (λ t. (now ≤ t) × (t + second ≤ now + pending_ttl)) ts
      → let_through env token ts (issue_pending env (ok token) now a).1 ≡ min (length ts) 5
  second_factor_budget now a ts pos r h =
      let i = pending_of-issue now a r in
      let p = issued now a a.attached in
      let none_yet = attempts_issued now a a.attached in
      let_through-eq ts (issue_pending env (ok token) now a).1 p i.1 i.0 (omega (arith, none_yet))
        (issued_live now a a.attached ts pos h)
      ∙ omega (arith, none_yet)
