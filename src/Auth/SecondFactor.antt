-- ===== src/Auth/SecondFactor.antt =====
-- backend/internal/auth/auth.go: the pending token of a login that waits for its second factor.
use mathlib.Core.Option
use mathlib.Core.Bool.{false≢true}
use mailfold.Prelude.{
  ℕ, ◌+◌, String, ◌≡◌, ◌≢◌, refl, sym, ap, ◌∙◌, true, false, Option, none, some, List, [], ◌∷◌,
  arith, eq_iff, ltb, if◌then◌else◌, is_some, inl, inr, Bool-cases,
}
use mailfold.Prelude.Assoc.{lookup, lookup-erase, lookup-put}
use mailfold.Storage.{from_unix, is_after}
use mailfold.Sql.{ok, Conn}
use mailfold.Sql.Laws.{IsReliable}
use mailfold.SessionStore
use mailfold.SessionStore.{TokenRow, Table}
use mailfold.SessionStore.Isolation.{held}
use mailfold.SessionStore.Cell.{
  open_at, counted, increment_reliable, increment-KeepsOutcome, delete_reliable,
  delete-KeepsOutcome,
}
use mailfold.Auth.{
  Authenticator, Env, Pending, kind_pending, max_pending_attempts, verify_stored, verify_in_memory,
  verify_attached, verify_pending,
}

-- The row of a pending token.
abbrev pub row_pending : TokenRow → Pending
row_pending r = record {
  user = r.subject;
  expires_at = from_unix r.expires_at;
  attempts = r.attempts;
}

abbrev pub owner : Pending → String
owner p = p.user

-- The table answers, where one is attached.
abbrev pub CanAnswer : Authenticator → Type 0
CanAnswer a = a.attached ≡ true → IsReliable a.conn

-- The contract of `VerifyPending`: a pending login after one more attempt at `now`, if it survives.
unfoldable pub count_attempt : ℕ → Option Pending → Option Pending
count_attempt now none = none
count_attempt now (some p) =
    if is_after now p.expires_at
    then none
    else if ltb max_pending_attempts (p.attempts + 1)
    then none
    else some (record p { attempts = p.attempts + 1 })

module _ (env : Env) where
  open env use {digest}

  -- What stands behind a token, whichever way it is kept.
  unfoldable pub pending_of : String → Authenticator → Option Pending
  pending_of token a =
      if a.attached
      then Option.map row_pending (held digest token kind_pending a.conn.tables)
      else lookup token a.pendings

  in_memory_refines :
      (token : String) (now : ℕ) (a : Authenticator) (o : Option Pending)
      → lookup token a.pendings ≡ o
      → ((verify_in_memory env token now o a).0 ≡ Option.map owner (count_attempt now o))
        × (lookup token (verify_in_memory env token now o a).1.pendings ≡ count_attempt now o)
        × ((verify_in_memory env token now o a).1.attached ≡ a.attached)
  unfolding verify_in_memory count_attempt
  in_memory_refines token now a none h = (refl, h, refl)
  in_memory_refines token now a (some p) h = ground (
    arith,
    eq_iff token token,
    lookup-erase token token a.pendings,
    lookup-put token token (record p { attempts = p.attempts + 1 }) a.pendings,
  )

  stored_refines :
      (token : String) (now : ℕ) (c : Conn Table) (o : Option TokenRow)
      → IsReliable c
      → held digest token kind_pending c.tables ≡ open_at now (Option.map SessionStore.bump o)
      → let v =
          verify_stored env token
            (ok (Option.map counted (open_at now (Option.map SessionStore.bump o))))
            c in
        (v.0 ≡ Option.map owner (count_attempt now (Option.map row_pending o)))
        × (Option.map row_pending (held digest token kind_pending v.1.tables)
            ≡ count_attempt now (Option.map row_pending o))
        × IsReliable v.1
  unfolding verify_stored count_attempt SessionStore.bump
  stored_refines token now c none r h = (refl, rw h refl, r)
  stored_refines token now c (some x) r h =
      elim (Bool-cases (is_after now (from_unix x.expires_at))) [
        | inl past ↦ rw past (refl, ap (Option.map row_pending) (rw past at h), r)
        | inr live ↦ elim (Bool-cases (ltb max_pending_attempts (x.attempts + 1))) [
          | inl spent ↦
              rw (live, spent)
                (
                  refl,
                  ap (Option.map row_pending) (delete_reliable digest token kind_pending now c r).1,
                  λ n. ap (λ o. o n) (delete-KeepsOutcome digest token kind_pending now c) ∙ r n,
                )
          | inr room ↦ rw (live, room) (refl, ap (Option.map row_pending) (rw live at h), r)
        ]
      ]

  verify_on :
      (token : String) (now : ℕ) (a : Authenticator)
      → token ≢ ""
      → a.attached ≡ true
      → verify_pending env token now a ≡ verify_attached env token now a
  unfolding verify_pending
  verify_on token now a named on = ground (arith, eq_iff token "")

  verify_off :
      (token : String) (now : ℕ) (a : Authenticator)
      → token ≢ ""
      → a.attached ≡ false
      → verify_pending env token now a ≡ verify_in_memory env token now (lookup token a.pendings) a
  unfolding verify_pending
  verify_off token now a named off = ground (arith, eq_iff token "")

  pub pending_on :
      (token : String) (a : Authenticator)
      → a.attached ≡ true
      → pending_of token a ≡ Option.map row_pending (held digest token kind_pending a.conn.tables)
  unfolding pending_of
  pending_on token a on = ground arith

  pub pending_off :
      (token : String) (a : Authenticator)
      → a.attached ≡ false
      → pending_of token a ≡ lookup token a.pendings
  unfolding pending_of
  pending_off token a off = ground arith

  -- The statement of the next theorem, over the answer and the state that a path gives.
  abbrev pub Verifies : String → ℕ → Authenticator → Option String × Authenticator → Type 0
  Verifies token now a v =
      let after = count_attempt now (pending_of token a) in
      (v.0 ≡ Option.map owner after) × (pending_of token v.1 ≡ after) × CanAnswer v.1

  attached_refines :
      (token : String) (now : ℕ) (a : Authenticator)
      → a.attached ≡ true
      → IsReliable a.conn
      → Verifies token now a (verify_attached env token now a)
  unfolding verify_attached
  attached_refines token now a on r =
      let inc = increment_reliable digest token kind_pending now a.conn r in
      let c = (SessionStore.increment_attempts digest token kind_pending now a.conn).1 in
      let r' : IsReliable c =
        λ n. ap (λ o. o n) (increment-KeepsOutcome digest token kind_pending now a.conn) ∙ r n in
      let o = held digest token kind_pending a.conn.tables in
      let v = stored_refines token now c o r' inc.1 in
      let cell = ap (count_attempt now) (sym (pending_on token a on)) in
      (
        ap (λ x. (verify_stored env token x c).0) inc.0 ∙ v.0 ∙ ap (Option.map owner) cell,
        pending_on token (verify_attached env token now a).1 on
            ∙ ap
                (λ x.
                  Option.map row_pending
                    (held digest token kind_pending (verify_stored env token x c).1.tables))
                inc.0
            ∙ v.1
            ∙ cell,
        λ _ n. ap (λ x. (verify_stored env token x c).1.outcome n) inc.0 ∙ v.2 n,
      )

  pub verify_pending-Verifies :
      (token : String) (now : ℕ) (a : Authenticator)
      → token ≢ ""
      → CanAnswer a
      → Verifies token now a (verify_pending env token now a)
  verify_pending-Verifies token now a named r = elim (Bool-cases a.attached) [
    | inl on ↦ rw (verify_on token now a named on) (attached_refines token now a on (r on))
    | inr off ↦
        let m = in_memory_refines token now a (lookup token a.pendings) refl in
        let v = verify_in_memory env token now (lookup token a.pendings) a in
        let cell = ap (count_attempt now) (sym (pending_off token a off)) in
        rw (verify_off token now a named off) (
          m.0 ∙ ap (Option.map owner) cell,
          pending_off token v.1 (m.2 ∙ off) ∙ m.1 ∙ cell,
          λ on. absurd (false≢true (sym (m.2 ∙ off) ∙ on)),
        )
  ]

  -- In memory and in the table alike, so long as an attached table answers, `VerifyPending` of a
  -- non-empty token answers by the contract and leaves behind the token what the contract says.
  pub verify_refines :
      (token : String) (now : ℕ) (a : Authenticator)
      → token ≢ ""
      → CanAnswer a
      → let after = count_attempt now (pending_of token a) in
        ((verify_pending env token now a).0 ≡ Option.map owner after)
        × (pending_of token (verify_pending env token now a).1 ≡ after)
  verify_refines token now a named r =
      let v = verify_pending-Verifies token now a named r in (v.0, v.1)

  -- How many of the attempts, one at each instant, are let through to the code check.
  unfoldable pub let_through : String → List ℕ → Authenticator → ℕ
  let_through token [] a = 0
  let_through token (t ∷ ts) a =
      (if is_some (verify_pending env token t a).0 then 1 else 0)
      + let_through token ts (verify_pending env token t a).1
