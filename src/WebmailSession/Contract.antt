-- ===== src/WebmailSession/Contract.antt =====
-- backend/internal/webmail/session.go against its contract: a token is a cell that holds at most one
-- login, with its expiry and the attempts made against it.
use mathlib.Core.Option
use mailfold.Prelude.{
  ℕ, ◌+◌, String, ◌≡◌, refl, sym, ap, ◌∙◌, true, false, Option, none, some, arith, ltb,
  if◌then◌else◌, inl, inr, Bool-cases, Option-cases,
}
use mailfold.Prelude.Assoc.{lookup}
use mailfold.Storage.{Time, from_unix, is_after}
use mailfold.Sql.{ok, Conn}
use mailfold.Sql.Laws.{IsReliable}
use mailfold.SessionStore
use mailfold.SessionStore.{Row, TokenRow, Table, scan}
use mailfold.SessionStore.Isolation.{held}
use mailfold.SessionStore.Cell.{
  open_at, counted, get_reliable, get-KeepsOutcome, delete_reliable, delete-KeepsOutcome,
}
use mailfold.WebmailSession.{
  Credentials, Sessions, Env, max_pending_attempts, is_backed, decrypt_row, decoded, with_attempts,
  get, delete, peek_counted, peek, take_found, take,
}

-- What a caller acts on.
pub record Account : Type 0 where
  pub email : String
  pub password : String
  pub acting_as : String

abbrev pub account : Credentials → Account
account c = record { email = c.email; password = c.password; acting_as = c.acting_as }

-- A kept login; `opens_as` is missing where the password cannot be decrypted.
pub record Login : Type 0 where
  pub opens_as : Option Account
  pub expires_at : Time
  pub attempts : ℕ

abbrev pub opened : Option Login → Option Account
opened none = none
opened (some l) = l.opens_as

abbrev pub of_memory : Credentials → Login
of_memory c = record {
  opens_as = some (account c);
  expires_at = c.expires_at;
  attempts = c.attempts;
}

-- The contract: a login at `now`, and one after one more attempt at `now`.
unfoldable pub unexpired : ℕ → Option Login → Option Login
unexpired now none = none
unexpired now (some l) = if is_after now l.expires_at then none else some l

unfoldable pub charged : ℕ → Option Login → Option Login
charged now none = none
charged now (some l) =
    if is_after now l.expires_at
    then none
    else if ltb max_pending_attempts (l.attempts + 1)
    then none
    else some (record l { attempts = l.attempts + 1 })

-- The table answers, where a store and a cipher are attached.
abbrev pub CanAnswer : Sessions → Type 0
CanAnswer s = is_backed s ≡ true → IsReliable s.conn

pub data Visit : Type 0 where
  gets peeks takes : ℕ → Visit
  deletes : Visit

-- The contract of the four methods: the login that is shown, and the one that is kept.
unfoldable pub on_login : Visit → Option Login → Option Login × Option Login
unfolding unexpired charged
on_login (gets now) l = (unexpired now l, unexpired now l)
on_login (peeks now) l = (charged now l, charged now l)
on_login (takes now) l = (unexpired now l, none)
on_login deletes l = (none, none)

module _ (env : Env) where
  open env use {digest, open_sealed}

  abbrev pub of_row : TokenRow → Login
  of_row r = record {
    opens_as = Option.map account (decrypt_row env (scan r));
    expires_at = from_unix r.expires_at;
    attempts = r.attempts;
  }

  -- What stands behind a token, whichever way it is kept.
  unfoldable pub login_of : String → Sessions → Option Login
  login_of token s =
      if is_backed s
      then Option.map of_row (held digest token s.kind s.conn.tables)
      else Option.map of_memory (lookup token s.m)

  -- One visit of a token.
  unfoldable pub visit : String → Visit → Sessions → Option Credentials × Sessions
  visit token (gets now) s = get env token now s
  visit token (peeks now) s = peek env token now s
  visit token (takes now) s = take env token now s
  visit token deletes s = (none, delete env token s)

  pub login_on :
      (token : String) (s : Sessions)
      → is_backed s ≡ true
      → login_of token s ≡ Option.map of_row (held digest token s.kind s.conn.tables)
  unfolding login_of
  login_on token s on = rw on refl

  pub login_off :
      (token : String) (s : Sessions)
      → is_backed s ≡ false
      → login_of token s ≡ Option.map of_memory (lookup token s.m)
  unfolding login_of
  login_off token s off = rw off refl

  -- An answer and a connection as a path over the table gives them.
  abbrev pub Backs :
      String → String → Option Login × Option Login → Option Credentials × Conn Table → Type 0
  Backs token kind l v =
      (Option.map account v.0 ≡ opened l.0)
      × (Option.map of_row (held digest token kind v.1.tables) ≡ l.1)
      × IsReliable v.1

  module _ (token kind : String) (now : ℕ) where
    account-with_attempts :
        (n : ℕ) (o : Option Credentials)
        → Option.map account (with_attempts n o) ≡ Option.map account o
    account-with_attempts n none = refl
    account-with_attempts n (some c) = refl

    opened_row :
        (o : Option TokenRow)
        → Option.map account (decoded env (ok (Option.map scan (open_at now o))))
          ≡ opened (unexpired now (Option.map of_row o))
    unfolding decoded unexpired
    opened_row none = refl
    opened_row (some r) = ground arith

    kept_row :
        (o : Option TokenRow)
        → Option.map of_row (open_at now o) ≡ unexpired now (Option.map of_row o)
    unfolding unexpired
    kept_row none = refl
    kept_row (some r) = ground arith

    unexpired-some :
        (x : TokenRow)
        → is_after now (from_unix x.expires_at) ≡ false
        → unexpired now (some (of_row (SessionStore.bump x)))
          ≡ some (record (of_row x) { attempts = x.attempts + 1 })
    unfolding unexpired SessionStore.bump decrypt_row scan
    unexpired-some x live = rw live refl

    pub get-Backs :
        (c : Conn Table)
        → IsReliable c
        → let g = SessionStore.get digest token kind now c in
          Backs token kind
            (on_login (gets now) (Option.map of_row (held digest token kind c.tables)))
            (decoded env g.0, g.1)
    unfolding on_login
    get-Backs c r =
        let g = get_reliable digest token kind now c r in
        let o = held digest token kind c.tables in
        (
          ap (λ x. Option.map account (decoded env x)) g.0 ∙ opened_row o,
          ap (Option.map of_row) g.1 ∙ kept_row o,
          λ n. ap (λ f. f n) (get-KeepsOutcome digest token kind now c) ∙ r n,
        )

    pub delete-Backs :
        (c : Conn Table) (o : Option Credentials) (l : Option Login)
        → IsReliable c
        → Option.map account o ≡ opened l
        → Backs token kind (l, none) (o, (SessionStore.delete_token digest token kind c).1)
    delete-Backs c o l r e = (
      e,
      ap (Option.map of_row) (delete_reliable digest token kind now c r).1,
      λ n. ap (λ f. f n) (delete-KeepsOutcome digest token kind now c) ∙ r n,
    )

    pub take-Backs :
        (c : Conn Table)
        → IsReliable c
        → let g = SessionStore.get digest token kind now c in
          Backs token kind
            (on_login (takes now) (Option.map of_row (held digest token kind c.tables)))
            (take_found env token kind g.0 g.1)
    unfolding on_login take_found decoded
    take-Backs c r =
        let o = held digest token kind c.tables in
        let g = get_reliable digest token kind now c r in
        let b = get-Backs c r in
        elim (Option-cases (open_at now o)) [
          | inl gone ↦
              let e = g.0 ∙ ap (λ x. ok (Option.map scan x)) gone in
              rw e (
                ap (λ x. Option.map account (decoded env x)) (sym e) ∙ b.0,
                ap (Option.map of_row) (g.1 ∙ gone),
                b.2,
              )
          | inr (x, there) ↦
              let e = g.0 ∙ ap (λ x. ok (Option.map scan x)) there in
              rw e (
                delete-Backs (SessionStore.get digest token kind now c).1 (decrypt_row env (scan x))
                  (unexpired now (Option.map of_row o)) b.2
                  (ap (λ x. Option.map account (decoded env x)) (sym e) ∙ b.0))
        ]

    -- After the count has been raised and read.
    pub counted-Backs :
        (c : Conn Table) (o : Option TokenRow)
        → IsReliable c
        → held digest token kind c.tables ≡ open_at now (Option.map SessionStore.bump o)
        → Backs token kind (on_login (peeks now) (Option.map of_row o)) (
            peek_counted env token kind now
              (ok (Option.map counted (open_at now (Option.map SessionStore.bump o))))
              c)
    unfolding on_login peek_counted charged SessionStore.bump
    counted-Backs c none r h = (refl, ap (Option.map of_row) h, r)
    counted-Backs c (some x) r h = elim (Bool-cases (is_after now (from_unix x.expires_at))) [
      | inl past ↦ rw past (refl, ap (Option.map of_row) (rw past at h), r)
      | inr live ↦ elim (Bool-cases (ltb max_pending_attempts (x.attempts + 1))) [
        | inl spent ↦ rw (live, spent) (delete-Backs c none none r refl)
        | inr room ↦
            let b = get-Backs c r in
            let h' = rw live at h in
            let shown = unexpired-some x live in
            rw (live, room)
              (
                account-with_attempts (x.attempts + 1) _
                    ∙ b.0
                    ∙ ap (λ o. opened (unexpired now (Option.map of_row o))) h'
                    ∙ ap opened shown,
                b.1 ∙ ap (λ o. unexpired now (Option.map of_row o)) h' ∙ shown,
                b.2,
              )
      ]
    ]
