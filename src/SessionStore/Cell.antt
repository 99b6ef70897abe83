-- ===== src/SessionStore/Cell.antt =====
-- backend/internal/sessionstore/store.go against its contract: a token of one kind is a cell that
-- holds at most one row.
use mathlib.Core.Option
use mailfold.Prelude.{
  ℕ, String, ◌≡◌, refl, ap, Option, none, some, List, if◌then◌else◌, inl, inr, Bool-cases,
}
use mailfold.Storage.{from_unix, is_after}
use mailfold.Sql.{Result, ok, err, Conn, ◌>>=◌, ◌>>◌}
use mailfold.Sql.Laws.{
  IsReliable, KeepsOutcome, statement-KeepsOutcome, bind-KeepsOutcome, statement_reliable,
  first-delete_self, first-update_self,
}
use mailfold.SessionStore.{
  TokenRow, Row, PutParams, Table, has_key, scan, hash_token, put_row, put, get, unexpired,
  delete_token, bump, still_open, increment_attempts,
}
use mailfold.SessionStore.Isolation.{
  Call, puts, gets, deletes, increments, call_token, call_kind, after_call, held, first-upsert_self,
  has_key-bump,
}

-- The row of a cell, unless its expiry has passed.
abbrev pub open_at : ℕ → Option TokenRow → Option TokenRow
open_at now none = none
open_at now (some r) = if is_after now (from_unix r.expires_at) then none else some r

-- What a call answers, whichever method it is.
pub data Reply : Type 0 where
  done : Reply
  row : Option Row → Reply
  count : Option (ℕ × String) → Reply

abbrev pub counted : TokenRow → ℕ × String
counted r = (r.attempts, r.subject)

abbrev pub map_ok : {A B : Type 0} → (A → B) → Result A → Result B
map_ok f (ok a) = ok (f a)
map_ok f (err e) = err e

module _ (digest : String → List ℕ) where
  -- The contract: the answer, and the cell after the call.
  unfoldable pub on_cell : Call → Option TokenRow → Reply × Option TokenRow
  on_cell (puts p) cell = (done, some (put_row digest p))
  on_cell (gets token k now) cell = (row (Option.map scan (open_at now cell)), open_at now cell)
  on_cell (deletes token k now) cell = (done, none)
  on_cell (increments token k now) cell =
      let cell' = open_at now (Option.map bump cell) in (count (Option.map counted cell'), cell')

  unfoldable pub reply : Call → Conn Table → Result Reply
  reply (puts p) c = map_ok (λ _. done) (put digest p c).0
  reply (gets token k now) c = map_ok row (get digest token k now c).0
  reply (deletes token k now) c = map_ok (λ _. done) (delete_token digest token k c).0
  reply (increments token k now) c = map_ok count (increment_attempts digest token k now c).0

  module _ (token k : String) (now : ℕ) where
    pub delete_reliable :
        (c : Conn Table)
        → IsReliable c
        → ((delete_token digest token k c).0 ≡ ok tt)
          × (held digest token k (delete_token digest token k c).1.tables ≡ none)
    unfolding delete_token held
    delete_reliable c r = rw (statement_reliable _ c r) (refl, first-delete_self _ c.tables)

    unexpired_reliable :
        (o : Option TokenRow) (c : Conn Table)
        → IsReliable c
        → held digest token k c.tables ≡ o
        → ((unexpired digest token k now o c).0 ≡ ok (Option.map scan (open_at now o)))
          × (held digest token k (unexpired digest token k now o c).1.tables ≡ open_at now o)
    unfolding unexpired ◌>>◌ ◌>>=◌
    unexpired_reliable none c r h = (refl, h)
    unexpired_reliable (some x) c r h = elim (Bool-cases (is_after now (from_unix x.expires_at))) [
      | inl past ↦ rw past (refl, (delete_reliable c r).1)
      | inr live ↦ rw live (refl, h)
    ]

    still_open_reliable :
        (o : Option TokenRow) (c : Conn Table)
        → IsReliable c
        → held digest token k c.tables ≡ o
        → ((still_open digest token k now o c).0 ≡ ok (Option.map counted (open_at now o)))
          × (held digest token k (still_open digest token k now o c).1.tables ≡ open_at now o)
    unfolding still_open ◌>>◌ ◌>>=◌
    still_open_reliable none c r h = (refl, h)
    still_open_reliable (some x) c r h = elim (Bool-cases (is_after now (from_unix x.expires_at))) [
      | inl past ↦ rw past (refl, (delete_reliable c r).1)
      | inr live ↦ rw live (refl, h)
    ]

    pub delete-KeepsOutcome : KeepsOutcome (delete_token digest token k)
    unfolding delete_token
    delete-KeepsOutcome = statement-KeepsOutcome _

    still_open-KeepsOutcome : (o : Option TokenRow) → KeepsOutcome (still_open digest token k now o)
    unfolding still_open delete_token ◌>>◌ ◌>>=◌
    still_open-KeepsOutcome none c = refl
    still_open-KeepsOutcome (some x) c = elim (Bool-cases (is_after now (from_unix x.expires_at))) [
      | inl past ↦ rw past (statement-KeepsOutcome _ c)
      | inr live ↦ rw live refl
    ]

    unexpired-KeepsOutcome : (o : Option TokenRow) → KeepsOutcome (unexpired digest token k now o)
    unfolding unexpired delete_token ◌>>◌ ◌>>=◌
    unexpired-KeepsOutcome none c = refl
    unexpired-KeepsOutcome (some x) c = elim (Bool-cases (is_after now (from_unix x.expires_at))) [
      | inl past ↦ rw past (statement-KeepsOutcome _ c)
      | inr live ↦ rw live refl
    ]

    pub get-KeepsOutcome : KeepsOutcome (get digest token k now)
    unfolding get
    get-KeepsOutcome = bind-KeepsOutcome _ _ (statement-KeepsOutcome _) unexpired-KeepsOutcome

    pub increment-KeepsOutcome : KeepsOutcome (increment_attempts digest token k now)
    unfolding increment_attempts
    increment-KeepsOutcome =
        bind-KeepsOutcome _ _ (statement-KeepsOutcome _) still_open-KeepsOutcome

    pub get_reliable :
        (c : Conn Table)
        → IsReliable c
        → ((get digest token k now c).0
            ≡ ok (Option.map scan (open_at now (held digest token k c.tables))))
          × (held digest token k (get digest token k now c).1.tables
              ≡ open_at now (held digest token k c.tables))
    unfolding get ◌>>=◌ held
    get_reliable c r =
        rw (statement_reliable _ c r) (unexpired_reliable (held digest token k c.tables) _ r refl)

    pub increment_reliable :
        (c : Conn Table)
        → IsReliable c
        → let cell = open_at now (Option.map bump (held digest token k c.tables)) in
          ((increment_attempts digest token k now c).0 ≡ ok (Option.map counted cell))
          × (held digest token k (increment_attempts digest token k now c).1.tables ≡ cell)
    unfolding increment_attempts ◌>>=◌ held
    increment_reliable c r =
        let bumped =
          first-update_self (has_key (hash_token digest token) k) bump c.tables
            (has_key-bump _ k) in
        rw (statement_reliable _ c r) (
          rw bumped
            (still_open_reliable (Option.map bump (held digest token k c.tables)) _ r bumped))

  pub put-KeepsOutcome : (p : PutParams) → KeepsOutcome (put digest p)
  unfolding put
  put-KeepsOutcome p = statement-KeepsOutcome _

  pub put_reliable :
      (p : PutParams) (c : Conn Table)
      → IsReliable c
      → ((put digest p c).0 ≡ ok tt)
        × (held digest p.token p.kind (put digest p c).1.tables ≡ some (put_row digest p))
  unfolding put held put_row
  put_reliable p c r =
      rw (statement_reliable _ c r) (refl, first-upsert_self (put_row digest p) c.tables)

  -- While the driver reports no error, every call answers and acts on its token as the contract
  -- says: `Put` fills the cell with zero attempts, `Get` and `IncrementAttempts` empty it when its
  -- expiry has passed and otherwise show it, the latter with one more attempt, and `Delete` empties
  -- it.
  pub call_refines :
      (call : Call) (c : Conn Table)
      → IsReliable c
      → let cell = held digest (call_token call) (call_kind call) c.tables in
        (reply call c ≡ ok (on_cell call cell).0)
        × (held digest (call_token call) (call_kind call) (after_call digest call c).tables
            ≡ (on_cell call cell).1)
  unfolding reply on_cell after_call
  call_refines (puts p) c r =
      (ap (map_ok (λ _. done)) (put_reliable p c r).0, (put_reliable p c r).1)
  call_refines (gets token k now) c r =
      (ap (map_ok row) (get_reliable token k now c r).0, (get_reliable token k now c r).1)
  call_refines (deletes token k now) c r = (
    ap (map_ok (λ _. done)) (delete_reliable token k now c r).0,
    (delete_reliable token k now c r).1,
  )
  call_refines (increments token k now) c r = (
    ap (map_ok count) (increment_reliable token k now c r).0,
    (increment_reliable token k now c r).1,
  )
