-- ===== src/ApiKey/Revocation.antt =====
-- `Revoke` of backend/internal/apikey/store.go, by what `GetByID` and `Active` say afterwards.
use mathlib.Core.Option
use mailfold.Prelude.{
  ℕ, suc, ◌≤◌, ◌/◌, String, ◌≡◌, refl, sym, ap, ◌∙◌, Bool, false, Option, none, some, [], ◌∷◌,
  arith, str_eq, ltb, ◌==◌, if◌then◌else◌, inl, inr, Bool-cases, Option-cases,
}
use mailfold.Storage.{second, unix, from_unix}
use mailfold.Sql.{ok, err, Conn, attempt, statement, continue, ◌>>=◌}
use mailfold.Sql.Table.{first, update, count}
use mailfold.Sql.Laws.{Keeps, Keeps-statement, Keeps-bind}
use mailfold.Sql.Ideal.{
  then_ideal, Implements, statement-Implements, lift-Implements, bind-Implements,
}
use mailfold.ApiKey.Store.{
  KeyRow, Record, Table, is_zero, is_active, has_id, scan_key, get_by_id, is_open, revoke_row,
  affected, known_if_none, revoke,
}

-- What a revocation does to one row.
unfoldable pub revoked_at : ℕ → KeyRow → KeyRow
revoked_at t r = if r.revoked == 0 then revoke_row t r else r

pub first-revoke :
    (id : String) (t : ℕ) (rows : Table)
    → first (has_id id) (update (is_open id) (revoke_row t) rows)
      ≡ Option.map (revoked_at t) (first (has_id id) rows)
unfolding first update is_open has_id revoke_row revoked_at
first-revoke id t [] = refl
first-revoke id t (r ∷ rows) = elim (Bool-cases (str_eq r.id id)) [
  | inl hit ↦ elim (Bool-cases (r.revoked == 0)) [
    | inl active ↦ ground (arith, hit, active)
    | inr spent ↦ ground (arith, hit, spent)
  ]
  | inr miss ↦ ground (arith, miss, first-revoke id t rows)
]

module _ (P : Table → Type 0) where
  affected-Keeps : (n : ℕ) → Keeps P (affected n)
  unfolding affected
  affected-Keeps n c h = Keeps-statement P (λ t. (n, t)) (λ t h. h) c h

  known-Keeps : (id : String) (n : ℕ) → Keeps P (known_if_none id n)
  unfolding known_if_none
  known-Keeps id n c h = elim (Bool-cases (ltb 0 n)) [
    | inl some_row ↦ rw some_row h
    | inr no_row ↦
        rw no_row (Keeps-statement P (λ t. (ltb 0 (count (has_id id) t), t)) (λ t h. h) c h)
  ]

  -- After the UPDATE the tables stay as they are.
  rest-Keeps : (id : String) (n : ℕ) → Keeps P (affected n >>= known_if_none id)
  rest-Keeps id n = Keeps-bind P (affected n) (known_if_none id) (affected-Keeps n) (known-Keeps id)

-- A revocation that reports no error has acted on the table.
pub revoke-tables :
    (id : String) (t : ℕ) (c : Conn Table) (b : Bool)
    → (revoke id t c).0 ≡ ok b
    → (revoke id t c).1.tables ≡ update (is_open id) (revoke_row t) c.tables
unfolding revoke statement ◌>>=◌
revoke-tables id t c b h = elim (Option-cases (c.outcome c.used)) [
  | inl fine ↦
      rw (fine, attempt, continue)
        (rest-Keeps (λ rows. rows ≡ update (is_open id) (revoke_row t) c.tables) id
          (count (is_open id) c.tables)
          (record c { tables = update (is_open id) (revoke_row t) c.tables; used = suc c.used })
          refl)
  | inr (e, failed) ↦ let h' : err e ≡ ok b = rw (failed, attempt, continue) at h in cc
]

pub get_by_id-Implements :
    (id : String)
    → Implements (get_by_id id) (λ t. (ok (Option.map scan_key (first (has_id id) t)), t))
unfolding get_by_id then_ideal
get_by_id-Implements id =
    bind-Implements (statement-Implements (λ t. (first (has_id id) t, t)))
      (λ row. lift-Implements (ok (Option.map scan_key row)))

pub revoked-inactive :
    (now t : ℕ) (r : KeyRow) → second ≤ t → is_active now (scan_key (revoked_at t r)) ≡ false
unfolding is_active scan_key revoked_at revoke_row is_zero from_unix unix
revoked-inactive now t r le = elim (Bool-cases (r.revoked == 0)) [
  | inl active ↦ let later : (t / second == 0) ≡ false = ground arith in rw (active, later) refl
  | inr spent ↦ rw (spent, spent) refl
]

-- After a revocation that reports no error, dated a second or more after 1970, whatever `GetByID` finds
-- under the id is not active at any instant, on any connection that sees the table.
pub get-revoke :
    (id : String) (t now : ℕ) (c later : Conn Table) (b : Bool) (k : Record)
    → second ≤ t
    → (revoke id t c).0 ≡ ok b
    → later.tables ≡ (revoke id t c).1.tables
    → (get_by_id id later).0 ≡ ok (some k)
    → is_active now k ≡ false
get-revoke id t now c later b k le done same found =
    let rows = same ∙ revoke-tables id t c b done in
    let seen = ((get_by_id-Implements id).when_ok later (some k) found).0 in
    inactive (first (has_id id) c.tables) (
      sym seen
      ∙ ap (λ t. ok (Option.map scan_key (first (has_id id) t))) rows
      ∙ ap (λ o. ok (Option.map scan_key o)) (first-revoke id t c.tables))
  where
    inactive :
        (o : Option KeyRow)
        → ok (some k) ≡ ok (Option.map scan_key (Option.map (revoked_at t) o))
        → is_active now k ≡ false
    inactive none h = cc
    inactive (some r) h =
        let e : k ≡ scan_key (revoked_at t r) = cc in
        ap (is_active now) e ∙ revoked-inactive now t r le

-- A row that is already revoked stays as it is.
revoke_twice :
    (id : String) (t t' : ℕ) (rows : Table)
    → second ≤ t
    → first
        (has_id id)
        (update (is_open id) (revoke_row t') (update (is_open id) (revoke_row t) rows))
      ≡ first (has_id id) (update (is_open id) (revoke_row t) rows)
unfolding revoked_at revoke_row unix
revoke_twice id t t' rows le =
    first-revoke id t' (update (is_open id) (revoke_row t) rows)
    ∙ ap (Option.map (revoked_at t')) (first-revoke id t rows)
    ∙ settled (first (has_id id) rows)
    ∙ sym (first-revoke id t rows)
  where
    settled :
        (o : Option KeyRow)
        → Option.map (revoked_at t') (Option.map (revoked_at t) o) ≡ Option.map (revoked_at t) o
    settled none = refl
    settled (some r) = elim (Bool-cases (r.revoked == 0)) [
      | inl active ↦ let later : (t / second == 0) ≡ false = ground arith in rw (active, later) refl
      | inr spent ↦ rw (spent, spent) refl
    ]

-- Of two revocations that report no error, the first dated a second or more after 1970, the second
-- leaves the key's row, and so its revocation time, as the first has left it.
pub revoke-revoke :
    (id : String) (t t' : ℕ) (c : Conn Table) (b b' : Bool)
    → second ≤ t
    → (revoke id t c).0 ≡ ok b
    → (revoke id t' (revoke id t c).1).0 ≡ ok b'
    → first (has_id id) (revoke id t' (revoke id t c).1).1.tables
      ≡ first (has_id id) (revoke id t c).1.tables
revoke-revoke id t t' c b b' le done again =
    let rows = revoke-tables id t c b done in
    ap (first (has_id id)) (
      revoke-tables id t' (revoke id t c).1 b' again
      ∙ ap (update (is_open id) (revoke_row t')) rows)
    ∙ revoke_twice id t t' c.tables le
    ∙ ap (first (has_id id)) (sym rows)
