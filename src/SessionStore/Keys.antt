-- ===== src/SessionStore/Keys.antt =====
-- backend/internal/sessionstore/store.go: PRIMARY KEY (token_hash, kind), and what the sweeps delete.
use mailfold.Prelude.{
  ℕ, String, ◌≡◌, refl, ap, ◌∙◌, Bool, true, false, Option, none, some, List, [], ◌∷◌, arith,
  eq_iff, if◌then◌else◌, All, inl, inr, Bool-cases,
}
use mailfold.Prelude.Text.{Text, text_eq_iff}
use mailfold.Storage.{from_unix, is_after}
use mailfold.Sql.{Conn, ◌>>=◌, ◌>>◌}
use mailfold.Sql.Table.{first, update, delete}
use mailfold.Sql.Laws.{Keeps, Keeps-statement, Keeps-bind}
use mailfold.SessionStore.{
  TokenRow, Table, has_key, put_row, upsert, put, get, unexpired, delete_token, bump, still_open,
  increment_attempts,
}
use mailfold.SessionStore.Isolation.{
  Call, puts, gets, deletes, increments, after_call, first-upsert_ne, has_key_self, has_key-bump,
}

-- No two rows have the same key.
abbrev pub IsTable : Table → Type 0
IsTable [] = Unit
IsTable (r ∷ rs) = (first (has_key r.token_hash r.kind) rs ≡ none) × IsTable rs

module _ (p q : TokenRow → Bool) where
  pub first-delete-none : (t : Table) → first p t ≡ none → first p (delete q t) ≡ none
  unfolding first delete
  first-delete-none [] h = refl
  first-delete-none (x ∷ t) h = ground (arith, first-delete-none t)

  -- A deletion that covers every match leaves none.
  pub first-delete_covered :
      (t : Table) → All (λ r. p r ≡ true → q r ≡ true) t → first p (delete q t) ≡ none
  unfolding first delete
  first-delete_covered [] c = refl
  first-delete_covered (x ∷ t) c = ground (arith, c.0, first-delete_covered t c.1)

  first-update-none :
      (f : TokenRow → TokenRow) (t : Table)
      → ((r : TokenRow) → p (f r) ≡ p r)
      → first p t ≡ none
      → first p (update q f t) ≡ none
  unfolding first update
  first-update-none f [] k h = refl
  first-update-none f (x ∷ t) k h = ground (arith, k x, first-update-none f t k)

abbrev pub dropped : (TokenRow → Bool) → Option TokenRow → Option TokenRow
dropped q none = none
dropped q (some r) = if q r then none else some r

key_sound :
    (h : Text) (k : String) (r : TokenRow)
    → has_key h k r ≡ true
    → (h ≡ r.token_hash) × (k ≡ r.kind)
unfolding has_key
key_sound h k r m = ground (arith, text_eq_iff r.token_hash h, eq_iff r.kind k)

same_key :
    (h : Text) (k : String) (r : TokenRow) (t : Table)
    → has_key h k r ≡ true
    → first (has_key r.token_hash r.kind) t ≡ none
    → first (has_key h k) t ≡ none
same_key h k r t m e =
    let s = key_sound h k r m in
    ap (λ x. first (has_key x k) t) s.0 ∙ ap (λ x. first (has_key r.token_hash x) t) s.1 ∙ e

-- Where keys are unique, a deletion acts on each key by itself.
pub first-delete_where :
    (q : TokenRow → Bool) (h : Text) (k : String) (t : Table)
    → IsTable t
    → first (has_key h k) (delete q t) ≡ dropped q (first (has_key h k) t)
unfolding first delete
first-delete_where q h k [] u = refl
first-delete_where q h k (x ∷ t) u = elim (Bool-cases (has_key h k x)) [
  | inl hit ↦
      let here = first-delete-none (has_key h k) q t (same_key h k x t hit u.0) in
      ground (arith, here)
  | inr miss ↦ ground (arith, first-delete_where q h k t u.1)
]

delete-IsTable : (q : TokenRow → Bool) (t : Table) → IsTable t → IsTable (delete q t)
unfolding delete
delete-IsTable q [] u = tt
delete-IsTable q (x ∷ t) u = elim (Bool-cases (q x)) [
  | inl goes ↦ rw goes (delete-IsTable q t u.1)
  | inr stays ↦
      rw stays (first-delete-none (has_key x.token_hash x.kind) q t u.0, delete-IsTable q t u.1)
]

update-IsTable : (q : TokenRow → Bool) (t : Table) → IsTable t → IsTable (update q bump t)
unfolding update bump
update-IsTable q [] u = tt
update-IsTable q (x ∷ t) u =
    let k = has_key x.token_hash x.kind in
    let rest = first-update-none k q bump t (has_key-bump x.token_hash x.kind) u.0 in
    elim (Bool-cases (q x)) [
      | inl hit ↦ rw hit (rest, update-IsTable q t u.1)
      | inr miss ↦ rw miss (rest, update-IsTable q t u.1)
    ]

other_key :
    (r x y : TokenRow)
    → has_key r.token_hash r.kind x ≡ false
    → has_key r.token_hash r.kind y ≡ true
    → has_key x.token_hash x.kind y ≡ false
unfolding has_key
other_key r x y m h = ground (
  arith,
  text_eq_iff x.token_hash r.token_hash,
  text_eq_iff y.token_hash r.token_hash,
  text_eq_iff y.token_hash x.token_hash,
  eq_iff x.kind r.kind,
  eq_iff y.kind r.kind,
  eq_iff y.kind x.kind,
)

upsert-IsTable : (r : TokenRow) (t : Table) → IsTable t → IsTable (upsert r t)
unfolding upsert first
upsert-IsTable r [] u = (refl, tt)
upsert-IsTable r (x ∷ t) u = elim (Bool-cases (has_key r.token_hash r.kind x)) [
  | inl hit ↦ rw hit (same_key r.token_hash r.kind x t hit u.0, u.1)
  | inr miss ↦ rw miss (
    first-upsert_ne (has_key x.token_hash x.kind) r t (other_key r x r miss (has_key_self r))
          (λ y. other_key r x y miss)
        ∙ u.0,
    upsert-IsTable r t u.1,
  )
]

module _ (digest : String → List ℕ) (token k : String) (now : ℕ) where
  delete_token-Keeps : Keeps IsTable (delete_token digest token k)
  unfolding delete_token
  delete_token-Keeps = Keeps-statement IsTable _ (λ t. delete-IsTable _ t)

  unexpired-Keeps : (o : Option TokenRow) → Keeps IsTable (unexpired digest token k now o)
  unfolding unexpired ◌>>◌ ◌>>=◌
  unexpired-Keeps none c u = u
  unexpired-Keeps (some r) c u = elim (Bool-cases (is_after now (from_unix r.expires_at))) [
    | inl past ↦ rw past (delete_token-Keeps c u)
    | inr live ↦ rw live u
  ]

  still_open-Keeps : (o : Option TokenRow) → Keeps IsTable (still_open digest token k now o)
  unfolding still_open ◌>>◌ ◌>>=◌
  still_open-Keeps none c u = u
  still_open-Keeps (some r) c u = elim (Bool-cases (is_after now (from_unix r.expires_at))) [
    | inl past ↦ rw past (delete_token-Keeps c u)
    | inr live ↦ rw live u
  ]

  get-Keeps : Keeps IsTable (get digest token k now)
  unfolding get
  get-Keeps = Keeps-bind IsTable _ _ (Keeps-statement IsTable _ (λ t u. u)) unexpired-Keeps

  increment-Keeps : Keeps IsTable (increment_attempts digest token k now)
  unfolding increment_attempts
  increment-Keeps =
      Keeps-bind IsTable _ _ (Keeps-statement IsTable _ (λ t. update-IsTable _ t)) still_open-Keeps

-- Whatever errors the driver reports, `Put`, `Get`, `Delete` and `IncrementAttempts` keep the keys
-- of the table unique.
pub after_call-IsTable :
    (digest : String → List ℕ) (call : Call) (c : Conn Table)
    → IsTable c.tables
    → IsTable (after_call digest call c).tables
unfolding after_call put
after_call-IsTable digest (puts p) c u =
    Keeps-statement IsTable _ (λ t. upsert-IsTable (put_row digest p) t) c u
after_call-IsTable digest (gets token k now) c u = get-Keeps digest token k now c u
after_call-IsTable digest (deletes token k now) c u = delete_token-Keeps digest token k now c u
after_call-IsTable digest (increments token k now) c u = increment-Keeps digest token k now c u
