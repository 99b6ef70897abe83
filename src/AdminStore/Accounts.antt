-- ===== src/AdminStore/Accounts.antt =====
-- backend/internal/admin/store.go: the four setters of an account, through `ensureRow` and its fallback.
use mathlib.Core.Option
use mailfold.Prelude.{
  ℕ, String, ◌≡◌, refl, sym, ap, subst, ◌∙◌, Bool, true, false, Option, none, some, List, [], ◌∷◌,
  ◌++◌, arith, eq_iff, str_eq, inl, inr, Bool-cases,
}
use mailfold.Storage.{unix, from_unix, at}
use mailfold.Sql.{Result, ok, err, Conn, Sql, statement, ◌>>◌}
use mailfold.Sql.Table.{first, update}
use mailfold.Sql.Triple.{
  After, Triple, Triple-ok, known-Triple, query-Triple, bind-Triple, lift-Triple,
}
use mailfold.AdminStore.Defs.{
  Tables, AccountRow, Account, ProfileUpdate, blank, has_user, scan_account, zero_account,
  account_or_zero, with_row, insert_if, insert_row, checked, ensured, ensure_row, set_row,
  password_set, profile_set, totp_set, notify_set, set_password_hash, set_profile, set_totp,
  set_notify_sender, bool_int, is_set,
}

-- A setter with what it is to write.
pub data Setter : Type 0 where
  password : String → Setter
  profile : ProfileUpdate → Setter
  totp : Bool → String → String → Setter
  notify : String → String → String → Setter

-- The method.
unfoldable pub run : Setter → String → ℕ → Sql Tables (Unit {0})
run (password hash) username now = set_password_hash username hash now
run (profile p) username now = set_profile username p now
run (totp enabled enc nonce) username now = set_totp username enabled enc nonce now
run (notify mailbox enc nonce) username now = set_notify_sender username mailbox enc nonce now

-- Its meaning on the account that `GetAccount` reports.
unfoldable pub changed : Setter → ℕ → Account → Account
changed (password hash) now a = record a {
  password_hash = hash;
  updated_at = from_unix (unix (at now));
}
changed (profile p) now a = record a {
  display_name = p.display_name;
  email = p.email;
  timezone = p.timezone;
  avatar_url = p.avatar_url;
  updated_at = from_unix (unix (at now));
}
changed (totp enabled enc nonce) now a = record a {
  totp_enabled = enabled;
  totp_secret_enc = enc;
  totp_secret_nonce = nonce;
  updated_at = from_unix (unix (at now));
}
changed (notify mailbox enc nonce) now a = record a {
  notify_mailbox = mailbox;
  notify_password_enc = enc;
  notify_password_nonce = nonce;
  updated_at = from_unix (unix (at now));
}

-- What `GetAccount` reports from the tables.
unfoldable pub account : String → Tables → Account
account username t = account_or_zero username (first (has_user username) t.accounts)

-- The setter's change of the row.
unfoldable pub row_change : Setter → ℕ → AccountRow → AccountRow
row_change (password hash) now = password_set hash now
row_change (profile p) now = profile_set p now
row_change (totp enabled enc nonce) now = totp_set enabled enc nonce now
row_change (notify mailbox enc nonce) now = notify_set mailbox enc nonce now

run-set_row :
    (s : Setter) (username : String) (now : ℕ)
    → run s username now ≡ set_row username (row_change s now)
unfolding run row_change set_password_hash set_profile set_totp set_notify_sender
run-set_row (password hash) username now = refl
run-set_row (profile p) username now = refl
run-set_row (totp enabled enc nonce) username now = refl
run-set_row (notify mailbox enc nonce) username now = refl

is_set-bool_int : (b : Bool) → is_set (bool_int b) ≡ b
unfolding is_set bool_int
is_set-bool_int true = refl
is_set-bool_int false = refl

scan-row_change :
    (s : Setter) (now : ℕ) (r : AccountRow)
    → scan_account (row_change s now r) ≡ changed s now (scan_account r)
unfolding scan_account row_change changed password_set profile_set totp_set notify_set
scan-row_change (password hash) now r = refl
scan-row_change (profile p) now r = refl
scan-row_change (totp enabled enc nonce) now r = rw (is_set-bool_int enabled) refl
scan-row_change (notify mailbox enc nonce) now r = refl

row_change-username :
    (s : Setter) (now : ℕ) (r : AccountRow) → (row_change s now r).username ≡ r.username
unfolding row_change password_set profile_set totp_set notify_set
row_change-username (password hash) now r = refl
row_change-username (profile p) now r = refl
row_change-username (totp enabled enc nonce) now r = refl
row_change-username (notify mailbox enc nonce) now r = refl

module _ (username : String) (before : Tables) where
  -- The tables once the row is there.
  abbrev ready : Tables
  ready = with_row username (first (has_user username) before.accounts) before

  checked-Triple :
      (e : String) (o : Option AccountRow)
      → o ≡ first (has_user username) before.accounts
      → Triple (λ t. t ≡ before) (checked username e (ok o)) (λ a t. t ≡ ready) (λ t. Unit {0})
  unfolding checked with_row insert_if insert_row
  checked-Triple e (some r) h =
      lift-Triple (λ t. t ≡ before) (ok tt) (λ a t. t ≡ ready) (λ t. Unit {0})
        (λ t p. p ∙ ap (λ o. with_row username o before) h)
  checked-Triple e none h =
      bind-Triple (λ done t. After (λ a t. t ≡ ready) (λ t. Unit {0}) done t)
        (known-Triple before (insert_row username)
          (λ done t. After (λ a t. t ≡ ready) (λ t. Unit {0}) done t) (λ t. Unit {0})
          (subst
            (λ o.
              After (λ a t. t ≡ with_row username o before) (λ t. Unit {0})
                (insert_if username o before).0 (insert_if username o before).1)
            h refl)
          tt)
        (λ done. lift-Triple _ done (λ a t. t ≡ ready) (λ t. Unit {0}) (λ t p. p))

  ensure-Triple : Triple (λ t. t ≡ before) (ensure_row username) (λ a t. t ≡ ready) (λ t. Unit {0})
  unfolding ensure_row ensured
  ensure-Triple = record {
    runs = λ c p.
        go (statement (λ t. (tt, with_row username (first (has_user username) t.accounts) t)) c).0
          (statement (λ t. (tt, with_row username (first (has_user username) t.accounts) t)) c).1
          ((known-Triple before
              (λ t. (tt, with_row username (first (has_user username) t.accounts) t))
              (λ a t. t ≡ ready) (λ t. t ≡ before) refl refl).runs
            c p);
  }
    where
      found :
          (e : String) (r : Result (Option AccountRow)) (c : Conn Tables)
          → After
              (λ o t. (o ≡ first (has_user username) before.accounts) × (t ≡ before))
              (λ t. t ≡ before)
              r
              c.tables
          → After
              (λ a t. t ≡ ready)
              (λ t. Unit {0})
              (checked username e r c).0
              (checked username e r c).1.tables
      found e (ok o) c q = (checked-Triple e o q.0).runs c q.1
      found e (err e') c q = unfold checked in tt

      go :
          (r : Result (Unit {0})) (c : Conn Tables)
          → After (λ a t. t ≡ ready) (λ t. t ≡ before) r c.tables
          → After
              (λ a t. t ≡ ready)
              (λ t. Unit {0})
              (ensured username r c).0
              (ensured username r c).1.tables
      go (ok u) c q = q
      go (err e) c q =
          found e (statement (λ t. (first (has_user username) t.accounts, t)) c).0
            (statement (λ t. (first (has_user username) t.accounts, t)) c).1
            ((query-Triple before (λ t. first (has_user username) t.accounts) (λ t. t ≡ before)
                refl).runs
              c q)

has_self : (username : String) → str_eq username username ≡ true
has_self username = (eq_iff username username).1 refl

first-last :
    (username : String) (rows : List AccountRow)
    → first (has_user username) rows ≡ none
    → first (has_user username) (rows ++ blank username ∷ []) ≡ some (blank username)
unfolding first has_user blank
first-last username [] h = rw (has_self username) refl
first-last username (r ∷ rows) h = ground (arith, first-last username rows)

-- The row that a user name has once it is there.
unfoldable pub row_or_blank : String → Option AccountRow → AccountRow
row_or_blank username none = blank username
row_or_blank username (some r) = r

ready_row :
    (username : String) (t : Tables) (o : Option AccountRow)
    → first (has_user username) t.accounts ≡ o
    → first (has_user username) (with_row username o t).accounts ≡ some (row_or_blank username o)
unfolding with_row row_or_blank
ready_row username t none h = first-last username t.accounts h
ready_row username t (some r) h = h

first-changed :
    (username : String) (f : AccountRow → AccountRow)
    → ((r : AccountRow) → (f r).username ≡ r.username)
    → (rows : List AccountRow)
    → first (has_user username) (update (has_user username) f rows)
      ≡ Option.map f (first (has_user username) rows)
unfolding first update has_user
first-changed username f k [] = refl
first-changed username f k (r ∷ rows) = elim (Bool-cases (str_eq r.username username)) [
  | inl here ↦ rw (here, k r, here) refl
  | inr elsewhere ↦ rw (elsewhere, elsewhere) (first-changed username f k rows)
]

account_of_row :
    (username : String) (o : Option AccountRow)
    → scan_account (row_or_blank username o) ≡ account_or_zero username o
unfolding row_or_blank scan_account blank account_or_zero zero_account is_set from_unix
account_of_row username none = refl
account_of_row username (some r) = refl

-- A setter that reports no error has done to the account that `GetAccount` reports exactly what it is
-- for, and left the account's other fields, also where the row had yet to be created and where its
-- creation reported an error first.
pub account-run :
    (s : Setter) (username : String) (now : ℕ) (c : Conn Tables)
    → (run s username now c).0 ≡ ok tt
    → account username (run s username now c).1.tables ≡ changed s now (account username c.tables)
unfolding set_row ◌>>◌ account account_or_zero
account-run s username now c done =
    let f = row_change s now in
    let o = first (has_user username) c.tables.accounts in
    let whole =
      bind-Triple (λ a t. t ≡ ready username c.tables) (ensure-Triple username c.tables)
        (λ a.
          known-Triple (ready username c.tables)
            (λ t. (tt, record t { accounts = update (has_user username) f t.accounts }))
            (λ a t. t ≡ record (ready username c.tables) {
              accounts = update (has_user username) f (ready username c.tables).accounts;
            })
            (λ t. Unit {0}) refl tt) in
    let same = run-set_row s username now in
    let tables = Triple-ok whole c tt refl (sym (ap (λ m. (m c).0) same) ∙ done) in
    let row : first (has_user username) (run s username now c).1.tables.accounts
        ≡ some (f (row_or_blank username o)) =
      ap (λ m. first (has_user username) (m c).1.tables.accounts) same
      ∙ ap (λ (t : Tables). first (has_user username) t.accounts) tables
      ∙ first-changed username f (row_change-username s now) (ready username c.tables).accounts
      ∙ ap (Option.map f) (ready_row username c.tables o refl) in
    ap (account_or_zero username) row
    ∙ scan-row_change s now (row_or_blank username o)
    ∙ ap (changed s now) (account_of_row username o)
