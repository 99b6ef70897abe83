-- ===== src/ApiKey/Store.antt =====
-- backend/internal/apikey/store.go: the table of API keys. The clock reading is an argument; ORDER BY is
-- a parameter. Opening the database and creating the table are not modelled.
use mailfold.Prelude.{
  ℕ, String, Bool, true, false, not, ◌&&◌, ◌||◌, Option, none, some, List, [], ◌∷◌, ◌++◌, map,
  str_eq, ltb, leb, ◌==◌, if◌then◌else◌,
}
use mailfold.Storage.{Time, at, zero_time, unix, from_unix}
use mailfold.Sql.{Result, ok, err, Sql, pure, statement, ◌>>=◌}
use mailfold.Sql.Table.{select, first, update, count}

-- A row of api_keys; instants are unix seconds.
pub record KeyRow : Type 0 where
  pub id : String
  pub token_sha256 : String
  pub prefix : String
  pub mailbox : String
  pub label : String
  pub scopes : String
  pub secret_enc : String
  pub secret_nonce : String
  pub mc_app_pw_id : String
  pub created : ℕ
  pub last_used : ℕ
  pub expires : ℕ
  pub revoked : ℕ

pub record Record : Type 0 where
  pub id : String
  pub token_sha256 : String
  pub prefix : String
  pub mailbox : String
  pub label : String
  pub scopes : String
  pub secret_enc : String
  pub secret_nonce : String
  pub mc_app_pw_id : String
  pub created : Time
  pub last_used : Time
  pub expires : Time
  pub revoked : Time

abbrev pub Table : Type 0
Table = List KeyRow

unfoldable pub is_zero : Time → Bool
is_zero zero_time = true
is_zero (at t) = false

-- !now.Before(t)
unfoldable pub is_reached : ℕ → Time → Bool
is_reached now zero_time = true
is_reached now (at t) = leb t now

unfoldable pub is_active : ℕ → Record → Bool
unfolding is_zero is_reached
is_active now r =
    if not (is_zero r.revoked)
    then false
    else if not (is_zero r.expires) && is_reached now r.expires
    then false
    else true

unfoldable pub has_id : String → KeyRow → Bool
has_id id r = str_eq r.id id

unfoldable pub to_row : Record → KeyRow
to_row r = record {
  id = r.id;
  token_sha256 = r.token_sha256;
  prefix = r.prefix;
  mailbox = r.mailbox;
  label = r.label;
  scopes = r.scopes;
  secret_enc = r.secret_enc;
  secret_nonce = r.secret_nonce;
  mc_app_pw_id = r.mc_app_pw_id;
  created = unix r.created;
  last_used = unix r.last_used;
  expires = unix r.expires;
  revoked = unix r.revoked;
}

unfoldable pub scan_key : KeyRow → Record
scan_key r = record {
  id = r.id;
  token_sha256 = r.token_sha256;
  prefix = r.prefix;
  mailbox = r.mailbox;
  label = r.label;
  scopes = r.scopes;
  secret_enc = r.secret_enc;
  secret_nonce = r.secret_nonce;
  mc_app_pw_id = r.mc_app_pw_id;
  created = from_unix r.created;
  last_used = from_unix r.last_used;
  expires = from_unix r.expires;
  revoked = from_unix r.revoked;
}

-- Without the columns that `List` does not select.
unfoldable pub scan_public : KeyRow → Record
unfolding scan_key
scan_public r = record (scan_key r) { token_sha256 = ""; secret_enc = ""; secret_nonce = "" }

-- PRIMARY KEY (id) and UNIQUE (token_sha256)
unfoldable pub clashes : KeyRow → KeyRow → Bool
clashes r x = str_eq x.id r.id || str_eq x.token_sha256 r.token_sha256

unfoldable pub insert_unique : KeyRow → Table → Result (Unit {0}) × Table
insert_unique r t = elim (first (clashes r) t) [
  | none ↦ (ok tt, t ++ r ∷ [])
  | some x ↦ (err "UNIQUE constraint failed", t)
]

unfoldable pub create : Record → Sql Table (Unit {0})
unfolding insert_unique to_row
create r = do done ← statement (insert_unique (to_row r)); (λ c. (done, c))

unfoldable pub get_by_id : String → Sql Table (Option Record)
get_by_id id = do
  row ← statement (λ t. (first (has_id id) t, t))
  pure (elim row [ none ↦ none | some r ↦ some (scan_key r) ])

unfoldable pub is_of_mailbox : String → KeyRow → Bool
is_of_mailbox mailbox r = if str_eq mailbox "" then true else str_eq r.mailbox mailbox

unfoldable pub list_keys : (Table → Table) → String → Sql Table (List Record)
unfolding scan_public is_of_mailbox
list_keys order_by_created mailbox =
    statement (λ t. (map scan_public (order_by_created (select (is_of_mailbox mailbox) t)), t))

-- WHERE id = ? AND revoked = 0
unfoldable pub is_open : String → KeyRow → Bool
is_open id r = has_id id r && (r.revoked == 0)

unfoldable pub revoke_row : ℕ → KeyRow → KeyRow
revoke_row t r = record r { revoked = unix (at t) }

-- n, _ := res.RowsAffected(): zero if the driver reports an error.
unfoldable pub affected : ℕ → Sql Table ℕ
affected n c =
    let (r, c') = statement (λ t. (n, t)) c in (elim r [ ok k ↦ ok k | err e ↦ ok 0 ], c')

-- SELECT 1 … WHERE id = ?, unless a row has been updated.
unfoldable pub known_if_none : String → ℕ → Sql Table Bool
known_if_none id n =
    if ltb 0 n then pure true else statement (λ t. (ltb 0 (count (has_id id) t), t))

unfoldable pub revoke : String → ℕ → Sql Table Bool
unfolding affected known_if_none
revoke id t = do
  changed ← statement (λ rows. (count (is_open id) rows, update (is_open id) (revoke_row t) rows))
  n ← affected changed
  known_if_none id n

unfoldable pub touch_last_used : String → ℕ → Sql Table (Unit {0})
touch_last_used id t =
    statement (λ rows. (tt, update (has_id id) (λ r. record r { last_used = unix (at t) }) rows))
