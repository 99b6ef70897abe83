-- ===== src/AdminStore/Codes.antt =====
-- backend/internal/admin/store.go, the other tables: recovery codes, reset tokens, devices and security
-- keys; and HashRecoveryCode of recovery.go, over SHA-256, strings.ToUpper and strings.TrimSpace.
use mailfold.Prelude.{
  ℕ, String, Bool, not, ◌&&◌, ◌||◌, Option, none, some, List, [], ◌∷◌, ◌++◌, map, str_eq, ltb, ◌==◌,
  if◌then◌else◌,
}
use mailfold.Storage.{Time, at, unix, from_unix, is_after}
use mailfold.Sql.{Result, ok, err, Sql, pure, statement, ◌>>=◌, ◌>>◌}
use mailfold.Sql.Table.{select, first, update, delete, count, upsert}
use mailfold.AdminStore.Defs.{Tables, CodeRow, TokenRow, DeviceRow, CredentialRow, bool_int, is_set}

unfoldable pub hash_recovery_code :
    (String → String) → (String → String) → (String → String) → String → String
hash_recovery_code sha256_hex to_upper trim_space code = sha256_hex (to_upper (trim_space code))

unfoldable pub is_code : String → String → CodeRow → Bool
is_code username hash r = str_eq r.username username && str_eq r.code_hash hash

unfoldable pub is_unused_code : String → String → CodeRow → Bool
unfolding is_code
is_unused_code username hash r = is_code username hash r && (r.used_at == 0)

-- PRIMARY KEY (username, code_hash)
unfoldable pub insert_code : String → String → Tables → Result (Unit {0}) × Tables
insert_code username hash t = elim (first (is_code username hash) t.codes) [
  | none ↦ (
    ok tt,
    record t {
      codes = t.codes ++ (record { username = username; code_hash = hash; used_at = 0 }) ∷ [];
    },
  )
  | some r ↦ (err "UNIQUE constraint failed", t)
]

unfoldable pub insert_codes : String → List String → Sql Tables (Unit {0})
unfolding insert_code
insert_codes username [] = pure tt
insert_codes username (h ∷ hs) =
    (do done ← statement (insert_code username h); (λ c. (done, c))) >> insert_codes username hs

unfoldable pub replace_recovery_codes : String → List String → Sql Tables (Unit {0})
unfolding insert_codes
replace_recovery_codes username hashes =
    statement (λ t. (tt, record t { codes = delete (λ r. str_eq r.username username) t.codes }))
    >> insert_codes username hashes

-- n, _ := res.RowsAffected(): zero if the driver reports an error.
unfoldable pub zero_if_err : Result ℕ → ℕ
zero_if_err (ok n) = n
zero_if_err (err e) = 0

unfoldable pub rows_or_zero : ℕ → Sql Tables ℕ
unfolding zero_if_err
rows_or_zero n c = let (r, c') = statement (λ t. (n, t)) c in (ok (zero_if_err r), c')

unfoldable pub consume_recovery_code : String → String → ℕ → Sql Tables Bool
unfolding rows_or_zero is_unused_code
consume_recovery_code username hash now = do
  changed ← statement (λ t. (
    count (is_unused_code username hash) t.codes,
    record t {
      codes =
          update (is_unused_code username hash) (λ r. record r { used_at = unix (at now) }) t.codes;
    },
  ))
  n ← rows_or_zero changed
  pure (ltb 0 n)

unfoldable pub remaining_recovery_codes : String → Sql Tables ℕ
remaining_recovery_codes username =
    statement (λ t. (count (λ r. str_eq r.username username && (r.used_at == 0)) t.codes, t))

unfoldable pub is_token : String → TokenRow → Bool
is_token hash r = str_eq r.token_hash hash

unfoldable pub insert_token : TokenRow → Tables → Result (Unit {0}) × Tables
insert_token r t = elim (first (is_token r.token_hash) t.tokens) [
  | none ↦ (ok tt, record t { tokens = t.tokens ++ r ∷ [] })
  | some x ↦ (err "UNIQUE constraint failed", t)
]

unfoldable pub create_reset_token : String → String → ℕ → Sql Tables (Unit {0})
unfolding insert_token
create_reset_token hash username expires_at = do
  done ← statement (
      insert_token (record {
        token_hash = hash;
        username = username;
        expires_at = unix (at expires_at);
        used_at = 0;
      }))
  (λ c. (done, c))

unfoldable pub redeem : String → ℕ → Option TokenRow → Sql Tables (Option String)
redeem hash now none = pure none
redeem hash now (some r) =
    if not (r.used_at == 0) || is_after now (from_unix r.expires_at)
    then pure none
    else (statement (λ t. (
      tt,
      record t {
        tokens = update (is_token hash) (λ r. record r { used_at = unix (at now) }) t.tokens;
      },
    ))
        >> pure (some r.username))

unfoldable pub consume_reset_token : String → ℕ → Sql Tables (Option String)
unfolding redeem
consume_reset_token hash now =
    statement (λ t. (first (is_token hash) t.tokens, t)) >>= redeem hash now

unfoldable pub is_device : String → String → DeviceRow → Bool
is_device username fingerprint r = str_eq r.username username && str_eq r.fingerprint fingerprint

unfoldable pub is_known_device : String → String → Sql Tables Bool
is_known_device username fingerprint =
    statement (λ t. (ltb 0 (count (is_device username fingerprint) t.devices), t))

unfoldable pub record_device : String → String → ℕ → Sql Tables (Unit {0})
record_device username fingerprint now = statement (λ t. (
  tt,
  record t {
    devices =
        upsert (is_device username fingerprint) (λ r. record r { last_seen = unix (at now) })
          (record {
            username = username;
            fingerprint = fingerprint;
            first_seen = unix (at now);
            last_seen = unix (at now);
          })
          t.devices;
  },
))

pub record WebAuthnCredential : Type 0 where
  pub id : ℕ
  pub username : String
  pub credential_id : String
  pub public_key : String
  pub sign_count : ℕ
  pub transports : String
  pub backup_eligible : Bool
  pub backup_state : Bool
  pub name : String
  pub created_at : Time

unfoldable pub scan_credential : String → CredentialRow → WebAuthnCredential
scan_credential username r = record {
  id = r.id;
  username = username;
  credential_id = r.credential_id;
  public_key = r.public_key;
  sign_count = r.sign_count;
  transports = r.transports;
  backup_eligible = is_set r.backup_eligible;
  backup_state = is_set r.backup_state;
  name = r.name;
  created_at = from_unix r.created_at;
}

unfoldable pub list_credentials :
    (List CredentialRow → List CredentialRow) → String → Sql Tables (List WebAuthnCredential)
unfolding scan_credential
list_credentials oldest_first username = statement (λ t. (
  map (scan_credential username)
      (oldest_first (select (λ r. str_eq r.username username) t.credentials)),
  t,
))

unfoldable pub has_credential : String → CredentialRow → Bool
has_credential credential_id r = str_eq r.credential_id credential_id

-- UNIQUE (credential_id)
unfoldable pub insert_credential : CredentialRow → Tables → Result (Unit {0}) × Tables
insert_credential r t = elim (first (has_credential r.credential_id) t.credentials) [
  | none ↦ (ok tt, record t { credentials = t.credentials ++ r ∷ [] })
  | some x ↦ (err "UNIQUE constraint failed", t)
]

unfoldable pub credential_row : WebAuthnCredential → ℕ → ℕ → CredentialRow
credential_row c now id = record {
  id = id;
  username = c.username;
  credential_id = c.credential_id;
  public_key = c.public_key;
  sign_count = c.sign_count;
  transports = c.transports;
  backup_eligible = bool_int c.backup_eligible;
  backup_state = bool_int c.backup_state;
  name = c.name;
  created_at = unix (at now);
}

unfoldable pub add_credential : (List ℕ → ℕ) → WebAuthnCredential → ℕ → Sql Tables (Unit {0})
unfolding insert_credential credential_row
add_credential next_id c now = do
  done ←
      statement
        (λ t. insert_credential (credential_row c now (next_id (map (λ r. r.id) t.credentials))) t)
  (λ c. (done, c))

unfoldable pub delete_credential : String → ℕ → Sql Tables (Unit {0})
delete_credential username id = statement (λ t. (
  tt,
  record t { credentials = delete (λ r. str_eq r.username username && (r.id == id)) t.credentials },
))

unfoldable pub update_sign_count : String → ℕ → Sql Tables (Unit {0})
update_sign_count credential_id n = statement (λ t. (
  tt,
  record t {
    credentials =
        update (has_credential credential_id) (λ r. record r { sign_count = n }) t.credentials;
  },
))

unfoldable pub update_backup_state : String → Bool → Sql Tables (Unit {0})
update_backup_state credential_id state = statement (λ t. (
  tt,
  record t {
    credentials =
        update (has_credential credential_id) (λ r. record r { backup_state = bool_int state })
          t.credentials;
  },
))
