-- ===== src/AdminStore/Defs.antt =====
-- backend/internal/admin/store.go and HashRecoveryCode of recovery.go. ORDER BY and the ids that a table
-- assigns are parameters, as are SHA-256, strings.ToUpper and strings.TrimSpace. Opening the database
-- and creating or altering the tables are not modelled.
use mailfold.Prelude.{
  ℕ, String, Bool, true, false, not, Option, none, some, List, [], ◌∷◌, ◌++◌, str_eq, ◌==◌,
}
use mailfold.Storage.{Time, at, unix, from_unix}
use mailfold.Sql.{Result, ok, err, Sql, pure, statement, ◌>>=◌, ◌>>◌}
use mailfold.Sql.Table.{first, update}

-- The rows of the tables; instants are unix seconds, flags are 0 or 1.
pub record AccountRow : Type 0 where
  pub username : String
  pub password_hash : String
  pub display_name : String
  pub email : String
  pub timezone : String
  pub avatar_url : String
  pub totp_enabled : ℕ
  pub totp_secret_enc : String
  pub totp_secret_nonce : String
  pub notify_mailbox : String
  pub notify_password_enc : String
  pub notify_password_nonce : String
  pub updated_at : ℕ

pub record CodeRow : Type 0 where
  pub username : String
  pub code_hash : String
  pub used_at : ℕ

pub record TokenRow : Type 0 where
  pub token_hash : String
  pub username : String
  pub expires_at : ℕ
  pub used_at : ℕ

pub record DeviceRow : Type 0 where
  pub username : String
  pub fingerprint : String
  pub first_seen : ℕ
  pub last_seen : ℕ

pub record CredentialRow : Type 0 where
  pub id : ℕ
  pub username : String
  pub credential_id : String
  pub public_key : String
  pub sign_count : ℕ
  pub transports : String
  pub backup_eligible : ℕ
  pub backup_state : ℕ
  pub name : String
  pub created_at : ℕ

pub record Tables : Type 0 where
  pub accounts : List AccountRow
  pub codes : List CodeRow
  pub tokens : List TokenRow
  pub devices : List DeviceRow
  pub credentials : List CredentialRow

pub record Account : Type 0 where
  pub username : String
  pub password_hash : String
  pub display_name : String
  pub email : String
  pub timezone : String
  pub avatar_url : String
  pub totp_enabled : Bool
  pub totp_secret_enc : String
  pub totp_secret_nonce : String
  pub notify_mailbox : String
  pub notify_password_enc : String
  pub notify_password_nonce : String
  pub updated_at : Time

pub record ProfileUpdate : Type 0 where
  pub display_name : String
  pub email : String
  pub timezone : String
  pub avatar_url : String

unfoldable pub bool_int : Bool → ℕ
bool_int true = 1
bool_int false = 0

-- n != 0
unfoldable pub is_set : ℕ → Bool
is_set n = not (n == 0)

-- The row as the columns' defaults make it.
unfoldable pub blank : String → AccountRow
blank username = record {
  username = username;
  password_hash = "";
  display_name = "";
  email = "";
  timezone = "";
  avatar_url = "";
  totp_enabled = 0;
  totp_secret_enc = "";
  totp_secret_nonce = "";
  notify_mailbox = "";
  notify_password_enc = "";
  notify_password_nonce = "";
  updated_at = 0;
}

unfoldable pub has_user : String → AccountRow → Bool
has_user username r = str_eq r.username username

unfoldable pub scan_account : AccountRow → Account
unfolding is_set
scan_account r = record {
  username = r.username;
  password_hash = r.password_hash;
  display_name = r.display_name;
  email = r.email;
  timezone = r.timezone;
  avatar_url = r.avatar_url;
  totp_enabled = is_set r.totp_enabled;
  totp_secret_enc = r.totp_secret_enc;
  totp_secret_nonce = r.totp_secret_nonce;
  notify_mailbox = r.notify_mailbox;
  notify_password_enc = r.notify_password_enc;
  notify_password_nonce = r.notify_password_nonce;
  updated_at = from_unix r.updated_at;
}

unfoldable pub zero_account : String → Account
zero_account username = record {
  username = username;
  password_hash = "";
  display_name = "";
  email = "";
  timezone = "";
  avatar_url = "";
  totp_enabled = false;
  totp_secret_enc = "";
  totp_secret_nonce = "";
  notify_mailbox = "";
  notify_password_enc = "";
  notify_password_nonce = "";
  updated_at = Time.zero_time;
}

unfoldable pub account_or_zero : String → Option AccountRow → Account
unfolding scan_account zero_account
account_or_zero username none = zero_account username
account_or_zero username (some r) = scan_account r

unfoldable pub get_account : String → Sql Tables Account
unfolding account_or_zero
get_account username =
    statement (λ t. (account_or_zero username (first (has_user username) t.accounts), t))

-- INSERT … ON CONFLICT(username) DO NOTHING
unfoldable pub with_row : String → Option AccountRow → Tables → Tables
unfolding blank
with_row username none t = record t { accounts = t.accounts ++ blank username ∷ [] }
with_row username (some r) t = t

unfoldable pub insert_if : String → Option AccountRow → Tables → Result (Unit {0}) × Tables
unfolding blank
insert_if username none t = (ok tt, record t { accounts = t.accounts ++ blank username ∷ [] })
insert_if username (some r) t = (err "UNIQUE constraint failed", t)

unfoldable pub insert_row : String → Tables → Result (Unit {0}) × Tables
unfolding insert_if
insert_row username t = insert_if username (first (has_user username) t.accounts) t

-- The fallback of `ensureRow`, by what the existence check reports.
unfoldable pub checked : String → String → Result (Option AccountRow) → Sql Tables (Unit {0})
unfolding insert_row
checked username e (ok (some r)) = pure tt
checked username e (ok none) = do done ← statement (insert_row username); (λ c. (done, c))
checked username e (err e') = λ c. (err e, c)

unfoldable pub ensured : String → Result (Unit {0}) → Sql Tables (Unit {0})
unfolding checked
ensured username (ok u) c = (ok tt, c)
ensured username (err e) c =
    let (r, c') = statement (λ t. (first (has_user username) t.accounts, t)) c in
    checked username e r c'

unfoldable pub ensure_row : String → Sql Tables (Unit {0})
unfolding with_row ensured
ensure_row username c =
    let (r, c') =
      statement (λ t. (tt, with_row username (first (has_user username) t.accounts) t)) c in
    ensured username r c'

unfoldable pub set_row : String → (AccountRow → AccountRow) → Sql Tables (Unit {0})
unfolding ensure_row
set_row username f =
    ensure_row username
    >> statement (λ t. (tt, record t { accounts = update (has_user username) f t.accounts }))

-- What each of the four setters writes.
unfoldable pub password_set : String → ℕ → AccountRow → AccountRow
password_set hash now r = record r { password_hash = hash; updated_at = unix (at now) }

unfoldable pub profile_set : ProfileUpdate → ℕ → AccountRow → AccountRow
profile_set p now r = record r {
  display_name = p.display_name;
  email = p.email;
  timezone = p.timezone;
  avatar_url = p.avatar_url;
  updated_at = unix (at now);
}

unfoldable pub totp_set : Bool → String → String → ℕ → AccountRow → AccountRow
unfolding bool_int
totp_set enabled enc nonce now r = record r {
  totp_enabled = bool_int enabled;
  totp_secret_enc = enc;
  totp_secret_nonce = nonce;
  updated_at = unix (at now);
}

unfoldable pub notify_set : String → String → String → ℕ → AccountRow → AccountRow
notify_set mailbox enc nonce now r = record r {
  notify_mailbox = mailbox;
  notify_password_enc = enc;
  notify_password_nonce = nonce;
  updated_at = unix (at now);
}

unfoldable pub set_password_hash : String → String → ℕ → Sql Tables (Unit {0})
unfolding set_row password_set
set_password_hash username hash now = set_row username (password_set hash now)

unfoldable pub set_profile : String → ProfileUpdate → ℕ → Sql Tables (Unit {0})
unfolding set_row profile_set
set_profile username p now = set_row username (profile_set p now)

unfoldable pub set_totp : String → Bool → String → String → ℕ → Sql Tables (Unit {0})
unfolding set_row totp_set
set_totp username enabled enc nonce now = set_row username (totp_set enabled enc nonce now)

unfoldable pub set_notify_sender : String → String → String → String → ℕ → Sql Tables (Unit {0})
unfolding set_row notify_set
set_notify_sender username mailbox enc nonce now =
    set_row username (notify_set mailbox enc nonce now)
