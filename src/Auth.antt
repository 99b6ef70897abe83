-- ===== src/Auth.antt =====
-- backend/internal/auth/auth.go: the administrator's sessions and pending second-factor tokens, in
-- memory or in the shared token table. A method takes the clock reading and the token that
-- `randomToken` draws as arguments and returns the new state beside its answer. A method is one
-- step: in memory the mutex makes it so; over the table its statements are taken to run without
-- another call's in between. `attached` says whether `SetStore` has given it the table behind `conn`. Where the
-- code ranges over a Go map the model takes the entries in the order of the list.
pub mod Listing
pub mod SecondFactor
pub mod Budget
pub mod Validity
pub mod Login
pub mod Revoke
pub mod Sweep
mod Tests
use mailfold.Prelude.{
  ℕ, suc, ◌+◌, ◌*◌, String, Bool, true, false, not, ◌&&◌, Option, none, some, List, [], ◌∷◌, map,
  str_eq, ltb, if◌then◌else◌,
}
use mailfold.Prelude.Assoc.{Assoc, lookup, erase, put, retain}
use mailfold.Prelude.Text.{Text, text_eq, hex, take}
use mailfold.Storage.{Time, at, second, is_after}
use mailfold.Sql.{Result, ok, err, Conn}
use mailfold.SessionStore
use mailfold.SessionStore.{Row, ListedRow, PutParams, Table}

-- SessionMeta and sessionMeta
pub record Meta : Type 0 where
  pub ip : String
  pub user_agent : String

pub record Session : Type 0 where
  pub token : String
  pub user : String
  pub created_at : Time
  pub expires_at : Time
  pub ip : String
  pub user_agent : String

pub record SessionInfo : Type 0 where
  pub id : Text
  pub user : String
  pub created_at : Time
  pub expires_at : Time
  pub ip : String
  pub user_agent : String
  pub current : Bool

pub record Pending : Type 0 where
  pub user : String
  pub expires_at : Time
  pub attempts : ℕ

pub record Authenticator : Type 0 where
  pub user : String
  pub password : String
  pub ttl : ℕ
  pub password_hash : String
  pub sessions : Assoc Session
  pub pendings : Assoc Pending
  pub attached : Bool
  pub conn : Conn Table

-- SHA-256, bcrypt's comparison, and encoding/json on `Meta`; a text that does not decode leaves the
-- zero value.
pub record Env : Type 0 where
  pub digest : String → List ℕ
  pub bcrypt_matches : String → String → Bool
  pub encode_meta : Meta → String
  pub decode_meta : String → Meta

abbrev pub kind_session : String
kind_session = "admin_session"

abbrev pub kind_pending : String
kind_pending = "admin_pending"

abbrev pub pending_ttl : ℕ
pending_ttl = 300 * second

abbrev pub max_pending_attempts : ℕ
max_pending_attempts = 5

abbrev pub session_id_len : ℕ
session_id_len = 16

abbrev pub invalid_credentials : String
invalid_credentials = "invalid credentials"

pub set_store : Conn Table → Authenticator → Authenticator
set_store conn a = record a { attached = true; conn = conn }

pub set_password_hash : String → Authenticator → Authenticator
set_password_hash h a = record a { password_hash = h }

abbrev pub with_conn :
    {A B : Type 0} → (Result A → B) → Authenticator → Result A × Conn Table → B × Authenticator
with_conn f a (r, c) = (f r, record a { conn = c })

module _ (env : Env) where
  open env use {digest, bcrypt_matches, encode_meta, decode_meta}

  unfoldable pub check_password : String → String → Authenticator → Bool
  check_password user password a =
      str_eq user a.user
      && (if str_eq a.password_hash ""
          then str_eq password a.password
          else bcrypt_matches a.password_hash password)

  -- The session that a login at `now` is given.
  unfoldable pub new_session : Meta → String → ℕ → Authenticator → Session
  new_session meta token now a = record {
    token = token;
    user = a.user;
    created_at = at now;
    expires_at = at (now + a.ttl);
    ip = meta.ip;
    user_agent = meta.user_agent;
  }

  unfoldable pub session_params : Meta → String → ℕ → Authenticator → PutParams
  session_params meta token now a = record {
    token = token;
    kind = kind_session;
    subject = a.user;
    secret = "";
    secret_nonce = "";
    meta = encode_meta meta;
    now = now;
    expires_at = now + a.ttl;
  }

  abbrev answer_session : Session → Result (Unit {0}) → Result Session
  answer_session s (ok u) = ok s
  answer_session s (err e) = err e

  unfoldable pub mint_session :
      Meta → Result String → ℕ → Authenticator → Result Session × Authenticator
  unfolding new_session session_params
  mint_session meta (err e) now a = (err e, a)
  mint_session meta (ok token) now a =
      let s = new_session meta token now a in
      if a.attached
      then with_conn (answer_session s) a
          (SessionStore.put digest (session_params meta token now a) a.conn)
      else (ok s, record a { sessions = put token s a.sessions })

  unfoldable pub login :
      String → String → Meta → Result String → ℕ → Authenticator → Result Session × Authenticator
  login user password meta draw now a =
      if check_password user password a
      then mint_session meta draw now a
      else (err invalid_credentials, a)

  unfoldable pub pending_params : String → ℕ → Authenticator → PutParams
  pending_params token now a = record {
    token = token;
    kind = kind_pending;
    subject = a.user;
    secret = "";
    secret_nonce = "";
    meta = "";
    now = now;
    expires_at = now + pending_ttl;
  }

  abbrev answer_token : String → Result (Unit {0}) → Result String
  answer_token t (ok u) = ok t
  answer_token t (err e) = err e

  unfoldable pub issue_pending : Result String → ℕ → Authenticator → Result String × Authenticator
  unfolding pending_params
  issue_pending (err e) now a = (err e, a)
  issue_pending (ok token) now a =
      if a.attached
      then with_conn (answer_token token) a
          (SessionStore.put digest (pending_params token now a) a.conn)
      else (
        ok token,
        record a {
          pendings =
              put token
                (record { user = a.user; expires_at = at (now + pending_ttl); attempts = 0 })
                a.pendings;
        },
      )

  -- The database path of `VerifyPending`, by what `IncrementAttempts` reports.
  unfoldable pub verify_stored :
      String → Result (Option (ℕ × String)) → Conn Table → Option String × Conn Table
  verify_stored token (err e) c = (none, c)
  verify_stored token (ok none) c = (none, c)
  verify_stored token (ok (some (attempts, subject))) c =
      if ltb max_pending_attempts attempts
      then (none, (SessionStore.delete_token digest token kind_pending c).1)
      else (some subject, c)

  -- The path over the map, by what it holds.
  unfoldable pub verify_in_memory :
      String → ℕ → Option Pending → Authenticator → Option String × Authenticator
  verify_in_memory token now none a = (none, a)
  verify_in_memory token now (some p) a =
      if is_after now p.expires_at
      then (none, record a { pendings = erase token a.pendings })
      else if ltb max_pending_attempts (p.attempts + 1)
      then (none, record a { pendings = erase token a.pendings })
      else (
        some p.user,
        record a { pendings = put token (record p { attempts = p.attempts + 1 }) a.pendings },
      )

  unfoldable pub verify_attached : String → ℕ → Authenticator → Option String × Authenticator
  unfolding verify_stored
  verify_attached token now a =
      let (r, c) = SessionStore.increment_attempts digest token kind_pending now a.conn in
      let (user, c') = verify_stored token r c in (user, record a { conn = c' })

  unfoldable pub verify_pending : String → ℕ → Authenticator → Option String × Authenticator
  unfolding verify_attached verify_in_memory
  verify_pending token now a =
      if str_eq token ""
      then (none, a)
      else if a.attached
      then verify_attached token now a
      else verify_in_memory token now (lookup token a.pendings) a

  unfoldable pub consume_pending : String → Authenticator → Authenticator
  consume_pending token a =
      if a.attached
      then record a { conn = (SessionStore.delete_token digest token kind_pending a.conn).1 }
      else record a { pendings = erase token a.pendings }

  -- The session that a stored row stands for.
  unfoldable pub row_session : String → Row → Session
  row_session token r = record {
    token = token;
    user = r.subject;
    created_at = r.created_at;
    expires_at = r.expires_at;
    ip = (decode_meta r.meta).ip;
    user_agent = (decode_meta r.meta).user_agent;
  }

  abbrev answer_row : String → Result (Option Row) → Option Session
  answer_row token (err e) = none
  answer_row token (ok none) = none
  answer_row token (ok (some r)) = some (row_session token r)

  unfoldable pub validate_in_memory :
      String → ℕ → Option Session → Authenticator → Option Session × Authenticator
  validate_in_memory token now none a = (none, a)
  validate_in_memory token now (some s) a =
      if is_after now s.expires_at
      then (none, record a { sessions = erase token a.sessions })
      else (some s, a)

  unfoldable pub validate : String → ℕ → Authenticator → Option Session × Authenticator
  unfolding row_session validate_in_memory
  validate token now a =
      if str_eq token ""
      then (none, a)
      else if a.attached
      then with_conn (answer_row token) a (SessionStore.get digest token kind_session now a.conn)
      else validate_in_memory token now (lookup token a.sessions) a

  unfoldable pub logout : String → Authenticator → Authenticator
  logout token a =
      if a.attached
      then record a { conn = (SessionStore.delete_token digest token kind_session a.conn).1 }
      else record a { sessions = erase token a.sessions }
