-- ===== src/WebmailSession.antt =====
-- backend/internal/webmail/session.go: the mailbox logins behind webmail's bearer tokens, in memory or
-- encrypted in the shared token table, and the pending tokens of a second factor. A method takes the
-- clock reading, the drawn token and the drawn nonce as arguments and returns the new state beside its
-- answer. A method is one step: in memory the mutex makes it so; over the table its statements are
-- taken to run without another call's in between. json.Marshal of a string does not fail, so that
-- branch of `mintSession` is left out.
pub mod Contract
pub mod Visits
pub mod Pending
pub mod Mint
mod Tests
use mailfold.Prelude.{
  ℕ, ◌+◌, String, Bool, true, false, not, ◌&&◌, Option, none, some, List, [], str_eq, ltb,
  if◌then◌else◌,
}
use mailfold.Prelude.Assoc.{Assoc, lookup, erase, put, retain}
use mailfold.Storage.{Time, at, is_after}
use mailfold.Sql.{Result, ok, err, Conn}
use mailfold.SessionStore
use mailfold.SessionStore.{Row, PutParams, Table}

pub record Credentials : Type 0 where
  pub email : String
  pub password : String
  pub expires_at : Time
  pub attempts : ℕ
  pub acting_as : String

pub record Sessions : Type 0 where
  pub ttl : ℕ
  pub kind : String
  pub m : Assoc Credentials
  pub has_store : Bool
  pub has_cipher : Bool
  pub conn : Conn Table

-- AES-GCM under the cipher's key, by plaintext and nonce; encoding/json on `sessionMeta`.
pub record Env : Type 0 where
  pub digest : String → List ℕ
  pub seal : String → String → String
  pub open_sealed : String → String → Option String
  pub encode_meta : String → String
  pub decode_meta : String → Option String

abbrev pub max_pending_attempts : ℕ
max_pending_attempts = 5

pub new_sessions : ℕ → String → Conn Table → Sessions
new_sessions ttl kind conn = record {
  ttl = ttl;
  kind = kind;
  m = [];
  has_store = false;
  has_cipher = false;
  conn = conn;
}

-- A missing store or cipher is the nil pointer.
pub set_store : Option (Conn Table) → Bool → Sessions → Sessions
set_store none cipher s = record s { has_store = false; has_cipher = cipher }
set_store (some conn) cipher s = record s { has_store = true; has_cipher = cipher; conn = conn }

-- store != nil && cipher != nil
unfoldable pub is_backed : Sessions → Bool
is_backed s = s.has_store && s.has_cipher

abbrev answer_minted : String × ℕ → Result (Unit {0}) → Result (String × ℕ)
answer_minted minted (ok u) = ok minted
answer_minted minted (err e) = err e

-- cred.Attempts = attempts
abbrev pub with_attempts : ℕ → Option Credentials → Option Credentials
with_attempts n none = none
with_attempts n (some cred) = some (record cred { attempts = n })

-- The path over the map of `Get`, `Peek` and `Take`, by what it holds.
module _ (token : String) (now : ℕ) where
  unfoldable pub get_in_memory : Option Credentials → Sessions → Option Credentials × Sessions
  get_in_memory none s = (none, s)
  get_in_memory (some cred) s =
      if is_after now cred.expires_at
      then (none, record s { m = erase token s.m })
      else (some cred, s)

  unfoldable pub peek_in_memory : Option Credentials → Sessions → Option Credentials × Sessions
  peek_in_memory none s = (none, s)
  peek_in_memory (some cred) s =
      let cred' : Credentials = record cred { attempts = cred.attempts + 1 } in
      if is_after now cred.expires_at
      then (none, record s { m = erase token s.m })
      else if ltb max_pending_attempts cred'.attempts
      then (none, record s { m = erase token s.m })
      else (some cred', record s { m = put token cred' s.m })

  unfoldable pub take_in_memory : Option Credentials → Sessions → Option Credentials × Sessions
  take_in_memory none s = (none, s)
  take_in_memory (some cred) s =
      ((if is_after now cred.expires_at then none else some cred), record s { m = erase token s.m })

module _ (env : Env) where
  open env use {digest, seal, open_sealed, encode_meta, decode_meta}

  unfoldable pub acting_as_of : String → String
  acting_as_of meta =
      if str_eq meta "" then "" else elim (decode_meta meta) [ none ↦ "" | some who ↦ who ]

  unfoldable pub decrypted : Row → Option String → Option Credentials
  unfolding acting_as_of
  decrypted row none = none
  decrypted row (some plain) = some (record {
    email = row.subject;
    password = plain;
    expires_at = row.expires_at;
    attempts = 0;
    acting_as = acting_as_of row.meta;
  })

  unfoldable pub decrypt_row : Row → Option Credentials
  unfolding decrypted
  decrypt_row row = decrypted row (open_sealed row.secret row.secret_nonce)

  unfoldable pub minted_params :
      String → String → String → String → String → ℕ → Sessions → PutParams
  minted_params email password acting_as token nonce now s = record {
    token = token;
    kind = s.kind;
    subject = email;
    secret = seal password nonce;
    secret_nonce = nonce;
    meta = encode_meta acting_as;
    now = now;
    expires_at = now + s.ttl;
  }

  -- The database path, by what the nonce's draw gives.
  unfoldable pub mint_backed :
      String
      → String
      → String
      → String
      → Result String
      → ℕ
      → Sessions
      → Result (String × ℕ) × Sessions
  unfolding minted_params
  mint_backed email password acting_as token (err e) now s = (err e, s)
  mint_backed email password acting_as token (ok nonce) now s =
      let (r, c) =
        SessionStore.put digest (minted_params email password acting_as token nonce now s) s.conn in
      (answer_minted (token, now + s.ttl) r, record s { conn = c })

  unfoldable pub mint_session :
      String
      → String
      → String
      → Result String
      → Result String
      → ℕ
      → Sessions
      → Result (String × ℕ) × Sessions
  unfolding mint_backed is_backed
  mint_session email password acting_as (err e) nonce now s = (err e, s)
  mint_session email password acting_as (ok token) nonce now s =
      if is_backed s then mint_backed email password acting_as token nonce now s else (
        ok (token, now + s.ttl),
        record s {
          m =
              put token
                (record {
                  email = email;
                  password = password;
                  expires_at = at (now + s.ttl);
                  attempts = 0;
                  acting_as = acting_as;
                })
                s.m;
        },
      )

  unfoldable pub decoded : Result (Option Row) → Option Credentials
  unfolding decrypt_row
  decoded (err e) = none
  decoded (ok none) = none
  decoded (ok (some row)) = decrypt_row row

  unfoldable pub get_backed : String → ℕ → Sessions → Option Credentials × Sessions
  unfolding decoded
  get_backed token now s =
      let (r, c) = SessionStore.get digest token s.kind now s.conn in
      (decoded r, record s { conn = c })

  unfoldable pub get : String → ℕ → Sessions → Option Credentials × Sessions
  unfolding get_backed get_in_memory is_backed
  get token now s =
      if str_eq token ""
      then (none, s)
      else if is_backed s
      then get_backed token now s
      else get_in_memory token now (lookup token s.m) s

  unfoldable pub delete : String → Sessions → Sessions
  unfolding is_backed
  delete token s =
      if is_backed s
      then record s { conn = (SessionStore.delete_token digest token s.kind s.conn).1 }
      else record s { m = erase token s.m }

  -- `peekStoreBacked`, by what `IncrementAttempts` reports.
  unfoldable pub peek_counted :
      String
      → String
      → ℕ
      → Result (Option (ℕ × String))
      → Conn Table
      → Option Credentials × Conn Table
  unfolding decoded
  peek_counted token kind now (err e) c = (none, c)
  peek_counted token kind now (ok none) c = (none, c)
  peek_counted token kind now (ok (some (attempts, subject))) c =
      if ltb max_pending_attempts attempts
      then (none, (SessionStore.delete_token digest token kind c).1)
      else (
        with_attempts attempts (decoded (SessionStore.get digest token kind now c).0),
        (SessionStore.get digest token kind now c).1,
      )

  unfoldable pub peek_backed : String → ℕ → Sessions → Option Credentials × Sessions
  unfolding peek_counted
  peek_backed token now s =
      let (r, c) = SessionStore.increment_attempts digest token s.kind now s.conn in
      let (o, c') = peek_counted token s.kind now r c in (o, record s { conn = c' })

  unfoldable pub peek : String → ℕ → Sessions → Option Credentials × Sessions
  unfolding peek_backed peek_in_memory is_backed
  peek token now s =
      if str_eq token ""
      then (none, s)
      else if is_backed s
      then peek_backed token now s
      else peek_in_memory token now (lookup token s.m) s

  -- The database path of `Take`, by what `Get` reports.
  unfoldable pub take_found :
      String → String → Result (Option Row) → Conn Table → Option Credentials × Conn Table
  unfolding decrypt_row
  take_found token kind (err e) c = (none, c)
  take_found token kind (ok none) c = (none, c)
  take_found token kind (ok (some row)) c =
      (decrypt_row row, (SessionStore.delete_token digest token kind c).1)

  unfoldable pub take_backed : String → ℕ → Sessions → Option Credentials × Sessions
  unfolding take_found
  take_backed token now s =
      let (r, c) = SessionStore.get digest token s.kind now s.conn in
      let (o, c') = take_found token s.kind r c in (o, record s { conn = c' })

  unfoldable pub take : String → ℕ → Sessions → Option Credentials × Sessions
  unfolding take_backed take_in_memory is_backed
  take token now s =
      if str_eq token ""
      then (none, s)
      else if is_backed s
      then take_backed token now s
      else take_in_memory token now (lookup token s.m) s

pub gc : ℕ → Sessions → Sessions
unfolding is_backed
gc now s =
    if is_backed s
    then record s { conn = (SessionStore.gc now s.conn).1 }
    else record s { m = retain (λ _ cred. not (is_after now cred.expires_at)) s.m }
