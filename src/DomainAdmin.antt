-- ===== src/DomainAdmin.antt =====
-- backend/internal/domainadmin/session.go: the domain administrators' sessions, in memory or in the
-- shared token table. A method takes the clock reading and the drawn token as arguments and returns
-- the new state beside its answer. A method is one step: in memory the mutex makes it so; over the
-- table its statements are taken to run without another call's in between.
pub mod Access
pub mod Store
pub mod Offers
mod Tests
use mailfold.Prelude.{
  ℕ, ◌+◌, String, Bool, true, false, not, Option, none, some, List, [], str_eq, if◌then◌else◌,
}
use mailfold.Prelude.Assoc.{Assoc, lookup, erase, put, retain}
use mailfold.Storage.{Time, at, is_after}
use mailfold.Sql.{Result, ok, err, Conn}
use mailfold.SessionStore
use mailfold.SessionStore.{Row, PutParams, Table}

abbrev pub session_kind : String
session_kind = "domainadmin_session"

pub record Identity : Type 0 where
  pub username : String
  pub domains : List String
  pub expires_at : Time

pub record Sessions : Type 0 where
  pub ttl : ℕ
  pub m : Assoc Identity
  pub attached : Bool
  pub conn : Conn Table

-- SHA-256, and encoding/json on `identityMeta`; a text that does not decode leaves no domains.
pub record Env : Type 0 where
  pub digest : String → List ℕ
  pub encode_domains : List String → String
  pub decode_domains : String → List String

pub new_sessions : ℕ → Conn Table → Sessions
new_sessions ttl conn = record { ttl = ttl; m = []; attached = false; conn = conn }

pub set_store : Conn Table → Sessions → Sessions
set_store conn s = record s { attached = true; conn = conn }

abbrev answer_created : String × ℕ → Result (Unit {0}) → Result (String × ℕ)
answer_created created (ok u) = ok created
answer_created created (err e) = err e

unfoldable pub get_in_memory : String → ℕ → Option Identity → Sessions → Option Identity × Sessions
get_in_memory token now none s = (none, s)
get_in_memory token now (some id) s =
    if is_after now id.expires_at then (none, record s { m = erase token s.m }) else (some id, s)

module _ (env : Env) where
  open env use {digest, encode_domains, decode_domains}

  unfoldable pub created_params : String → List String → String → ℕ → Sessions → PutParams
  created_params username domains token now s = record {
    token = token;
    kind = session_kind;
    subject = username;
    secret = "";
    secret_nonce = "";
    meta = encode_domains domains;
    now = now;
    expires_at = now + s.ttl;
  }

  unfoldable pub create_attached :
      String → List String → String → ℕ → Sessions → Result (String × ℕ) × Sessions
  unfolding created_params
  create_attached username domains token now s =
      let (r, c) = SessionStore.put digest (created_params username domains token now s) s.conn in
      (answer_created (token, now + s.ttl) r, record s { conn = c })

  unfoldable pub create :
      String → List String → Result String → ℕ → Sessions → Result (String × ℕ) × Sessions
  unfolding create_attached
  create username domains (err e) now s = (err e, s)
  create username domains (ok token) now s =
      if s.attached then create_attached username domains token now s else (
        ok (token, now + s.ttl),
        record s {
          m =
              put token
                (record { username = username; domains = domains; expires_at = at (now + s.ttl) })
                s.m;
        },
      )

  unfoldable pub row_identity : Row → Identity
  row_identity row = record {
    username = row.subject;
    domains = decode_domains row.meta;
    expires_at = row.expires_at;
  }

  unfoldable pub found_identity : Result (Option Row) → Option Identity
  unfolding row_identity
  found_identity (err e) = none
  found_identity (ok none) = none
  found_identity (ok (some row)) = some (row_identity row)

  unfoldable pub get_attached : String → ℕ → Sessions → Option Identity × Sessions
  unfolding found_identity
  get_attached token now s =
      let (r, c) = SessionStore.get digest token session_kind now s.conn in
      (found_identity r, record s { conn = c })

  unfoldable pub get : String → ℕ → Sessions → Option Identity × Sessions
  unfolding get_attached get_in_memory
  get token now s =
      if str_eq token ""
      then (none, s)
      else if s.attached
      then get_attached token now s
      else get_in_memory token now (lookup token s.m) s

  unfoldable pub delete : String → Sessions → Sessions
  delete token s =
      if s.attached
      then record s { conn = (SessionStore.delete_token digest token session_kind s.conn).1 }
      else record s { m = erase token s.m }

pub gc : ℕ → Sessions → Sessions
gc now s =
    if s.attached
    then record s { conn = (SessionStore.gc now s.conn).1 }
    else record s { m = retain (λ _ id. not (is_after now id.expires_at)) s.m }
