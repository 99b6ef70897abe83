-- ===== src/ApiKey/Gate.antt =====
-- backend/internal/api/apikeys.go: how a request is let through by its API key, and how keys are
-- listed. SHA-256, strings.TrimSpace and the cipher are parameters; one clock reading stands for those of
-- a request.
use mailfold.Prelude.{
  ℕ, ◌+◌, ◌/◌, String, Bool, true, false, not, ◌||◌, Option, none, some, List, map, if◌then◌else◌,
}
use mailfold.Storage.{Time, second}
use mailfold.Sql.{Result, ok, err, Conn, Sql}
use mailfold.Http.{Response, answer, refuse, Handler, reply, deny, call}
use mailfold.RateLimit.{Limiter, allow}
use mailfold.ApiKey.Store.{Record, Table, is_active, is_zero, get_by_id, list_keys, touch_last_used}
use mailfold.ApiKey.Scopes.{has_scope, split_scopes}
use mailfold.ApiKey.Token.{parse_kid, token_matches}

pub record Env : Type 0 where
  pub hash_token : String → String
  pub trim : String → String
  pub open_secret : String → String → Option String

-- The limiter by address, the limiter by key, and the table.
pub record Server : Type 0 where
  pub ip_limit : Limiter
  pub key_limit : Limiter
  pub conn : Conn Table

-- The response and, on 429, the Retry-After header in seconds.
abbrev pub Answered : Type 0 → Type 0
Answered A = Response A × Option ℕ × Server

abbrev pub unauthorized : String
unauthorized = "unauthorized"

-- int(retry.Seconds()) + 1
unfoldable pub retry_after : ℕ → ℕ
retry_after wait = wait / second + 1

-- What `f` makes of an allowed request, and the refusal of another.
unfoldable pub rate_limited : {A : Type 0} → Bool × ℕ → Server → (Server → Answered A) → Answered A
unfolding retry_after
rate_limited (true, wait) s f = f s
rate_limited (false, wait) s f = (refuse 429 "rate limit exceeded", some (retry_after wait), s)

-- A store's error is reported under another name.
unfoldable pub relabel : {A : Type 0} → String → Result A → Result A
relabel message (ok a) = ok a
relabel message (err e) = err message

unfoldable pub masked : {A : Type 0} → String → Sql Table A → Sql Table A
unfolding relabel
masked message m c = let (r, c') = m c in (relabel message r, c')

-- An entry of the list of keys; a zero instant is left out.
pub record Item : Type 0 where
  pub id : String
  pub mailbox : String
  pub label : String
  pub scopes : List String
  pub prefix : String
  pub created : Time
  pub active : Bool
  pub last_used : Option Time
  pub expires_at : Option Time
  pub revoked_at : Option Time

unfoldable pub unless_zero : Time → Option Time
unless_zero t = if is_zero t then none else some t

module _ (env : Env) where
  open env use {hash_token, trim, open_secret}

  unfoldable pub resolve_found : String → ℕ → Option Record → Handler Table (Record × String)
  unfolding token_matches
  resolve_found token now none = deny 401 unauthorized
  resolve_found token now (some r) =
      if not (token_matches hash_token token r.token_sha256) || not (is_active now r)
      then deny 401 unauthorized
      else elim (open_secret r.secret_enc r.secret_nonce) [
        | none ↦ deny 500 "credential decryption failed"
        | some pw ↦ reply (r, pw)
      ]

  unfoldable pub resolve_kid : String → ℕ → Option String → Handler Table (Record × String)
  unfolding resolve_found masked
  resolve_kid token now none = deny 401 unauthorized
  resolve_kid token now (some kid) =
      call (masked "api key lookup failed" (get_by_id kid)) (resolve_found token now)

  -- `resolveAPIKey` with the statuses of `authenticateAPIKey`
  unfoldable pub authenticate_key : String → ℕ → Handler Table (Record × String)
  unfolding resolve_kid
  authenticate_key token now = resolve_kid token now (parse_kid token)

  -- TouchLastUsed's error is dropped.
  unfoldable pub grant_scope : String → ℕ → Record × String → Server → Answered (String × String)
  grant_scope scope now (r, pw) s =
      if not (has_scope trim r.scopes scope)
      then (refuse 403 "forbidden", none, s)
      else (answer (r.mailbox, pw), none, record s { conn = (touch_last_used r.id now s.conn).1 })

  unfoldable pub admit_key :
      String → ℕ → Response (Record × String) → Server → Answered (String × String)
  unfolding rate_limited grant_scope
  admit_key scope now (refuse code message) s = (refuse code message, none, s)
  admit_key scope now (answer (r, pw)) s =
      let (verdict, l) = allow s.key_limit r.id now in
      rate_limited verdict (record s { key_limit = l }) (grant_scope scope now (r, pw))

  unfoldable pub admit_address : String → String → ℕ → Server → Answered (String × String)
  unfolding authenticate_key admit_key
  admit_address scope token now s =
      let (r, c) = authenticate_key token now s.conn in
      admit_key scope now r (record s { conn = c })

  -- `requireAPIKey`, up to the mailbox and the password that it hands on.
  unfoldable pub require_api_key :
      Bool → String → String → String → ℕ → Server → Answered (String × String)
  unfolding rate_limited admit_address
  require_api_key configured scope ip token now s =
      if configured
      then (let (verdict, l) = allow s.ip_limit ip now in
          rate_limited verdict (record s { ip_limit = l }) (admit_address scope token now))
      else (refuse 503 "api keys not configured", none, s)

  unfoldable pub to_item : ℕ → Record → Item
  unfolding unless_zero split_scopes
  to_item now r = record {
    id = r.id;
    mailbox = r.mailbox;
    label = r.label;
    scopes = split_scopes trim r.scopes;
    prefix = r.prefix;
    created = r.created;
    active = is_active now r;
    last_used = unless_zero r.last_used;
    expires_at = unless_zero r.expires;
    revoked_at = unless_zero r.revoked;
  }

  unfoldable pub handle_list : (Table → Table) → String → ℕ → Handler Table (List Item)
  unfolding to_item
  handle_list order_by mailbox now =
      call (list_keys order_by mailbox) (λ recs. reply (map (to_item now) recs))
