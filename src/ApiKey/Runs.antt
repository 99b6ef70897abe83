-- ===== src/ApiKey/Runs.antt =====
-- Concrete runs of the gate of backend/internal/api/apikeys.go.
use mailfold.Prelude.{inl, ℕ, ◌*◌, String, ◌≡◌, ◌≢◌, refl, true, none, some, List, [], ◌∷◌, arith}
use mailfold.Storage.{second, from_unix}
use mailfold.Sql.{ok, Conn, statement, ◌>>=◌, continue, attempt}
use mailfold.Sql.Table.{first, update, count}
use mailfold.Http.{refuse, answer, call, proceed}
use mailfold.RateLimit.{Limiter, allow}
use mailfold.ApiKey.Store.{
  create, KeyRow, has_id, is_active, is_zero, is_reached, scan_key, get_by_id, revoke, is_open,
  affected, known_if_none, Table,
}
use mailfold.ApiKey.Scopes.{
  default_scopes, scope_read, scope_send, join_scopes, split_scopes, has_scope, contains,
  valid_scope, split_commas, not_blank, to_first, split_scopes-join_scopes, has_scope-join_scopes,
}
use mailfold.ApiKey.Token.{parse_kid, parse_rest, after_prefix, split_first, kid_of}
use mailfold.ApiKey.Gate.{Env, Server, require_api_key}
use mailfold.ApiKey.Revoke.{handle_revoke, revoke_found, revoked}
use mailfold.ApiKey.Admission.{Admitted, Valid, require_sound}
use mailfold.ApiKey.Mint
use mailfold.ApiKey.Mint.{
  Entry, Mailcow, CreateKeyRequest, named, named_entries, the_one, or_default, all_scopes_valid,
  app_name, list_by_name, recover_id, take_back, persisted, sealed_with, identified, added,
  mint_key, handle_create,
}
use mailfold.ApiKey.Compensation.{without, Reachable, refused_clean}
use mailfold.ApiKey.Refusal.{require_complete, revoked_refused}

abbrev env : Env
env = record { hash_token = λ t. t; trim = λ s. s; open_secret = λ enc nonce. some enc }

abbrev key : KeyRow
key = record {
  id = "k1";
  token_sha256 = "mf_live_k1_s";
  prefix = "mf_live_k1";
  mailbox = "ann@example.org";
  label = "bot";
  scopes = "mail:read,mail:send";
  secret_enc = "pw";
  secret_nonce = "n";
  mc_app_pw_id = "7";
  created = 100;
  last_used = 0;
  expires = 0;
  revoked = 0;
}

abbrev keys : Conn Table
keys = record { tables = key ∷ []; outcome = λ n. none; used = 0 }

-- A limit below one lets everything pass.
abbrev open_limit : Limiter
open_limit = record { max = 0; window = second; entries = [] }

abbrev server : Server
server = record { ip_limit = open_limit; key_limit = open_limit; conn = keys }

abbrev noon : ℕ
noon = 200 * second

abbrev scopes : List String
scopes = scope_read ∷ scope_send ∷ []

split_scopes-join_scopes_example : split_scopes (λ s. s) (join_scopes scopes) ≡ scopes
unfolding valid_scope
split_scopes-join_scopes_example =
    split_scopes-join_scopes (λ s. s) scopes (refl, (refl, tt)) (refl, (refl, tt))

has_scope-join_scopes_example :
    has_scope (λ s. s) (join_scopes scopes) "mail:write" ≡ contains "mail:write" scopes
unfolding valid_scope
has_scope-join_scopes_example =
    has_scope-join_scopes (λ s. s) scopes "mail:write" (refl, (refl, tt)) (refl, (refl, tt))

parsed : parse_kid "mf_live_k1_s" ≡ some "k1"
unfolding parse_kid parse_rest after_prefix split_first kid_of
parsed = refl

stored : first (has_id "k1") (key ∷ []) ≡ some key
unfolding first has_id
stored = refl

still_active : is_active noon (scan_key key) ≡ true
unfolding is_active is_zero is_reached scan_key from_unix
still_active = refl

granted_read : has_scope (λ s. s) "mail:read,mail:send" scope_read ≡ true
unfolding has_scope split_scopes split_commas not_blank to_first contains
granted_read = refl

passes : (allow open_limit "10.0.0.1" noon).0.0 ≡ true
unfolding allow
passes = refl

key_passes : (allow open_limit "k1" noon).0.0 ≡ true
unfolding allow
key_passes = refl

valid : Valid env "mf_live_k1_s" noon (key ∷ []) (scan_key key) "pw"
unfolding scan_key
valid = record {
  kid = "k1";
  row = key;
  parsed = parsed;
  stored = stored;
  scanned = refl;
  matches = refl;
  active = still_active;
  opened = refl;
}

admitted : Admitted env scope_read "10.0.0.1" "mf_live_k1_s" noon server "ann@example.org" "pw"
unfolding scan_key
admitted = record {
  key = scan_key key;
  valid = valid;
  bound = refl;
  granted = granted_read;
  address_passes = passes;
  key_passes = key_passes;
}

require_complete_example :
    (require_api_key env true scope_read "10.0.0.1" "mf_live_k1_s" noon server).0
    ≡ answer ("ann@example.org", "pw")
require_complete_example =
    require_complete env scope_read "10.0.0.1" "mf_live_k1_s" noon server "ann@example.org" "pw"
      (λ n. refl) admitted

let_through :
    (require_api_key env true scope_read "10.0.0.1" "mf_live_k1_s" noon server).0
    ≡ answer ("ann@example.org", "pw")
let_through =
    require_complete env scope_read "10.0.0.1" "mf_live_k1_s" noon server "ann@example.org" "pw"
      (λ n. refl) admitted

require_sound_example :
    Admitted env scope_read "10.0.0.1" "mf_live_k1_s" noon server "ann@example.org" "pw"
require_sound_example =
    require_sound env true scope_read "10.0.0.1" "mf_live_k1_s" noon server "ann@example.org" "pw"
      let_through

-- A mailcow with one mailbox, which stands for all.
abbrev mailcow : Mailcow (List Entry)
mailcow = record {
  add = λ mailbox name pw m. (ok true, (record { id = "7"; name = name }) ∷ m);
  entries = λ mailbox m. (ok (some m), m);
  remove = λ ids m. (ok tt, without ids m);
}

revoked_now : (handle_revoke mailcow "k1" noon [] keys).0 ≡ answer tt
unfolding handle_revoke revoke_found revoked get_by_id revoke statement ◌>>=◌ continue attempt
    affected known_if_none update count first is_open has_id call proceed
revoked_now = refl

revoked_refused_example :
    (require_api_key env true scope_read "10.0.0.1" "mf_live_k1_s" noon
      (record server { conn = (handle_revoke mailcow "k1" noon [] keys).2 })).0
    ≢ answer ("ann@example.org", "pw")
revoked_refused_example =
    revoked_refused env mailcow "k1" noon [] keys true scope_read "10.0.0.1" "mf_live_k1_s" noon
      (record server { conn = (handle_revoke mailcow "k1" noon [] keys).2 })
      ("ann@example.org", "pw") (omega arith) parsed revoked_now refl

mailcow-Reachable : Reachable mailcow (λ m mailbox. m)
mailcow-Reachable = record {
  lists = λ mailbox m. inl refl;
  lists-same = λ mailbox m. refl;
  removes = λ ids m mailbox. refl;
}

abbrev minting : Mint.Env
minting = record {
  is_address = λ a. true;
  hash_token = λ t. t;
  display_prefix = λ t. t;
  seal = λ pw. some (pw, "n");
  default_ttl = 0;
}

abbrev request : CreateKeyRequest
request = record { mailbox = "ann@example.org"; label = "bot"; scopes = []; expires_in_seconds = 0 }

-- The key table fails.
abbrev failing : Conn Table
failing = record { tables = []; outcome = λ n. some "disk full"; used = 0 }

not_stored :
    (handle_create mailcow minting (ok request) (ok ("k2", "s")) (ok "pw") noon [] failing).0
    ≡ refuse 500 "could not persist api key"
unfolding handle_create or_default all_scopes_valid default_scopes valid_scope mint_key added
    recover_id list_by_name named_entries named the_one identified sealed_with persisted take_back
    create statement attempt ◌>>=◌ continue app_name
not_stored = refl

refused_clean_example :
    named
      (app_name "k2")
      (handle_create mailcow minting (ok request) (ok ("k2", "s")) (ok "pw") noon [] failing).1
    ≡ []
unfolding named
refused_clean_example =
    refused_clean mailcow (λ m mailbox. m) mailcow-Reachable minting request "k2" "s" "pw" noon []
      failing 500 "could not persist api key" refl refl not_stored
