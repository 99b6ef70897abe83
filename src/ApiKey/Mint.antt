-- ===== src/ApiKey/Mint.antt =====
-- backend/internal/api/apikeys.go: `handleAPIKeyCreate`, which mints a key together with an app-password
-- at mailcow. mailcow is reached through the client's three calls, over a state of its own; the random
-- draws, the cipher, and the address check, a regular expression, are parameters.
use mailfold.Prelude.{
  ℕ, ◌+◌, ◌*◌, String, Bool, true, false, not, Option, none, some, List, [], ◌∷◌, map, str_eq, ltb,
  if◌then◌else◌,
}
use Prim.Native.String.{◌++◌ as ◌<>◌}
use mailfold.Storage.{Time, at, second}
use mailfold.Sql.{Result, ok, err, Conn}
use mailfold.Http.{Response, answer, refuse}
use mailfold.ApiKey.Store.{Record, Table, create}
use mailfold.ApiKey.Scopes.{default_scopes, valid_scope, join_scopes}
use mailfold.ApiKey.Token.{new_token}

-- An app-password as mailcow lists it.
pub record Entry : Type 0 where
  pub id : String
  pub name : String

-- AddAppPassword, with whether all of its results are successes; AppPasswords, `none` for a body that
-- is no list; DeleteAppPassword.
pub record Mailcow (M : Type 0) : Type 0 where
  pub add : String → String → String → M → Result Bool × M
  pub entries : String → M → Result (Option (List Entry)) × M
  pub remove : List String → M → Result (Unit {0}) × M

pub record Env : Type 0 where
  pub is_address : String → Bool
  pub hash_token : String → String
  pub display_prefix : String → String
  pub seal : String → Option (String × String)
  pub default_ttl : ℕ

pub record CreateKeyRequest : Type 0 where
  pub mailbox : String
  pub label : String
  pub scopes : List String
  pub expires_in_seconds : ℕ

pub record Created : Type 0 where
  pub id : String
  pub token : String
  pub mailbox : String
  pub label : String
  pub scopes : List String
  pub prefix : String
  pub expires_at : Time

unfoldable pub named : String → List Entry → List Entry
named name [] = []
named name (e ∷ es) = let rest = named name es in if str_eq e.name name then e ∷ rest else rest

unfoldable pub named_entries : String → Result (Option (List Entry)) → Result (List Entry)
unfolding named
named_entries name (err e) = err e
named_entries name (ok none) = ok []
named_entries name (ok (some es)) = ok (named name es)

unfoldable pub the_one : Result (List Entry) → Result String
the_one (err e) = err e
the_one (ok []) = err "app-password id not uniquely identifiable"
the_one (ok (e ∷ [])) = ok e.id
the_one (ok (e ∷ e' ∷ es)) = err "app-password id not uniquely identifiable"

unfoldable pub or_default : List String → List String
or_default [] = default_scopes
or_default (s ∷ l) = s ∷ l

unfoldable pub all_scopes_valid : List String → Bool
all_scopes_valid [] = true
all_scopes_valid (s ∷ l) = let rest = all_scopes_valid l in if valid_scope s then rest else false

unfoldable pub expiry : ℕ → ℕ → ℕ → Time
expiry default_ttl now wanted =
    if ltb 0 wanted
    then at (now + wanted * second)
    else if ltb 0 default_ttl
    then at (now + default_ttl)
    else Time.zero_time

unfoldable pub app_name : String → String
app_name kid = "mailfold-apikey:" <> kid

module _ {M : Type 0} (mc : Mailcow M) where
  open mc use {add, entries, remove}

  unfoldable pub list_by_name : String → String → M → Result (List Entry) × M
  unfolding named_entries
  list_by_name mailbox name m = let (r, m') = entries mailbox m in (named_entries name r, m')

  unfoldable pub recover_id : String → String → M → Result String × M
  unfolding list_by_name the_one
  recover_id mailbox name m = let (r, m') = list_by_name mailbox name m in (the_one r, m')

  unfoldable pub remove_found : Result (List Entry) → M → M
  remove_found (err e) m = m
  remove_found (ok []) m = m
  remove_found (ok (e ∷ es)) m = (remove (map (λ (e : Entry). e.id) (e ∷ es)) m).1

  -- `deleteAppPwByName`; its error is only logged.
  unfoldable pub delete_by_name : String → String → M → M
  unfolding list_by_name remove_found
  delete_by_name mailbox name m = let (r, m') = list_by_name mailbox name m in remove_found r m'

  module _ (env : Env) (req : CreateKeyRequest) (scopes : List String) (kid secret app_pw : String)
      (now : ℕ) where
    open env use {hash_token, display_prefix, seal, default_ttl}

    unfoldable pub key_record : String → String → String → Record
    unfolding new_token expiry
    key_record app_pw_id enc nonce = record {
      id = kid;
      token_sha256 = hash_token (new_token kid secret);
      prefix = display_prefix (new_token kid secret);
      mailbox = req.mailbox;
      label = req.label;
      scopes = join_scopes scopes;
      secret_enc = enc;
      secret_nonce = nonce;
      mc_app_pw_id = app_pw_id;
      created = at now;
      last_used = Time.zero_time;
      expires = expiry default_ttl now req.expires_in_seconds;
      revoked = Time.zero_time;
    }

    unfoldable pub created_key : Created
    created_key = record {
      id = kid;
      token = new_token kid secret;
      mailbox = req.mailbox;
      label = req.label;
      scopes = scopes;
      prefix = display_prefix (new_token kid secret);
      expires_at = expiry default_ttl now req.expires_in_seconds;
    }

    -- A failure behind the creation of the app-password takes it back.
    unfoldable pub take_back : ℕ → String → M → Conn Table → Response Created × M × Conn Table
    unfolding delete_by_name app_name
    take_back code message m c =
        (refuse code message, delete_by_name req.mailbox (app_name kid) m, c)

    unfoldable pub persisted :
        Result (Unit {0}) → M → Conn Table → Response Created × M × Conn Table
    unfolding take_back created_key
    persisted (err e) m c = take_back 500 "could not persist api key" m c
    persisted (ok u) m c = (answer created_key, m, c)

    unfoldable pub sealed_with :
        String → Option (String × String) → M → Conn Table → Response Created × M × Conn Table
    unfolding persisted key_record
    sealed_with app_pw_id none m c = take_back 500 "secret encryption failed" m c
    sealed_with app_pw_id (some (enc, nonce)) m c =
        let (r, c') = create (key_record app_pw_id enc nonce) c in persisted r m c'

    unfoldable pub identified : Result String → M → Conn Table → Response Created × M × Conn Table
    unfolding sealed_with
    identified (err e) m c = take_back 502 "could not confirm app-password creation" m c
    identified (ok app_pw_id) m c = sealed_with app_pw_id (seal app_pw) m c

    unfoldable pub added : Result Bool → M → Conn Table → Response Created × M × Conn Table
    unfolding identified recover_id app_name
    added (err e) m c = (refuse 502 "mailcow app-password creation failed", m, c)
    added (ok false) m c = (refuse 502 "mailcow rejected app-password creation", m, c)
    added (ok true) m c = let (r, m') = recover_id req.mailbox (app_name kid) m in identified r m' c

    unfoldable pub mint_key : M → Conn Table → Response Created × M × Conn Table
    unfolding added
    mint_key m c = let (r, m') = add req.mailbox (app_name kid) app_pw m in added r m' c

  -- The random draws are of the key id and the secret, and of the app-password.
  unfoldable pub handle_create :
      Env
      → Result CreateKeyRequest
      → Result (String × String)
      → Result String
      → ℕ
      → M
      → Conn Table
      → Response Created × M × Conn Table
  unfolding mint_key or_default all_scopes_valid
  handle_create env (err e) drawn app_pw now m c = (refuse 400 e, m, c)
  handle_create env (ok req) (err e) app_pw now m c =
      if not (env.is_address req.mailbox)
      then (refuse 400 "invalid mailbox address", m, c)
      else if not (all_scopes_valid (or_default req.scopes))
      then (refuse 400 "unknown scope", m, c)
      else (refuse 500 "token generation failed", m, c)
  handle_create env (ok req) (ok (kid, secret)) (err e) now m c =
      if not (env.is_address req.mailbox)
      then (refuse 400 "invalid mailbox address", m, c)
      else if not (all_scopes_valid (or_default req.scopes))
      then (refuse 400 "unknown scope", m, c)
      else (refuse 500 "secret generation failed", m, c)
  handle_create env (ok req) (ok (kid, secret)) (ok app_pw) now m c =
      if not (env.is_address req.mailbox)
      then (refuse 400 "invalid mailbox address", m, c)
      else if not (all_scopes_valid (or_default req.scopes))
      then (refuse 400 "unknown scope", m, c)
      else mint_key env req (or_default req.scopes) kid secret app_pw now m c
