-- ===== src/DomainAdmin/Store.antt =====
-- backend/internal/domainadmin/store.go: the domain administrators' passwords, the SSO providers with the
-- domains they serve, and the cached app-passwords of mailboxes. ORDER BY and the ids that a table
-- assigns are parameters. Opening the database and creating the tables are not modelled.
use mathlib.Core.Option
use mailfold.Prelude.{
  ℕ, String, Bool, true, false, not, ◌&&◌, ◌||◌, Option, none, some, List, [], ◌∷◌, ◌++◌, map,
  str_eq, ◌==◌, if◌then◌else◌,
}
use mailfold.Storage.{Time, at, unix, from_unix}
use mailfold.Sql.{Result, ok, err, Sql, pure, statement, ◌>>=◌, ◌>>◌}
use mailfold.Sql.Table.{select, first, update, delete, upsert}

-- The rows of the tables; instants are unix seconds, flags are 0 or 1.
pub record LoginRow : Type 0 where
  pub username : String
  pub password_hash : String
  pub updated_at : ℕ

pub record ProviderRow : Type 0 where
  pub id : ℕ
  pub name : String
  pub issuer : String
  pub client_id : String
  pub client_secret_enc : String
  pub client_secret_nonce : String
  pub redirect_url : String
  pub all_domains : ℕ
  pub created_by : String
  pub active : ℕ
  pub updated_at : ℕ

pub record ScopeRow : Type 0 where
  pub provider_id : ℕ
  pub domain_name : String

pub record CredentialRow : Type 0 where
  pub mailbox : String
  pub app_passwd_id : String
  pub app_passwd_enc : String
  pub app_passwd_nonce : String
  pub updated_at : ℕ

pub record Tables : Type 0 where
  pub logins : List LoginRow
  pub providers : List ProviderRow
  pub scopes : List ScopeRow
  pub credentials : List CredentialRow

pub record Provider : Type 0 where
  pub id : ℕ
  pub name : String
  pub issuer : String
  pub client_id : String
  pub client_secret_enc : String
  pub client_secret_nonce : String
  pub redirect_url : String
  pub all_domains : Bool
  pub domains : List String
  pub created_by : String
  pub active : Bool
  pub updated_at : Time

pub record MailboxCredential : Type 0 where
  pub mailbox : String
  pub app_passwd_id : String
  pub app_passwd_enc : String
  pub app_passwd_nonce : String
  pub updated_at : Time

-- The orders of the queries, and LastInsertId of the next row.
pub record Orders : Type 0 where
  pub newest_first : List ProviderRow → List ProviderRow
  pub by_name : List ProviderRow → List ProviderRow
  pub by_domain : List String → List String
  pub next_id : List ℕ → ℕ

unfoldable pub bool_int : Bool → ℕ
bool_int true = 1
bool_int false = 0

unfoldable pub is_login : String → LoginRow → Bool
is_login username r = str_eq r.username username

unfoldable pub set_login_password : String → String → ℕ → Sql Tables (Unit {0})
set_login_password username hash now = statement (λ t. (
  tt,
  record t {
    logins =
        upsert (is_login username)
          (λ r. record r { password_hash = hash; updated_at = unix (at now) })
          (record { username = username; password_hash = hash; updated_at = unix (at now) })
          t.logins;
  },
))

unfoldable pub get_login_password : String → Sql Tables (Option String)
get_login_password username =
    statement (λ t.
      (Option.map (λ (r : LoginRow). r.password_hash) (first (is_login username) t.logins), t))

unfoldable pub delete_login : String → Sql Tables (Unit {0})
delete_login username =
    statement (λ t. (tt, record t { logins = delete (is_login username) t.logins }))

unfoldable pub is_provider : ℕ → ProviderRow → Bool
is_provider id r = r.id == id

unfoldable pub is_scope : ℕ → String → ScopeRow → Bool
is_scope id domain r = (r.provider_id == id) && str_eq r.domain_name domain

-- PRIMARY KEY (provider_id, domain_name)
unfoldable pub insert_scope_if : Option ScopeRow → ScopeRow → Tables → Result (Unit {0}) × Tables
insert_scope_if none r t = (ok tt, record t { scopes = t.scopes ++ r ∷ [] })
insert_scope_if (some x) r t = (err "UNIQUE constraint failed", t)

unfoldable pub insert_scope : ScopeRow → Tables → Result (Unit {0}) × Tables
unfolding insert_scope_if
insert_scope r t = insert_scope_if (first (is_scope r.provider_id r.domain_name) t.scopes) r t

unfoldable pub insert_scopes : ℕ → List String → Sql Tables (Unit {0})
unfolding insert_scope
insert_scopes id [] = pure tt
insert_scopes id (d ∷ ds) =
    (do
      done ← statement (insert_scope (record { provider_id = id; domain_name = d }))
      (λ c. (done, c)))
    >> insert_scopes id ds

unfoldable pub replace_provider_domains : ℕ → List String → Sql Tables (Unit {0})
unfolding insert_scopes
replace_provider_domains id domains =
    statement (λ t. (tt, record t { scopes = delete (λ r. r.provider_id == id) t.scopes }))
    >> insert_scopes id domains

unfoldable pub scan_provider : ProviderRow → Provider
scan_provider r = record {
  id = r.id;
  name = r.name;
  issuer = r.issuer;
  client_id = r.client_id;
  client_secret_enc = r.client_secret_enc;
  client_secret_nonce = r.client_secret_nonce;
  redirect_url = r.redirect_url;
  all_domains = not (r.all_domains == 0);
  domains = [];
  created_by = r.created_by;
  active = not (r.active == 0);
  updated_at = from_unix r.updated_at;
}

-- SET … of `UpdateProvider`, which leaves created_by
unfoldable pub provider_set : Provider → ℕ → ProviderRow → ProviderRow
unfolding bool_int
provider_set p now r = record r {
  name = p.name;
  issuer = p.issuer;
  client_id = p.client_id;
  client_secret_enc = p.client_secret_enc;
  client_secret_nonce = p.client_secret_nonce;
  redirect_url = p.redirect_url;
  all_domains = bool_int p.all_domains;
  active = bool_int p.active;
  updated_at = unix (at now);
}

unfoldable pub new_provider_row : Provider → ℕ → ℕ → ProviderRow
unfolding bool_int
new_provider_row p now id = record {
  id = id;
  name = p.name;
  issuer = p.issuer;
  client_id = p.client_id;
  client_secret_enc = p.client_secret_enc;
  client_secret_nonce = p.client_secret_nonce;
  redirect_url = p.redirect_url;
  all_domains = bool_int p.all_domains;
  created_by = p.created_by;
  active = bool_int p.active;
  updated_at = unix (at now);
}

unfoldable pub update_provider : Provider → ℕ → Sql Tables (Unit {0})
unfolding replace_provider_domains provider_set
update_provider p now =
    statement (λ t.
      (tt, record t { providers = update (is_provider p.id) (provider_set p now) t.providers }))
    >> replace_provider_domains p.id (if not p.all_domains then p.domains else [])

unfoldable pub delete_provider : ℕ → Sql Tables (Unit {0})
delete_provider id =
    statement (λ t. (tt, record t { scopes = delete (λ r. r.provider_id == id) t.scopes }))
    >> statement (λ t. (tt, record t { providers = delete (is_provider id) t.providers }))

unfoldable pub is_listed : Option ScopeRow → Bool
is_listed none = false
is_listed (some r) = true

-- active = 1 AND (all_domains = 1 OR id IN (SELECT provider_id … WHERE domain_name = ?))
unfoldable pub serves : String → List ScopeRow → ProviderRow → Bool
unfolding is_listed
serves domain scopes r =
    (r.active == 1) && ((r.all_domains == 1) || is_listed (first (is_scope r.id domain) scopes))

unfoldable pub is_credential : String → CredentialRow → Bool
is_credential mailbox r = str_eq r.mailbox mailbox

unfoldable pub scan_credential : CredentialRow → MailboxCredential
scan_credential r = record {
  mailbox = r.mailbox;
  app_passwd_id = r.app_passwd_id;
  app_passwd_enc = r.app_passwd_enc;
  app_passwd_nonce = r.app_passwd_nonce;
  updated_at = from_unix r.updated_at;
}

unfoldable pub get_mailbox_credential : String → Sql Tables (Option MailboxCredential)
unfolding scan_credential
get_mailbox_credential mailbox =
    statement (λ t. (Option.map scan_credential (first (is_credential mailbox) t.credentials), t))

unfoldable pub set_mailbox_credential :
    String → String → String → String → ℕ → Sql Tables (Unit {0})
set_mailbox_credential mailbox id enc nonce now = statement (λ t. (
  tt,
  record t {
    credentials =
        upsert (is_credential mailbox)
          (λ r. record r {
            app_passwd_id = id;
            app_passwd_enc = enc;
            app_passwd_nonce = nonce;
            updated_at = unix (at now);
          })
          (record {
            mailbox = mailbox;
            app_passwd_id = id;
            app_passwd_enc = enc;
            app_passwd_nonce = nonce;
            updated_at = unix (at now);
          })
          t.credentials;
  },
))

unfoldable pub delete_mailbox_credential : String → Sql Tables (Unit {0})
delete_mailbox_credential mailbox =
    statement (λ t. (tt, record t { credentials = delete (is_credential mailbox) t.credentials }))

module _ (orders : Orders) where
  open orders use {newest_first, by_name, by_domain, next_id}

  -- INSERT, LastInsertId, then the domains unless all are served
  unfoldable pub create_provider : Provider → ℕ → Sql Tables ℕ
  unfolding new_provider_row replace_provider_domains
  create_provider p now = do
    assigned ← statement (λ t.
        let id = next_id (map (λ (r : ProviderRow). r.id) t.providers) in
        (id, record t { providers = t.providers ++ new_provider_row p now id ∷ [] }))
    id ← statement (λ t. (assigned, t))
    done ← (if p.all_domains then pure tt else replace_provider_domains id p.domains)
    pure id

  unfoldable pub domains_for : ℕ → Sql Tables (List String)
  domains_for id = statement (λ t. (
    by_domain (map (λ (r : ScopeRow). r.domain_name) (select (λ r. r.provider_id == id) t.scopes)),
    t,
  ))

  -- A provider of all domains is left as it is.
  unfoldable pub with_domains : Provider → Sql Tables Provider
  unfolding domains_for
  with_domains p =
      if p.all_domains
      then pure p
      else (do domains ← domains_for p.id; pure (record p { domains = domains }))

  unfoldable pub fill_domains : List Provider → Sql Tables (List Provider)
  unfolding with_domains
  fill_domains [] = pure []
  fill_domains (p ∷ ps) = do p' ← with_domains p; ps' ← fill_domains ps; pure (p' ∷ ps')

  unfoldable pub list_providers : Sql Tables (List Provider)
  unfolding fill_domains scan_provider
  list_providers =
      statement (λ t. (map scan_provider (newest_first t.providers), t)) >>= fill_domains

  unfoldable pub found_provider : Option ProviderRow → Sql Tables (Option Provider)
  unfolding with_domains scan_provider
  found_provider none = pure none
  found_provider (some r) = do p ← with_domains (scan_provider r); pure (some p)

  unfoldable pub get_provider : ℕ → Sql Tables (Option Provider)
  unfolding found_provider
  get_provider id = statement (λ t. (first (is_provider id) t.providers, t)) >>= found_provider

  unfoldable pub providers_for_domain : String → Sql Tables (List Provider)
  unfolding fill_domains scan_provider serves
  providers_for_domain domain =
      statement
        (λ t. (map scan_provider (by_name (select (serves domain t.scopes) t.providers)), t))
      >>= fill_domains
