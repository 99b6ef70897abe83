-- ===== src/DomainAdmin/Tests.antt =====
-- Concrete runs of the domain administrators' sessions of backend/internal/domainadmin/session.go.
use mailfold.Prelude.{
  false, ◌&&◌, ◌||◌, ℕ, ◌*◌, ◌≡◌, refl, true, none, some, [], ◌∷◌, str_eq, if◌then◌else◌,
}
use mathlib.Core.Option
use mailfold.Storage.{Time, second}
use mailfold.Sql.{ok, Conn, statement, attempt, continue, ◌>>=◌, ◌>>◌}
use mailfold.Sql.Table.{first, update}
use mailfold.Sql.Table
use mailfold.SessionStore.{TokenRow}
use mailfold.SessionStore
use mailfold.DomainAdmin.{Sessions, Env, get}
use mailfold.DomainAdmin.Store.{
  Tables, Provider, ProviderRow, is_provider, is_scope, insert_scope_if, insert_scope,
  insert_scopes, replace_provider_domains, provider_set, update_provider, serves,
}
use mailfold.DomainAdmin.Offers.{lists, serves-update_provider}
use mailfold.DomainAdmin.Access.{unexpired, identity_of, get_refines}

-- Stand-ins for SHA-256 and encoding/json on the inputs of the examples.
abbrev env : Env
env = record {
  digest = λ token. if str_eq token "ann" then 1 ∷ [] else 2 ∷ [];
  encode_domains = λ l. "example.org";
  decode_domains = λ s. s ∷ [];
}

abbrev row : TokenRow
row = record {
  token_hash = 48 ∷ 49 ∷ [];
  kind = "domainadmin_session";
  subject = "ann";
  secret_enc = "";
  secret_nonce = "";
  meta = "example.org";
  attempts = 0;
  created_at = 100;
  expires_at = 400;
}

abbrev one_row : Conn SessionStore.Table
one_row = record { tables = row ∷ []; outcome = λ n. none; used = 0 }

abbrev sessions : Sessions
sessions = record { ttl = 300 * second; m = []; attached = true; conn = one_row }

abbrev noon : ℕ
noon = 200 * second

get_refines_example :
    (get env "ann" noon sessions).0 ≡ unexpired noon (identity_of env "ann" sessions)
get_refines_example = get_refines env "ann" noon sessions (λ e. cc) (λ on n. refl)

abbrev provider_row : ProviderRow
provider_row = record {
  id = 4;
  name = "Corp";
  issuer = "https://id.example.org";
  client_id = "c";
  client_secret_enc = "e";
  client_secret_nonce = "n";
  redirect_url = "u";
  all_domains = 1;
  created_by = "";
  active = 1;
  updated_at = 100;
}

abbrev provider : Provider
provider = record {
  id = 4;
  name = "Corp";
  issuer = "https://id.example.org";
  client_id = "c";
  client_secret_enc = "e";
  client_secret_nonce = "n";
  redirect_url = "u";
  all_domains = false;
  domains = "example.org" ∷ [];
  created_by = "";
  active = true;
  updated_at = Time.zero_time;
}

abbrev providers : Conn Tables
providers = record {
  tables = record {
    logins = [];
    providers = provider_row ∷ [];
    scopes = (record { provider_id = 4; domain_name = "example.net" }) ∷ [];
    credentials = [];
  };
  outcome = λ n. none;
  used = 0;
}

provider_found : first (is_provider 4) (provider_row ∷ []) ≡ some provider_row
unfolding first is_provider
provider_found = refl

updated : (update_provider provider noon providers).0 ≡ ok tt
unfolding update_provider replace_provider_domains insert_scopes insert_scope insert_scope_if
    provider_set statement attempt continue ◌>>=◌ ◌>>◌ first update Table.delete is_scope
    is_provider
updated = refl

serves-update_provider_example :
    Option.map
      (serves "example.net" (update_provider provider noon providers).1.tables.scopes)
      (first (is_provider 4) (update_provider provider noon providers).1.tables.providers)
    ≡ some (true && (false || lists "example.net" ("example.org" ∷ [])))
serves-update_provider_example =
    serves-update_provider provider noon providers provider_row "example.net" provider_found updated
