-- ===== src/ApiKey/Tests.antt =====
-- Concrete runs of the API keys of backend/internal/apikey/store.go.
use mailfold.Prelude.{ℕ, ◌*◌, ◌≡◌, refl, true, none, some, [], ◌∷◌}
use mailfold.Storage.{second, unix}
use mailfold.Sql.{ok, Conn, statement, ◌>>=◌, continue, attempt}
use mailfold.Sql.Table.{first, update, count}
use mailfold.ApiKey.Store.{
  KeyRow, Record, Table, has_id, scan_key, get_by_id, revoke, revoke_row, is_open, affected,
  known_if_none,
}

abbrev key : KeyRow
key = record {
  id = "k1";
  token_sha256 = "aa";
  prefix = "mf_live_k1";
  mailbox = "ann@example.org";
  label = "bot";
  scopes = "mail:read";
  secret_enc = "s";
  secret_nonce = "n";
  mc_app_pw_id = "7";
  created = 100;
  last_used = 0;
  expires = 0;
  revoked = 0;
}

abbrev keys : Conn Table
keys = record { tables = key ∷ []; outcome = λ n. none; used = 0 }

abbrev noon : ℕ
noon = 200 * second

abbrev revoked_key : Record
revoked_key = scan_key (revoke_row noon key)

revoke_ok : (revoke "k1" noon keys).0 ≡ ok true
unfolding revoke statement ◌>>=◌ continue attempt affected known_if_none update count is_open has_id
revoke_ok = refl

found : (get_by_id "k1" (revoke "k1" noon keys).1).0 ≡ ok (some revoked_key)
unfolding revoke get_by_id statement ◌>>=◌ continue attempt affected known_if_none update count
    first is_open has_id revoke_row
found = refl

again_ok : (revoke "k1" (2 * noon) (revoke "k1" noon keys).1).0 ≡ ok true
unfolding revoke statement ◌>>=◌ continue attempt affected known_if_none update count is_open has_id
    revoke_row unix
again_ok = refl
