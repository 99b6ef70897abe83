-- ===== src/WebPush/Store.antt =====
-- backend/internal/webpush/store.go. ORDER BY and the ids that a table assigns are parameters. Opening
-- the database and creating the tables are not modelled.
use mathlib.Core.Option
use mailfold.Prelude.{ℕ, String, Bool, Option, none, some, List, map, str_eq, ◌==◌}
use mailfold.Storage.{Time, at, unix, from_unix}
use mailfold.Sql.{Result, ok, err, Sql, pure, statement, ◌>>=◌, ◌>>◌}
use mailfold.Sql.Table.{select, first, update, delete, upsert}

-- A row of webpush_vapid_key.
pub record VapidRow : Type 0 where
  pub id : ℕ
  pub public_key : String
  pub private_key : String

-- A row of webpush_subscription; created_at is in unix seconds.
pub record SubscriptionRow : Type 0 where
  pub id : ℕ
  pub email : String
  pub endpoint : String
  pub p256dh : String
  pub auth : String
  pub password_enc : String
  pub password_nonce : String
  pub last_uid : ℕ
  pub created_at : ℕ

pub record Tables : Type 0 where
  pub keys : List VapidRow
  pub subscriptions : List SubscriptionRow

pub record Subscription : Type 0 where
  pub id : ℕ
  pub email : String
  pub endpoint : String
  pub p256dh : String
  pub auth : String
  pub password_enc : String
  pub password_nonce : String
  pub last_uid : ℕ
  pub created_at : Time

pub record Env : Type 0 where
  pub by_id : List SubscriptionRow → List SubscriptionRow
  pub next_id : List ℕ → ℕ

-- WHERE id = 1
unfoldable pub is_own : VapidRow → Bool
is_own r = r.id == 1

unfoldable pub key_pair : VapidRow → String × String
key_pair r = (r.public_key, r.private_key)

-- The pair that a query finds, none for sql.ErrNoRows.
unfoldable pub find_keys : Tables → Option (String × String)
unfolding is_own key_pair
find_keys t = Option.map key_pair (first is_own t.keys)

-- ON CONFLICT(id) DO NOTHING
unfoldable pub insert_keys : String → String → Tables → Tables
unfolding is_own
insert_keys public private t = record t {
  keys =
      upsert is_own (λ r. r) (record { id = 1; public_key = public; private_key = private }) t.keys;
}

unfoldable pub reread : Option (String × String) → Sql Tables (String × String)
reread none = λ c. (err "sql: no rows in result set", c)
reread (some keys) = pure keys

-- The generator hands out the private key first.
unfoldable pub store_generated : Result (String × String) → Sql Tables (String × String)
unfolding insert_keys find_keys reread
store_generated (err e) = λ c. (err e, c)
store_generated (ok (private, public)) =
    statement (λ t. (tt, insert_keys public private t))
    >> (statement (λ t. (find_keys t, t)) >>= reread)

unfoldable pub found_or_generated :
    Result (String × String) → Option (String × String) → Sql Tables (String × String)
unfolding store_generated
found_or_generated generate none = store_generated generate
found_or_generated generate (some keys) = pure keys

-- The public key first. `generate` is what the generator answers if it is called.
unfoldable pub get_or_create_vapid_keys : Result (String × String) → Sql Tables (String × String)
unfolding found_or_generated find_keys
get_or_create_vapid_keys generate =
    statement (λ t. (find_keys t, t)) >>= found_or_generated generate

unfoldable pub is_endpoint : String → SubscriptionRow → Bool
is_endpoint endpoint r = str_eq r.endpoint endpoint

unfoldable pub remove_subscription : String → Sql Tables (Unit {0})
unfolding is_endpoint
remove_subscription endpoint =
    statement
      (λ t. (tt, record t { subscriptions = delete (is_endpoint endpoint) t.subscriptions }))

unfoldable pub update_last_uid : String → ℕ → Sql Tables (Unit {0})
unfolding is_endpoint
update_last_uid endpoint uid = statement (λ t. (
  tt,
  record t {
    subscriptions =
        update (is_endpoint endpoint) (λ r. record r { last_uid = uid }) t.subscriptions;
  },
))

unfoldable pub scan_subscription : SubscriptionRow → Subscription
scan_subscription r = record {
  id = r.id;
  email = r.email;
  endpoint = r.endpoint;
  p256dh = r.p256dh;
  auth = r.auth;
  password_enc = r.password_enc;
  password_nonce = r.password_nonce;
  last_uid = r.last_uid;
  created_at = from_unix r.created_at;
}

-- A subscription as a browser hands it in, with the encrypted password.
pub record Registration : Type 0 where
  pub email : String
  pub endpoint : String
  pub p256dh : String
  pub auth : String
  pub password_enc : String
  pub password_nonce : String

unfoldable pub new_subscription : Registration → ℕ → ℕ → SubscriptionRow
new_subscription g now id = record {
  id = id;
  email = g.email;
  endpoint = g.endpoint;
  p256dh = g.p256dh;
  auth = g.auth;
  password_enc = g.password_enc;
  password_nonce = g.password_nonce;
  last_uid = 0;
  created_at = unix (at now);
}

-- ON CONFLICT(endpoint) DO UPDATE SET …
unfoldable pub refreshed : Registration → SubscriptionRow → SubscriptionRow
refreshed g r = record r {
  email = g.email;
  p256dh = g.p256dh;
  auth = g.auth;
  password_enc = g.password_enc;
  password_nonce = g.password_nonce;
  last_uid = 0;
}

module _ (env : Env) where
  open env use {by_id, next_id}

  unfoldable pub add_subscription : Registration → ℕ → Sql Tables (Unit {0})
  unfolding is_endpoint new_subscription refreshed
  add_subscription g now = statement (λ t. (
    tt,
    record t {
      subscriptions =
          upsert (is_endpoint g.endpoint) (refreshed g)
            (new_subscription g now (next_id (map (λ r. r.id) t.subscriptions))) t.subscriptions;
    },
  ))

  unfoldable pub list_by_email : String → Sql Tables (List Subscription)
  unfolding scan_subscription
  list_by_email email =
      statement (λ t.
        (map scan_subscription (by_id (select (λ r. str_eq r.email email) t.subscriptions)), t))

  unfoldable pub list_all : Sql Tables (List Subscription)
  unfolding scan_subscription
  list_all = statement (λ t. (map scan_subscription (by_id t.subscriptions), t))
