-- ===== src/WebPush/Tests.antt =====
-- Concrete runs of the push store.
use mailfold.Prelude.{String, ◌==◌, ◌≡◌, refl, some, none, List, [], ◌∷◌, if◌then◌else◌}
use mailfold.Sql.{ok, err, Conn, attempt, statement, continue, ◌>>=◌, ◌>>◌}
use mailfold.Sql.Table.{first, delete, upsert}
use mailfold.WebPush.Store.{
  Tables, Env, Registration, is_own, key_pair, find_keys, insert_keys, reread, store_generated,
  found_or_generated, get_or_create_vapid_keys, is_endpoint, new_subscription, add_subscription,
  remove_subscription,
}
use mailfold.WebPush.Keys.{Call, keys, subscribe, unsubscribe, after_call, after_calls, keys_stable}

abbrev env : Env
env = record { by_id = λ rows. rows; next_id = λ ids. 1 }

-- The fourth statement fails.
abbrev fresh : Conn Tables
fresh = record {
  tables = record { keys = []; subscriptions = [] };
  outcome = λ n. if n == 3 then some "busy" else none;
  used = 0;
}

abbrev browser : Registration
browser = record {
  email = "a@x.org";
  endpoint = "https://push";
  p256dh = "p";
  auth = "s";
  password_enc = "e";
  password_nonce = "n";
}

abbrev between : List Call
between = keys (ok ("priv2", "pub2")) ∷ subscribe browser 0 ∷ unsubscribe "https://push" ∷ []

answered : (get_or_create_vapid_keys (ok ("priv1", "pub1")) fresh).0 ≡ ok ("pub1", "priv1")
unfolding get_or_create_vapid_keys found_or_generated store_generated reread insert_keys find_keys
    is_own key_pair first upsert statement attempt continue ◌>>=◌ ◌>>◌
answered = refl

answered_later :
    (get_or_create_vapid_keys
      (err "no entropy")
      (after_calls env between (get_or_create_vapid_keys (ok ("priv1", "pub1")) fresh).1)).0
    ≡ ok ("pub1", "priv1")
unfolding get_or_create_vapid_keys found_or_generated store_generated reread insert_keys find_keys
    is_own key_pair first upsert delete statement attempt continue ◌>>=◌ ◌>>◌ after_calls after_call
    add_subscription remove_subscription is_endpoint new_subscription
answered_later = refl

abbrev first_pair : String × String
first_pair = ("pub1", "priv1")

keys_stable_example : first_pair ≡ first_pair
keys_stable_example =
    keys_stable env (ok ("priv1", "pub1")) (err "no entropy") between fresh first_pair first_pair
      answered answered_later
