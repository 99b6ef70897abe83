-- ===== src/Dav/Tests.antt =====
-- Concrete runs of the store of address books and calendars.
use mailfold.Prelude.{ℕ, ◌*◌, ◌≡◌, none, [], ◌∷◌}
use mailfold.Storage.{second}
use mailfold.Sql.{Conn}
use mailfold.Dav.Store.{Tables, Env, ObjectRow, address_coll, put_object_in}
use mailfold.Dav.Objects.{shown, expected, put_exact}

abbrev env : Env
env = record { etag_of = λ text. text; by_id = λ rows. rows; by_uid = λ rows. rows }

abbrev card : ObjectRow
card = record {
  user = "a@x.org";
  coll_id = "contacts";
  uid = "u1";
  etag = "old";
  data_text = "old";
  modified = 3;
}

abbrev conn : Conn Tables
conn = record {
  tables = record {
    address = record { books = []; objects = card ∷ [] };
    calendar = record { books = []; objects = [] };
  };
  outcome = λ n. none;
  used = 0;
}

abbrev noon : ℕ
noon = 200 * second

put_exact_example :
    shown address_coll "a@x.org" "contacts" "u1"
      (put_object_in env address_coll "a@x.org" "contacts" "u1" "new" noon conn).1.tables
    ≡ expected env address_coll address_coll "a@x.org" "contacts" "u1" "new" noon "a@x.org"
        "contacts" "u1"
        (put_object_in env address_coll "a@x.org" "contacts" "u1" "new" noon conn).0
        conn.tables
put_exact_example =
    put_exact env address_coll address_coll "a@x.org" "contacts" "u1" "new" noon "a@x.org"
      "contacts" "u1" conn
