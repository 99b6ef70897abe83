-- ===== src/Dav/Store.antt =====
-- backend/internal/dav/store.go. The first eight bytes of a SHA-256 hash in hexadecimal and ORDER BY are
-- parameters. Opening the database and creating the tables are not modelled.
use mathlib.Core.Option
use mailfold.Prelude.{
  ℕ, String, Bool, ◌&&◌, Option, none, some, List, [], ◌∷◌, ◌++◌, map, str_eq, ltb, if◌then◌else◌,
}
use mailfold.Storage.{Time, at, unix, from_unix}
use mailfold.Sql.{Result, ok, err, Sql, pure, statement, ◌>>=◌, ◌>>◌}
use mailfold.Sql.Table.{select, first, delete, count, upsert}

-- A row of address_books or calendars.
pub record BookRow : Type 0 where
  pub user : String
  pub id : String
  pub name : String
  pub description : String

-- A row of address_objects or calendar_objects; coll_id is book_id or calendar_id.
pub record ObjectRow : Type 0 where
  pub user : String
  pub coll_id : String
  pub uid : String
  pub etag : String
  pub data_text : String
  pub modified : ℕ

-- The two tables of one kind.
pub record Collections : Type 0 where
  pub books : List BookRow
  pub objects : List ObjectRow

pub record Tables : Type 0 where
  pub address : Collections
  pub calendar : Collections

-- Which pair of tables a method is about.
pub data Collection : Type 0 where
  address_coll calendar_coll : Collection

unfoldable pub tables_of : Collection → Tables → Collections
tables_of address_coll t = t.address
tables_of calendar_coll t = t.calendar

unfoldable pub with_tables : Collection → Collections → Tables → Tables
with_tables address_coll x t = record t { address = x }
with_tables calendar_coll x t = record t { calendar = x }

pub record Book : Type 0 where
  pub id : String
  pub name : String
  pub description : String

pub record Object : Type 0 where
  pub uid : String
  pub etag : String
  pub data_text : String
  pub modified : Time

pub record Env : Type 0 where
  pub etag_of : String → String
  pub by_id : List BookRow → List BookRow
  pub by_uid : List ObjectRow → List ObjectRow

unfoldable pub is_book : String → String → BookRow → Bool
is_book user id r = str_eq r.user user && str_eq r.id id

unfoldable pub is_in : String → String → ObjectRow → Bool
is_in user id r = str_eq r.user user && str_eq r.coll_id id

unfoldable pub is_object : String → String → String → ObjectRow → Bool
unfolding is_in
is_object user id uid r = is_in user id r && str_eq r.uid uid

unfoldable pub scan_book : BookRow → Book
scan_book r = record { id = r.id; name = r.name; description = r.description }

unfoldable pub scan_object : ObjectRow → Object
scan_object r = record {
  uid = r.uid;
  etag = r.etag;
  data_text = r.data_text;
  modified = from_unix r.modified;
}

-- ON CONFLICT ("user", id) DO NOTHING
unfoldable pub ensure : Collection → String → String → String → Sql Tables (Unit {0})
unfolding is_book
ensure c user id name = statement (λ t.
    let x = tables_of c t in
    let new : BookRow = record { user = user; id = id; name = name; description = "" } in
    (tt, with_tables c (record x { books = upsert (is_book user id) (λ r. r) new x.books }) t))

unfoldable pub get_collection : Collection → String → String → Sql Tables (Option Book)
unfolding is_book scan_book
get_collection c user id =
    statement (λ t. (Option.map scan_book (first (is_book user id) (tables_of c t).books), t))

-- PRIMARY KEY ("user", id)
unfoldable pub insert_book : Collection → BookRow → Tables → Result (Unit {0}) × Tables
unfolding is_book
insert_book c new t =
    let x = tables_of c t in
    elim (first (is_book new.user new.id) x.books) [
      | none ↦ (ok tt, with_tables c (record x { books = x.books ++ new ∷ [] }) t)
      | some r ↦ (err "UNIQUE constraint failed", t)
    ]

unfoldable pub create_collection : Collection → String → Book → Sql Tables (Unit {0})
unfolding insert_book
create_collection c user b = do
  done ← statement (
      insert_book c (record { user = user; id = b.id; name = b.name; description = b.description }))
  (λ conn. (done, conn))

unfoldable pub delete_collection : Collection → String → String → Sql Tables (Unit {0})
unfolding is_in is_book
delete_collection c user id =
    statement (λ t.
      let x = tables_of c t in
      (tt, with_tables c (record x { objects = delete (is_in user id) x.objects }) t))
    >> statement (λ t.
      let x = tables_of c t in
      (tt, with_tables c (record x { books = delete (is_book user id) x.books }) t))

unfoldable pub get_object_in : Collection → String → String → String → Sql Tables (Option Object)
unfolding is_object scan_object
get_object_in c user id uid =
    statement
      (λ t. (Option.map scan_object (first (is_object user id uid) (tables_of c t).objects), t))

-- n, _ := res.RowsAffected(): zero if the driver reports an error. The error's text leaves the uid out.
unfoldable pub found_rows : Result ℕ → Result (Unit {0})
found_rows (ok n) = if ltb 0 n then ok tt else err "object not found"
found_rows (err e) = err "object not found"

unfoldable pub any_affected : ℕ → Sql Tables (Unit {0})
unfolding found_rows
any_affected n c = let (r, c') = statement (λ t. (n, t)) c in (found_rows r, c')

unfoldable pub delete_object_in : Collection → String → String → String → Sql Tables (Unit {0})
unfolding is_object any_affected
delete_object_in c user id uid =
    statement (λ t.
      let x = tables_of c t in
      (
        count (is_object user id uid) x.objects,
        with_tables c (record x { objects = delete (is_object user id uid) x.objects }) t,
      ))
    >>= any_affected

-- ON CONFLICT("user", …, uid) DO UPDATE SET …
unfoldable pub replaced : Object → ObjectRow → ObjectRow
replaced o r = record r { etag = o.etag; data_text = o.data_text; modified = unix o.modified }

unfoldable pub object_row : String → String → Object → ObjectRow
object_row user id o = record {
  user = user;
  coll_id = id;
  uid = o.uid;
  etag = o.etag;
  data_text = o.data_text;
  modified = unix o.modified;
}

unfoldable pub put_object_row : Collection → String → String → Object → Tables → Tables
unfolding is_object replaced object_row
put_object_row c user id o t =
    let x = tables_of c t in
    with_tables c
      (record x {
        objects = upsert (is_object user id o.uid) (replaced o) (object_row user id o) x.objects;
      })
      t

module _ (env : Env) where
  open env use {etag_of, by_id, by_uid}

  unfoldable pub list_collections : Collection → String → Sql Tables (List Book)
  unfolding scan_book
  list_collections c user =
      statement
        (λ t. (map scan_book (by_id (select (λ r. str_eq r.user user) (tables_of c t).books)), t))

  unfoldable pub list_objects_in : Collection → String → String → Sql Tables (List Object)
  unfolding is_in scan_object
  list_objects_in c user id =
      statement
        (λ t. (map scan_object (by_uid (select (is_in user id) (tables_of c t).objects)), t))

  unfoldable pub new_object : String → String → ℕ → Object
  new_object uid text now = record {
    uid = uid;
    etag = etag_of text;
    data_text = text;
    modified = at now;
  }

  unfoldable pub put_object_in :
      Collection → String → String → String → String → ℕ → Sql Tables Object
  unfolding put_object_row new_object
  put_object_in c user id uid text now =
      statement (λ t. (tt, put_object_row c user id (new_object uid text now) t))
      >> pure (new_object uid text now)

  -- The methods of the address books and of the calendars.
  unfoldable list_books : String → Sql Tables (List Book)
  list_books = list_collections address_coll

  unfoldable list_objects : String → String → Sql Tables (List Object)
  list_objects = list_objects_in address_coll

  unfoldable put_object : String → String → String → String → ℕ → Sql Tables Object
  put_object = put_object_in address_coll

  unfoldable list_calendars : String → Sql Tables (List Book)
  list_calendars = list_collections calendar_coll

  unfoldable list_cal_objects : String → String → Sql Tables (List Object)
  list_cal_objects = list_objects_in calendar_coll

  unfoldable put_cal_object : String → String → String → String → ℕ → Sql Tables Object
  put_cal_object = put_object_in calendar_coll

unfoldable ensure_book : String → String → String → Sql Tables (Unit {0})
ensure_book = ensure address_coll

unfoldable get_book : String → String → Sql Tables (Option Book)
get_book = get_collection address_coll

unfoldable create_book : String → Book → Sql Tables (Unit {0})
create_book = create_collection address_coll

unfoldable delete_book : String → String → Sql Tables (Unit {0})
delete_book = delete_collection address_coll

unfoldable get_object : String → String → String → Sql Tables (Option Object)
get_object = get_object_in address_coll

unfoldable delete_object : String → String → String → Sql Tables (Unit {0})
delete_object = delete_object_in address_coll

unfoldable ensure_calendar : String → String → String → Sql Tables (Unit {0})
ensure_calendar = ensure calendar_coll

unfoldable get_calendar : String → String → Sql Tables (Option Book)
get_calendar = get_collection calendar_coll

unfoldable create_calendar : String → Book → Sql Tables (Unit {0})
create_calendar = create_collection calendar_coll

unfoldable get_cal_object : String → String → String → Sql Tables (Option Object)
get_cal_object = get_object_in calendar_coll

unfoldable delete_cal_object : String → String → String → Sql Tables (Unit {0})
delete_cal_object = delete_object_in calendar_coll
