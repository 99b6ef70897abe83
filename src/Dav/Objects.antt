-- ===== src/Dav/Objects.antt =====
-- backend/internal/dav/store.go: what a stored object is read back as, and that no other is touched.
use mathlib.Core.Option
use mailfold.Prelude.{
  ℕ, String, ◌≡◌, refl, sym, ap, ◌∙◌, Bool, true, false, ◌&&◌, Option, none, some, List, arith,
  eq_iff, str_eq, if◌then◌else◌, inl, inr, Bool-cases, Option-cases,
}
use mailfold.Storage.{unix, from_unix}
use mailfold.Sql.{Result, ok, err, Conn, attempt, statement, continue, ◌>>=◌, ◌>>◌}
use mailfold.Sql.Table.{first, upsert}
use mailfold.Sql.Rows.{merged, first-matches, first-upsert, first-upsert-other}
use mailfold.Dav.Store.{
  ObjectRow, Tables, Collection, address_coll, calendar_coll, tables_of, with_tables, Object, Env,
  is_in, is_object, scan_object, replaced, object_row, put_object_row, new_object, put_object_in,
}

-- What a query for an object of these rows finds.
unfoldable pub shown_in : String → String → String → List ObjectRow → Option Object
shown_in user id uid rows = Option.map scan_object (first (is_object user id uid) rows)

-- What `getObjectIn` finds.
unfoldable pub shown : Collection → String → String → String → Tables → Option Object
unfolding shown_in
shown c user id uid t = shown_in user id uid (tables_of c t).objects

-- The object with the instant as a column keeps it.
unfoldable pub stored : Object → Object
stored o = record o { modified = from_unix (unix o.modified) }

unfoldable pub is_kind : Collection → Collection → Bool
is_kind address_coll address_coll = true
is_kind calendar_coll calendar_coll = true
is_kind _ _ = false

unfoldable pub is_key : String → String → String → String → String → String → Bool
is_key user id uid user' id' uid' = (str_eq user user' && str_eq id id') && str_eq uid uid'

row_key :
    (user id uid : String) (r : ObjectRow)
    → is_object user id uid r ≡ true
    → (r.user ≡ user) × ((r.coll_id ≡ id) × (r.uid ≡ uid))
unfolding is_object is_in
row_key user id uid r h =
    let u : str_eq r.user user ≡ true = ground arith in
    let i : str_eq r.coll_id id ≡ true = ground arith in
    let x : str_eq r.uid uid ≡ true = ground arith in
    ((eq_iff r.user user).0 u, ((eq_iff r.coll_id id).0 i, (eq_iff r.uid uid).0 x))

own_row : (user id : String) (o : Object) → is_object user id o.uid (object_row user id o) ≡ true
unfolding is_object is_in object_row
own_row user id o =
    let u = (eq_iff user user).1 refl in
    let i = (eq_iff id id).1 refl in let x = (eq_iff o.uid o.uid).1 refl in rw (u, i, x) refl

module _ (user id : String) (o : Object) (rows : List ObjectRow) where
  abbrev after : List ObjectRow
  after = upsert (is_object user id o.uid) (replaced o) (object_row user id o) rows

  own_object : shown_in user id o.uid after ≡ some (stored o)
  unfolding shown_in
  own_object =
      ap (Option.map scan_object) (
        first-upsert (is_object user id o.uid) (replaced o) (object_row user id o)
          (own_row user id o) (λ r h. unfold is_object is_in replaced in h) rows)
      ∙ written (first (is_object user id o.uid) rows)
          (λ r h. first-matches (is_object user id o.uid) rows r h)
    where
      written :
          (q : Option ObjectRow)
          → ((r : ObjectRow) → q ≡ some r → is_object user id o.uid r ≡ true)
          → Option.map scan_object (some (merged (replaced o) (object_row user id o) q))
            ≡ some (stored o)
      written none h = unfold scan_object object_row stored in refl
      written (some r) h =
          let e = (row_key user id o.uid r (h r refl)).1.1 in
          unfold scan_object replaced stored in rw e refl

  module _ (user' id' uid' : String) where
    other_object :
        is_key user id o.uid user' id' uid' ≡ false
        → shown_in user' id' uid' after ≡ shown_in user' id' uid' rows
    unfolding shown_in is_key
    other_object h = ap (Option.map scan_object) (
        first-upsert-other (is_object user id o.uid) (is_object user' id' uid') (replaced o)
          (object_row user id o) apart (λ r. unfold is_object is_in replaced in refl)
          (unfold is_object is_in object_row in h) rows)
      where
        apart :
            (r : ObjectRow) → is_object user id o.uid r ≡ true → is_object user' id' uid' r ≡ false
        apart r p =
            let k = row_key user id o.uid r p in unfold is_object is_in in rw (k.0, k.1.0, k.1.1) h

    same_object :
        is_key user id o.uid user' id' uid' ≡ true → shown_in user' id' uid' after ≡ some (stored o)
    unfolding is_key
    same_object h =
        let u : str_eq user user' ≡ true = ground arith in
        let i : str_eq id id' ≡ true = ground arith in
        let x : str_eq o.uid uid' ≡ true = ground arith in
        ap (λ y. shown_in y id' uid' after) (sym ((eq_iff user user').0 u))
        ∙ ap (λ y. shown_in user y uid' after) (sym ((eq_iff id id').0 i))
        ∙ ap (λ y. shown_in user id y after) (sym ((eq_iff o.uid uid').0 x))
        ∙ own_object

    any_object : shown_in user' id' uid' after ≡ (
        if is_key user id o.uid user' id' uid'
        then some (stored o)
        else shown_in user' id' uid' rows)
    any_object = elim (Bool-cases (is_key user id o.uid user' id' uid')) [
      | inl same ↦ rw same (same_object same)
      | inr other ↦ rw other (other_object other)
    ]

put_object_row_lem :
    (c d : Collection) (user id : String) (o : Object) (user' id' uid' : String) (t : Tables)
    → shown d user' id' uid' (put_object_row c user id o t) ≡ (
        if is_kind c d && is_key user id o.uid user' id' uid'
        then some (stored o)
        else shown d user' id' uid' t)
unfolding shown put_object_row is_kind tables_of with_tables
put_object_row_lem address_coll address_coll user id o user' id' uid' t =
    any_object user id o t.address.objects user' id' uid'
put_object_row_lem calendar_coll calendar_coll user id o user' id' uid' t =
    any_object user id o t.calendar.objects user' id' uid'
put_object_row_lem address_coll calendar_coll user id o user' id' uid' t = refl
put_object_row_lem calendar_coll address_coll user id o user' id' uid' t = refl

module _ (env : Env) (c d : Collection) (user id uid text : String) (now : ℕ)
    (user' id' uid' : String) where
  -- What a query for any object is to find after the call, by the call's answer.
  unfoldable pub expected : Result Object → Tables → Option Object
  expected (err e) t = shown d user' id' uid' t
  expected (ok o) t =
      if is_kind c d && is_key user id uid user' id' uid'
      then some (stored o)
      else shown d user' id' uid' t

  -- After `PutObject` or `PutCalObject` a query for its own object finds what the call answered, with
  -- the instant in whole seconds, and a query for any other object of either kind finds what it found
  -- before; after an error every query finds what it found before.
  pub put_exact :
      (conn : Conn Tables)
      → shown d user' id' uid' (put_object_in env c user id uid text now conn).1.tables
        ≡ expected (put_object_in env c user id uid text now conn).0 conn.tables
  unfolding put_object_in expected statement continue ◌>>=◌ ◌>>◌ new_object
  put_exact conn = elim (Option-cases (conn.outcome conn.used)) [
    | inl fine ↦
        rw (fine, attempt)
          (put_object_row_lem c d user id (new_object env uid text now) user' id' uid' conn.tables)
    | inr (e, failed) ↦ rw (failed, attempt) refl
  ]
