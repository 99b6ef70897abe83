-- ===== src/SessionStore.antt =====
-- backend/internal/sessionstore/store.go: the table of bearer tokens that the three session managers
-- share. `digest` stands for SHA-256, which the package takes from the standard library; byte slices
-- and the metadata are texts, a nil slice the empty one. Opening the database and creating the table
-- are not modelled.
pub mod Isolation
pub mod Cell
pub mod Keys
mod Tests
use mailfold.Prelude.{
  ℕ, ◌+◌, ◌*◌, String, Bool, true, false, not, ◌&&◌, Option, none, some, List, [], ◌∷◌, ◌++◌, map,
  str_eq, ltb, leb, if◌then◌else◌,
}
use mailfold.Prelude.Text.{Text, text_eq, hex}
use mailfold.Storage.{Time, at, unix, from_unix, is_after}
use mailfold.Sql.{Result, ok, err, Conn, Sql, pure, ignore, statement, ◌>>=◌, ◌>>◌}
use mailfold.Sql.Table.{select, first, update, delete, count}

-- A row of session_token; instants are unix seconds.
pub record TokenRow : Type 0 where
  pub token_hash : Text
  pub kind : String
  pub subject : String
  pub secret_enc : String
  pub secret_nonce : String
  pub meta : String
  pub attempts : ℕ
  pub created_at : ℕ
  pub expires_at : ℕ

-- What `Get` hands back.
pub record Row : Type 0 where
  pub subject : String
  pub secret : String
  pub secret_nonce : String
  pub meta : String
  pub attempts : ℕ
  pub created_at : Time
  pub expires_at : Time

pub record ListedRow : Type 0 where
  pub token_hash : Text
  pub meta : String
  pub attempts : ℕ
  pub created_at : Time
  pub expires_at : Time

pub record PutParams : Type 0 where
  pub token : String
  pub kind : String
  pub subject : String
  pub secret : String
  pub secret_nonce : String
  pub meta : String
  pub now : ℕ
  pub expires_at : ℕ

abbrev pub Table : Type 0
Table = List TokenRow

-- WHERE token_hash = ? AND kind = ?
unfoldable pub has_key : Text → String → TokenRow → Bool
has_key h k r = text_eq r.token_hash h && str_eq r.kind k

-- `Row` and `ListedRow` as scanned.
unfoldable pub scan : TokenRow → Row
scan r = record {
  subject = r.subject;
  secret = r.secret_enc;
  secret_nonce = r.secret_nonce;
  meta = r.meta;
  attempts = r.attempts;
  created_at = from_unix r.created_at;
  expires_at = from_unix r.expires_at;
}

unfoldable pub scan_listed : TokenRow → ListedRow
scan_listed r = record {
  token_hash = r.token_hash;
  meta = r.meta;
  attempts = r.attempts;
  created_at = from_unix r.created_at;
  expires_at = from_unix r.expires_at;
}

-- DELETE … WHERE token_hash = ? AND kind = ?, with the number of rows that it removes.
unfoldable pub delete_key : Text → String → Table → ℕ × Table
delete_key h k t = (count (has_key h k) t, delete (has_key h k) t)

abbrev or_zero : Result ℕ → Result ℕ
or_zero (ok n) = ok n
or_zero (err e) = ok 0

-- n, _ := res.RowsAffected(): zero if the driver reports an error.
unfoldable pub rows_affected : ℕ → Sql Table ℕ
rows_affected n c = let (r, c') = statement (λ t. (n, t)) c in (or_zero r, c')

-- INSERT … ON CONFLICT(token_hash, kind) DO UPDATE
unfoldable pub upsert : TokenRow → Table → Table
upsert r [] = r ∷ []
upsert r (x ∷ t) = if has_key r.token_hash r.kind x then r ∷ t else x ∷ upsert r t

-- rows.Next() and Scan, until the rows are read
unfoldable pub scan_all : Table → List ListedRow
scan_all t = map scan_listed t

-- DELETE … WHERE kind = ? AND subject = ? AND token_hash != ?
unfoldable pub is_other : String → String → Text → TokenRow → Bool
is_other k subject keep r =
    str_eq r.kind k && (str_eq r.subject subject && not (text_eq r.token_hash keep))

-- SELECT … WHERE kind = ? AND subject = ? AND expires_at > ?
unfoldable pub is_listed : String → String → ℕ → TokenRow → Bool
is_listed k subject now r =
    str_eq r.kind k && (str_eq r.subject subject && ltb (unix (at now)) r.expires_at)

-- DELETE … WHERE expires_at <= ?
unfoldable pub is_stale : ℕ → TokenRow → Bool
is_stale now r = leb r.expires_at (unix (at now))

unfoldable pub bump : TokenRow → TokenRow
bump r = record r { attempts = r.attempts + 1 }

unfoldable pub list_by_subject : String → String → ℕ → Sql Table (List ListedRow)
list_by_subject k subject now = statement (λ t. (scan_all (select (is_listed k subject now) t), t))

unfoldable pub delete_by_hash : Text → String → Sql Table Bool
delete_by_hash h k = do
  removed ← statement (delete_key h k)
  n ← rows_affected removed
  pure (ltb 0 n)

unfoldable pub gc : ℕ → Sql Table (Unit {0})
gc now = statement (λ t. (tt, delete (is_stale now) t))

module _ (digest : String → List ℕ) where
  unfoldable pub hash_token : String → Text
  hash_token token = hex (digest token)

  -- The row that `Put` writes over whatever the key held.
  unfoldable pub put_row : PutParams → TokenRow
  unfolding hash_token
  put_row p = record {
    token_hash = hash_token p.token;
    kind = p.kind;
    subject = p.subject;
    secret_enc = p.secret;
    secret_nonce = p.secret_nonce;
    meta = p.meta;
    attempts = 0;
    created_at = unix (at p.now);
    expires_at = unix (at p.expires_at);
  }

  unfoldable pub put : PutParams → Sql Table (Unit {0})
  put p = statement (λ t. (tt, upsert (put_row p) t))

  unfoldable pub delete_token : String → String → Sql Table (Unit {0})
  delete_token token k = statement (λ t. (tt, delete (has_key (hash_token token) k) t))

  -- A row past its expiry is removed, and the error of that removal dropped.
  unfoldable pub unexpired : String → String → ℕ → Option TokenRow → Sql Table (Option Row)
  unexpired token k now none = pure none
  unexpired token k now (some r) =
      if is_after now (from_unix r.expires_at)
      then (ignore tt (delete_token token k) >> pure none)
      else pure (some (scan r))

  unfoldable pub get : String → String → ℕ → Sql Table (Option Row)
  get token k now = do
    found ← statement (λ t. (first (has_key (hash_token token) k) t, t))
    unexpired token k now found

  -- The new count and the owner, if the token is known and not past its expiry.
  unfoldable pub still_open :
      String → String → ℕ → Option TokenRow → Sql Table (Option (ℕ × String))
  still_open token k now none = pure none
  still_open token k now (some r) =
      if is_after now (from_unix r.expires_at)
      then (ignore tt (delete_token token k) >> pure none)
      else pure (some (r.attempts, r.subject))

  -- UPDATE … SET attempts = attempts + 1 WHERE … RETURNING …
  unfoldable pub increment_attempts : String → String → ℕ → Sql Table (Option (ℕ × String))
  increment_attempts token k now = do
    bumped ← statement (λ t.
        let t' = update (has_key (hash_token token) k) bump t in
        (first (has_key (hash_token token) k) t', t'))
    still_open token k now bumped

  unfoldable pub delete_by_subject_except : String → String → String → Sql Table ℕ
  delete_by_subject_except k subject keep_token = do
    removed ← statement (λ t. (
      count (is_other k subject (hash_token keep_token)) t,
      delete (is_other k subject (hash_token keep_token)) t,
    ))
    rows_affected removed
