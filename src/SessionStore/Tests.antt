-- ===== src/SessionStore/Tests.antt =====
-- Concrete runs of the table of backend/internal/sessionstore/store.go.
use mailfold.Prelude.{
  ℕ, ◌*◌, String, ◌≡◌, refl, none, some, List, [], ◌∷◌, str_eq, if◌then◌else◌, inl,
}
use mailfold.Storage.{second}
use mailfold.Sql.{ok, Conn}
use mailfold.SessionStore.{TokenRow, Table}
use mailfold.SessionStore.Isolation.{Call, increments, after_call, held, held-after_call}
use mailfold.SessionStore.Cell.{on_cell, reply, call_refines}

-- Stands for SHA-256 on the tokens of the examples.
abbrev digest : String → List ℕ
digest token = if str_eq token "ann" then 1 ∷ [] else 2 ∷ []

abbrev stored : TokenRow
stored = record {
  token_hash = 48 ∷ 49 ∷ [];
  kind = "admin_pending";
  subject = "admin";
  secret_enc = "";
  secret_nonce = "";
  meta = "";
  attempts = 3;
  created_at = 100;
  expires_at = 400;
}

abbrev table : Conn Table
table = record { tables = stored ∷ []; outcome = λ n. none; used = 0 }

-- A database that answers no statement.
abbrev down : Conn Table
down = record { tables = stored ∷ []; outcome = λ n. some "database is locked"; used = 0 }

abbrev attempt_ann : Call
attempt_ann = increments "ann" "admin_pending" (200 * second)

call_refines_example :
    (reply digest attempt_ann table
      ≡ ok (on_cell digest attempt_ann (held digest "ann" "admin_pending" table.tables)).0)
    × (held digest "ann" "admin_pending" (after_call digest attempt_ann table).tables
        ≡ (on_cell digest attempt_ann (held digest "ann" "admin_pending" table.tables)).1)
call_refines_example = call_refines digest attempt_ann table (λ n. refl)

held-after_call_example :
    held digest "ann" "admin_pending"
      (after_call digest (increments "bob" "admin_pending" (200 * second)) down).tables
    ≡ held digest "ann" "admin_pending" down.tables
held-after_call_example =
    held-after_call digest (increments "bob" "admin_pending" (200 * second)) "ann" "admin_pending"
      down (inl (λ e. cc))
