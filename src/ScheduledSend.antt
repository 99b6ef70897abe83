-- ===== src/ScheduledSend.antt =====
-- backend/internal/scheduledsend/store.go: the queue of messages to be sent later. The environment
-- gives what the database and encoding/json do: ORDER BY, the ids that the table assigns, and the text
-- of a list of addresses; a nil list is the empty one. Opening the database and creating the table are
-- not modelled.
pub mod Order
pub mod Claim
pub mod Exclusive
pub mod Once
pub mod Steps
pub mod Keys
pub mod Dispatch
pub mod AtMostOnce
pub mod History
pub mod Machine
pub mod Taken
pub mod Interleaved
pub mod Settled
pub mod Cancellation
pub mod Delivery
mod Sort
mod Tests
use mailfold.Prelude.{
  ℕ, suc, ◌+◌, ◌≤◌, String, ◌≡◌, ◌≢◌, Bool, true, false, ◌&&◌, ◌||◌, Option, none, some, List, [],
  ◌∷◌, ◌++◌, map, All, str_eq, ltb, leb, ◌==◌, if◌then◌else◌,
}
use mathlib.Core.List.{Permᴰ}
use mathlib.Core.List.{Mem, Pairwise}
use mailfold.Prelude.Text.{take}
use mailfold.Storage.{Time, at, unix, from_unix}
use mailfold.Sql.{Result, ok, err, Conn, Sql, pure, statement, transaction, ◌>>=◌, ◌>>◌}
use mailfold.Sql.Table.{select, first, update, count}

pub data Status : Type 0 where
  pending sending sent canceled failed : Status

unfoldable pub is_status : Status → Status → Bool
is_status pending pending = true
is_status sending sending = true
is_status sent sent = true
is_status canceled canceled = true
is_status failed failed = true
is_status _ _ = false

-- A row of scheduled_send; instants are unix seconds.
pub record MessageRow : Type 0 where
  pub id : ℕ
  pub owner_email : String
  pub to_json : String
  pub cc_json : String
  pub bcc_json : String
  pub subject : String
  pub text_body : String
  pub html_body : String
  pub scheduled_at : ℕ
  pub status : Status
  pub created_at : ℕ
  pub claimed_at : ℕ
  pub last_error : String

pub record ScheduledSend : Type 0 where
  pub id : ℕ
  pub owner_email : String
  pub to : List String
  pub cc : List String
  pub bcc : List String
  pub subject : String
  pub text : String
  pub html : String
  pub scheduled_at : Time
  pub status : Status
  pub created_at : Time
  pub claimed_at : Time
  pub last_error : String

-- webmail.OutgoingMessage, as far as the queue keeps it.
pub record OutgoingMessage : Type 0 where
  pub to : List String
  pub cc : List String
  pub bcc : List String
  pub subject : String
  pub text : String
  pub html : String

abbrev pub Table : Type 0
Table = List MessageRow

-- The rows stand in the order of the key.
abbrev pub IsOrdered : (MessageRow → ℕ) → List MessageRow → Type 0
IsOrdered key [] = Unit
IsOrdered key (r ∷ []) = Unit
IsOrdered key (r ∷ s ∷ rs) = (key r ≤ key s) × IsOrdered key (s ∷ rs)

-- What the store relies on. `order_by` returns the rows it is given, in the order of the key; an id
-- that the table assigns is on no row.
pub record Env : Type 0 where
  pub order_by : (MessageRow → ℕ) → List MessageRow → List MessageRow
  pub order_by-perm : (key : MessageRow → ℕ) (rs : List MessageRow) → Permᴰ rs (order_by key rs)
  pub order_by-ordered :
      (key : MessageRow → ℕ) (rs : List MessageRow) → IsOrdered key (order_by key rs)
  pub next_id : List ℕ → ℕ
  pub next_id-fresh : (ids : List ℕ) → All (λ i. (i == next_id ids) ≡ false) ids
  pub encode_list : List String → String
  pub decode_list : String → Option (List String)

unfoldable pub has_id : ℕ → MessageRow → Bool
has_id id r = r.id == id

unfoldable pub is_pending : MessageRow → Bool
is_pending r = is_status r.status pending

-- WHERE status = 'pending' AND scheduled_at <= ?
unfoldable pub is_due : ℕ → MessageRow → Bool
is_due now r = is_pending r && leb r.scheduled_at (unix (at now))

-- WHERE owner_email = ? AND status IN ('pending', 'sending')
unfoldable pub is_open : String → MessageRow → Bool
is_open owner r = str_eq r.owner_email owner && (is_pending r || is_status r.status sending)

-- SET status = 'sending', claimed_at = ?
unfoldable pub claim : ℕ → MessageRow → MessageRow
claim now r = record r { status = sending; claimed_at = unix (at now) }

-- WHERE status = 'sending' AND claimed_at > 0 AND claimed_at < ?
unfoldable pub is_stale : ℕ → MessageRow → Bool
is_stale older_than r =
    is_status r.status sending && (ltb 0 r.claimed_at && ltb r.claimed_at (unix (at older_than)))

-- UPDATE …, then RowsAffected
unfoldable pub update_counted : (MessageRow → Bool) → (MessageRow → MessageRow) → Sql Table ℕ
update_counted p f = do n ← statement (λ t. (count p t, update p f t)); statement (λ t. (n, t))

unfoldable pub cancel : String → ℕ → Sql Table Bool
unfolding update_counted
cancel owner id = do
  n ←
      update_counted (λ r. has_id id r && (str_eq r.owner_email owner && is_pending r))
        (λ r. record r { status = canceled })
  pure (ltb 0 n)

unfoldable pub mark_sent : ℕ → Sql Table (Unit {0})
mark_sent id = statement (λ t. (tt, update (has_id id) (λ r. record r { status = sent }) t))

unfoldable pub mark_failed : ℕ → String → Sql Table (Unit {0})
mark_failed id msg =
    statement
      (λ t. (tt, update (has_id id) (λ r. record r { status = failed; last_error = msg }) t))

unfoldable pub reset_stale : ℕ → Sql Table ℕ
unfolding update_counted
reset_stale older_than = update_counted (is_stale older_than) (λ r. record r { status = pending })

-- The ids that are still 'pending' are claimed one by one.
unfoldable pub claim_ids : ℕ → List ℕ → Sql Table (Unit {0})
claim_ids now [] = pure tt
claim_ids now (id ∷ ids) =
    statement (λ t. (tt, update (λ r. has_id id r && is_pending r) (claim now) t))
    >> claim_ids now ids

abbrev pub no_rows : String
no_rows = "sql: no rows in result set"

abbrev pub found : Option MessageRow → Result MessageRow
found none = err no_rows
found (some r) = ok r

module _ (env : Env) where
  open env use {order_by, next_id, encode_list, decode_list}

  unfoldable pub decode_addr_list : String → List String
  decode_addr_list raw =
      if str_eq raw "" then [] else elim (decode_list raw) [ none ↦ [] | some l ↦ l ]

  unfoldable pub scan_row : MessageRow → ScheduledSend
  unfolding decode_addr_list
  scan_row r = record {
    id = r.id;
    owner_email = r.owner_email;
    to = decode_addr_list r.to_json;
    cc = decode_addr_list r.cc_json;
    bcc = decode_addr_list r.bcc_json;
    subject = r.subject;
    text = r.text_body;
    html = r.html_body;
    scheduled_at = from_unix r.scheduled_at;
    status = r.status;
    created_at = from_unix r.created_at;
    claimed_at = if ltb 0 r.claimed_at then from_unix r.claimed_at else Time.zero_time;
    last_error = r.last_error;
  }

  unfoldable pub new_row : String → OutgoingMessage → Time → ℕ → ℕ → MessageRow
  new_row owner msg scheduled_at now id = record {
    id = id;
    owner_email = owner;
    to_json = encode_list msg.to;
    cc_json = encode_list msg.cc;
    bcc_json = encode_list msg.bcc;
    subject = msg.subject;
    text_body = msg.text;
    html_body = msg.html;
    scheduled_at = unix scheduled_at;
    status = pending;
    created_at = unix (at now);
    claimed_at = 0;
    last_error = "";
  }

  -- INSERT, then LastInsertId
  unfoldable pub create : String → OutgoingMessage → Time → ℕ → Sql Table ℕ
  unfolding new_row
  create owner msg scheduled_at now = do
    id ← statement (λ t.
        let id = next_id (map (λ r. r.id) t) in
        (id, t ++ new_row owner msg scheduled_at now id ∷ []))
    statement (λ t. (id, t))

  unfoldable pub list_pending : String → Sql Table (List ScheduledSend)
  list_pending owner =
      statement (λ t. (map scan_row (order_by (λ r. r.scheduled_at) (select (is_open owner) t)), t))

  unfoldable pub due_rows : ℕ → ℕ → Table → List MessageRow
  due_rows now limit t = take limit (order_by (λ r. r.scheduled_at) (select (is_due now) t))

  unfoldable pub select_due_ids : ℕ → ℕ → Sql Table (List ℕ)
  unfolding due_rows
  select_due_ids now limit = statement (λ t. (map (λ r. r.id) (due_rows now limit t), t))

  unfoldable pub load_rows_by_id : List ℕ → Sql Table (List ScheduledSend)
  load_rows_by_id [] = pure []
  load_rows_by_id (id ∷ ids) = do
    o ← statement (λ t. (first (has_id id) t, t))
    r ← (λ c. (found o, c))
    rest ← load_rows_by_id ids
    pure (scan_row r ∷ rest)

  -- What `ClaimDue` does with the ids it has selected.
  unfoldable pub claim_batch : ℕ → List ℕ → Sql Table (List ScheduledSend)
  unfolding claim_ids load_rows_by_id
  claim_batch now [] = pure []
  claim_batch now (id ∷ ids) = claim_ids now (id ∷ ids) >> load_rows_by_id (id ∷ ids)

  unfoldable pub claim_due : ℕ → ℕ → Sql Table (List ScheduledSend)
  unfolding claim_batch
  claim_due now limit = transaction (do ids ← select_due_ids now limit; claim_batch now ids)
