-- ===== src/ScheduledSend/Tests.antt =====
-- Concrete runs of the queue of backend/internal/scheduledsend/store.go.
use mathlib.Core.Option
use mailfold.Prelude.{
  true, str_eq, if◌then◌else◌, ℕ, ◌*◌, ◌≤◌, ◌≡◌, refl, none, some, List, [], ◌∷◌, map,
}
use mailfold.Storage.{Time, second}
use mailfold.Sql.{ok, Conn, statement, continue, attempt, ◌>>=◌}
use mailfold.Sql.Laws.{IsReliable}
use mailfold.Sql.Table.{first, update, count}
use mailfold.ScheduledSend.{
  MessageRow, ScheduledSend, OutgoingMessage, cancel, update_counted, is_pending, is_status,
  new_row, Table, pending, sent, has_id, claim, scan_row, Env, due_rows, claim_due,
}
use mailfold.ScheduledSend.Order.{IsKeyed}
use mailfold.ScheduledSend.Claim.{is_among, claimed_if, due_ids, claim_due-Implements}
use mailfold.ScheduledSend.Exclusive.{claim_due_lem, claim_due_total}
use mailfold.ScheduledSend.Keys.{IsKeyed-step}
use mailfold.ScheduledSend.Steps.{claim_due-Keeps}
use mailfold.ScheduledSend.Dispatch.{Mail, outgoing, dispatch_scheduled_sends}
use mailfold.ScheduledSend.AtMostOnce.{IsUnique}
use mailfold.ScheduledSend.History.{Event, dispatches, creates, cancels, after}
use mailfold.ScheduledSend.Delivery.{
  starting, handed_ids, hand_over, never_twice, dispatch_exact, outgoing-new_row,
}
use mailfold.ScheduledSend.Machine.{
  Step, Life, step, restarts, idle, take_step, take_steps, send_next, live, with_conn, handed_times,
}
use mailfold.ScheduledSend.Interleaved.{handed_once}
use mailfold.ScheduledSend.Cancellation.{canceled_never}
use mailfold.ScheduledSend.Sort.{sort, sort-perm, sort-IsOrdered, above, above-fresh}

abbrev env : Env
env = record {
  order_by = sort;
  order_by-perm = sort-perm;
  order_by-ordered = sort-IsOrdered;
  next_id = above;
  next_id-fresh = above-fresh;
  encode_list = λ l. "[]";
  decode_list = λ s. some [];
}

abbrev late : MessageRow
late = record {
  id = 1;
  owner_email = "ann@example.org";
  to_json = "[]";
  cc_json = "[]";
  bcc_json = "[]";
  subject = "late";
  text_body = "";
  html_body = "";
  scheduled_at = 90;
  status = pending;
  created_at = 10;
  claimed_at = 0;
  last_error = "";
}

abbrev soon : MessageRow
soon = record late { id = 2; subject = "soon"; scheduled_at = 50 }

abbrev gone : MessageRow
gone = record late { id = 3; subject = "gone"; scheduled_at = 20; status = sent }

abbrev queue : Conn Table
queue = record { tables = late ∷ soon ∷ gone ∷ []; outcome = λ n. none; used = 0 }

abbrev now : ℕ
now = 100 * second

queue-IsKeyed : IsKeyed queue.tables
unfolding first has_id
queue-IsKeyed = (refl, (refl, (refl, tt)))

abbrev claimed : List ScheduledSend
claimed = map (λ r. scan_row env (claim now r)) (due_rows env now 1 queue.tables)

claim_ok : (claim_due env now 1 queue).0 ≡ ok claimed
claim_ok = claim_due_total env now 1 queue queue-IsKeyed (λ n. refl)

claim_due_lem_example :
    (claimed ≡ claimed)
    × (first (has_id 2) (claim_due env now 1 queue).1.tables
        ≡ Option.map
            (claimed_if now (is_among 2 (due_ids env now 1 queue.tables)))
            (first (has_id 2) queue.tables))
claim_due_lem_example = claim_due_lem env now 1 queue claimed 2 queue-IsKeyed claim_ok

abbrev claimed_queue : Conn Table
claimed_queue = (claim_due env now 1 queue).1

claimed_queue-IsKeyed : IsKeyed claimed_queue.tables
claimed_queue-IsKeyed = claim_due-Keeps IsKeyed IsKeyed-step env now 1 queue queue-IsKeyed

claimed_queue-IsReliable : IsReliable claimed_queue
claimed_queue-IsReliable = ((claim_due-Implements env now 1).reliable queue (λ n. refl)).2

abbrev again : List ScheduledSend
again = map (λ r. scan_row env (claim now r)) (due_rows env now 5 claimed_queue.tables)

again_ok : (claim_due env now 5 claimed_queue).0 ≡ ok again
again_ok = claim_due_total env now 5 claimed_queue claimed_queue-IsKeyed claimed_queue-IsReliable

-- Every owner has a credential; what is handed over is accepted.
abbrev mail : Mail
mail = record { credential = λ row. ok "pw"; send = λ row pw. ok tt }

abbrev message : OutgoingMessage
message = record {
  to = "bob@example.org" ∷ [];
  cc = [];
  bcc = [];
  subject = "hello";
  text = "";
  html = "";
}

-- Two dispatches, and between them a new message and a cancellation.
abbrev busy : List Event
busy =
    dispatches mail now
    ∷ creates "ann@example.org" message (Time.at now) now
    ∷ cancels "ann@example.org" 1
    ∷ dispatches mail now
    ∷ []

never_twice_example : IsUnique (handed_ids (after env busy (starting queue)))
never_twice_example = never_twice env busy queue queue-IsKeyed

-- A claim of everything, one hand-over, a crash, and a second round.
abbrev round : List Step
round =
    Step.claims now
    ∷ Step.sends mail
    ∷ Step.creates "ann@example.org" message (Time.at now) now
    ∷ Step.crashes
    ∷ Step.claims now
    ∷ Step.sends mail
    ∷ []

handed_once_example : handed_times 2 (take_steps env round (idle queue)) ≤ 1
handed_once_example = handed_once env round queue 2 queue-IsKeyed

abbrev later : List Life
later = step (Step.claims now) ∷ restarts now ∷ step (Step.claims now) ∷ step (Step.sends mail) ∷ []

-- A new message is canceled before it is claimed.
abbrev queued : List Step
queued = Step.sends mail ∷ Step.cancels "bob@example.org" 1 ∷ Step.crashes ∷ []

confirmed : (cancel "ann@example.org" 1 (take_steps env queued (idle queue)).disp.conn).0 ≡ ok true
unfolding cancel update_counted statement ◌>>=◌ continue attempt count has_id is_pending is_status
    take_steps take_step send_next update
confirmed = refl

canceled_never_example :
    handed_times 1 (
      live env later (
        with_conn
          (take_steps env queued (idle queue))
          (cancel "ann@example.org" 1 (take_steps env queued (idle queue)).disp.conn).1))
    ≡ 0
canceled_never_example =
    canceled_never env "ann@example.org" 1 queued later queue queue-IsKeyed confirmed

dispatch_exact_example :
    (dispatch_scheduled_sends env mail now (starting queue)).handed
    ≡ hand_over mail (map (λ r. scan_row env (claim now r)) (due_rows env now 20 queue.tables)) []
dispatch_exact_example = dispatch_exact env mail now queue queue-IsKeyed (λ n. refl)

-- Stand-ins for encoding/json on the recipients of the example.
abbrev json : Env
json = record env {
  encode_list = λ l. elim l [ [] ↦ "[]" | a ∷ more ↦ "bob" ];
  decode_list = λ s. some (if str_eq s "[]" then [] else "bob@example.org" ∷ []);
}

outgoing-new_row_example :
    (outgoing
        (scan_row json (claim now (new_row json "ann@example.org" message (Time.at now) now 7)))
      ≡ message)
    × ((scan_row json
          (claim now (new_row json "ann@example.org" message (Time.at now) now 7))).owner_email
        ≡ "ann@example.org")
outgoing-new_row_example =
    outgoing-new_row json "ann@example.org" message (Time.at now) now now 7 (refl, λ e. cc)
      (refl, λ e. cc) (refl, λ e. cc)
