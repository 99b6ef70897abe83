-- ===== src/ScheduledSend/Delivery.antt =====
-- backend/internal/api/webmail_scheduled.go: which messages the dispatcher hands over, and how often.
use mailfold.Prelude.{
  ℕ, String, ◌≡◌, ◌≢◌, refl, ap, ◌∙◌, false, some, List, [], ◌∷◌, ◌++◌, map, arith, ◌==◌, eq_iff,
}
use mailfold.Storage.{Time}
use mailfold.Sql.{Result, ok, err, Conn}
use mailfold.Sql.Laws.{IsReliable}
use mailfold.ScheduledSend.{
  ScheduledSend, OutgoingMessage, Table, Env, claim, scan_row, new_row, decode_addr_list, claim_due,
  due_rows,
}
use mailfold.ScheduledSend.Order.{IsKeyed}
use mailfold.ScheduledSend.Claim.{is_among}
use mailfold.ScheduledSend.Exclusive.{claim_due_total}
use mailfold.ScheduledSend.Dispatch.{
  Mail, Handed, Dispatcher, outgoing, dispatch_with, dispatch_one, dispatch_all, dispatch_claimed,
  dispatch_scheduled_sends, batch,
}
use mailfold.ScheduledSend.AtMostOnce.{IsUnique, done}
use mailfold.ScheduledSend.History.{Event, after, after-Sound}

-- The dispatcher with nothing handed over yet.
abbrev pub starting : Conn Table → Dispatcher
starting c = record { conn = c; handed = [] }

unfoldable pub handed_ids : Dispatcher → List ℕ
handed_ids d = map (λ (h : Handed). h.id) d.handed

IsUnique-split : (l rest : List ℕ) → IsUnique (l ++ rest) → IsUnique l
unfolding is_among
IsUnique-split [] rest u = tt
IsUnique-split (i ∷ l) rest u = (fewer l u.0, IsUnique-split l rest u.1)
  where
    fewer : (l : List ℕ) → is_among i (l ++ rest) ≡ false → is_among i l ≡ false
    fewer [] h = refl
    fewer (j ∷ l) h = ground (arith, fewer l)

last_absent : (l : List ℕ) (id : ℕ) → IsUnique (l ++ id ∷ []) → is_among id l ≡ false
unfolding is_among
last_absent [] id u = refl
last_absent (i ∷ l) id u = ground (arith, last_absent l id u.1, ends l u.0)
  where
    ends : (l : List ℕ) → is_among i (l ++ id ∷ []) ≡ false → (i == id) ≡ false
    ends [] h = ground (arith, h)
    ends (j ∷ l) h = ground (arith, ends l)

-- Whatever errors the driver, mailcow and the SMTP server report: over any history of dispatches,
-- creations and cancellations, on a table with unique ids, no id is handed to the SMTP server twice.
pub never_twice :
    (env : Env) (es : List Event) (c : Conn Table)
    → IsKeyed c.tables
    → IsUnique (handed_ids (after env es (starting c)))
unfolding handed_ids done
never_twice env es c u =
    IsUnique-split (handed_ids (after env es (starting c))) []
      (after-Sound env [] es (starting c) (record { keyed = u; spent = tt; unique = tt })).unique

unfoldable pub handed_if : ScheduledSend → List Handed → Result String → List Handed
handed_if row before (err e) = before
handed_if row before (ok pw) =
    (record { id = row.id; email = row.owner_email; password = pw; msg = outgoing row }) ∷ before

-- Of the rows whose owner has a working credential, what is handed over, the latest first.
unfoldable pub hand_over : Mail → List ScheduledSend → List Handed → List Handed
unfolding handed_if
hand_over mail [] before = before
hand_over mail (row ∷ rows) before =
    hand_over mail rows (handed_if row before (mail.credential row))

dispatch_all-handed :
    (mail : Mail) (rows : List ScheduledSend) (d : Dispatcher)
    → (dispatch_all mail rows d).handed ≡ hand_over mail rows d.handed
unfolding dispatch_all dispatch_one dispatch_with hand_over handed_if
dispatch_all-handed mail [] d = refl
dispatch_all-handed mail (row ∷ rows) d =
    dispatch_all-handed mail rows (dispatch_one mail row d)
    ∙ ap (hand_over mail rows) (one (mail.credential row))
  where
    one : (r : Result String) → (dispatch_with mail row r d).handed ≡ handed_if row d.handed r
    one (err e) = refl
    one (ok pw) = refl

-- Where the driver reports no error, a dispatch hands over every due row, up to twenty of them and
-- soonest first, whose owner has a working credential, each once and with its own message; the failure
-- of one row keeps none of the others back.
pub dispatch_exact :
    (env : Env) (mail : Mail) (now : ℕ) (c : Conn Table)
    → IsKeyed c.tables
    → IsReliable c
    → (dispatch_scheduled_sends env mail now (starting c)).handed
      ≡ hand_over mail (map (λ r. scan_row env (claim now r)) (due_rows env now batch c.tables)) []
unfolding dispatch_scheduled_sends dispatch_claimed
dispatch_exact env mail now c u r =
    let rows = map (λ r. scan_row env (claim now r)) (due_rows env now batch c.tables) in
    rw (claim_due_total env now batch c u r)
      (dispatch_all-handed mail rows (starting (claim_due env now batch c).1))

-- encoding/json reads a list back that it has written, and has written something.
abbrev pub ReadsBack : Env → List String → Type 0
ReadsBack env l = (env.decode_list (env.encode_list l) ≡ some l) × (env.encode_list l ≢ "")

list_read :
    (env : Env) (l : List String) → ReadsBack env l → decode_addr_list env (env.encode_list l) ≡ l
unfolding decode_addr_list
list_read env l h = ground (arith, h.0, h.1, eq_iff (env.encode_list l) "")

-- While encoding/json reads back the recipients that it has written, what is handed over of a row is
-- the message that was queued, for the owner who queued it.
pub outgoing-new_row :
    (env : Env) (owner : String) (msg : OutgoingMessage) (moment : Time) (queued now id : ℕ)
    → ReadsBack env msg.to
    → ReadsBack env msg.cc
    → ReadsBack env msg.bcc
    → (outgoing (scan_row env (claim now (new_row env owner msg moment queued id))) ≡ msg)
      × ((scan_row env (claim now (new_row env owner msg moment queued id))).owner_email ≡ owner)
unfolding outgoing scan_row claim new_row
outgoing-new_row env owner msg moment queued now id t c b =
    (rw (list_read env msg.to t, list_read env msg.cc c, list_read env msg.bcc b) refl, refl)
