-- ===== src/ScheduledSend/Dispatch.antt =====
-- backend/internal/api/webmail_scheduled.go: the handlers that queue, list and cancel, and the dispatcher.
-- What mailcow and the SMTP server answer for a row is the environment's; the calls of
-- webmail.Client.Send are kept in a list, the latest first. A log line and the copy in the Sent folder,
-- whose failure is only logged, act on no state here.
use Prim.Native.String.{[] as empty, ◌∷◌ as ◌▹◌}
use Prim.Native.Char.{code}
use mailfold.Prelude.{
  ℕ, ◌+◌, String, Bool, true, false, ◌||◌, Option, none, some, List, [], ◌∷◌, ◌++◌, map, str_eq,
  ltb, ◌==◌, if◌then◌else◌,
}
use mailfold.Storage.{Time, at}
use mailfold.Sql.{Result, ok, err, Conn}
use mailfold.Http.{Handler, reply, deny, with_body, call}
use mailfold.ScheduledSend.{
  ScheduledSend, OutgoingMessage, Status, Table, Env, create, list_pending, cancel, claim_due,
  mark_sent, mark_failed,
}

-- ssoWebmailCredential and Send, by the row they are called for.
pub record Mail : Type 0 where
  pub credential : ScheduledSend → Result String
  pub send : ScheduledSend → String → Result (Unit {0})

-- A call of Send: the row's id, its owner, the password and the message.
pub record Handed : Type 0 where
  pub id : ℕ
  pub email : String
  pub password : String
  pub msg : OutgoingMessage

pub record Dispatcher : Type 0 where
  pub conn : Conn Table
  pub handed : List Handed

unfoldable pub outgoing : ScheduledSend → OutgoingMessage
outgoing row = record {
  to = row.to;
  cc = row.cc;
  bcc = row.bcc;
  subject = row.subject;
  text = row.text;
  html = row.html;
}

-- MarkFailed and MarkSent: an error is only logged.
unfoldable pub settle : ScheduledSend → Result (Unit {0}) → Conn Table → Conn Table
settle row (ok u) c = (mark_sent row.id c).1
settle row (err e) c = (mark_failed row.id e c).1

unfoldable pub dispatch_with : Mail → ScheduledSend → Result String → Dispatcher → Dispatcher
unfolding settle outgoing
dispatch_with mail row (err e) d = record d { conn = (mark_failed row.id e d.conn).1 }
dispatch_with mail row (ok pw) d = record {
  conn = settle row (mail.send row pw) d.conn;
  handed =
      (record { id = row.id; email = row.owner_email; password = pw; msg = outgoing row })
      ∷ d.handed;
}

unfoldable pub dispatch_one : Mail → ScheduledSend → Dispatcher → Dispatcher
unfolding dispatch_with
dispatch_one mail row d = dispatch_with mail row (mail.credential row) d

unfoldable pub dispatch_all : Mail → List ScheduledSend → Dispatcher → Dispatcher
unfolding dispatch_one
dispatch_all mail [] d = d
dispatch_all mail (row ∷ rows) d = dispatch_all mail rows (dispatch_one mail row d)

unfoldable pub dispatch_claimed : Mail → Result (List ScheduledSend) → Dispatcher → Dispatcher
unfolding dispatch_all
dispatch_claimed mail (err e) d = d
dispatch_claimed mail (ok rows) d = dispatch_all mail rows d

abbrev pub batch : ℕ
batch = 20

unfoldable pub dispatch_scheduled_sends : Env → Mail → ℕ → Dispatcher → Dispatcher
unfolding dispatch_claimed
dispatch_scheduled_sends env mail now d =
    let (r, c) = claim_due env now batch d.conn in dispatch_claimed mail r (record d { conn = c })

-- strings.ContainsAny(s, "\r\n")
unfoldable pub has_line_break : String → Bool
has_line_break empty = false
has_line_break (c ▹ s) =
    let rest = has_line_break s in if (code c == 13) || (code c == 10) then true else rest

unfoldable pub any_line_break : List String → Bool
unfolding has_line_break
any_line_break [] = false
any_line_break (a ∷ l) = let rest = any_line_break l in if has_line_break a then true else rest

unfoldable pub validate_outgoing : OutgoingMessage → Result (Unit {0})
unfolding any_line_break
validate_outgoing msg =
    if has_line_break msg.subject
    then err "subject must not contain a line break"
    else if any_line_break msg.to || (any_line_break msg.cc || any_line_break msg.bcc)
    then err "recipient address must not contain a line break"
    else ok tt

unfoldable pub recipients : OutgoingMessage → List String
recipients msg = msg.to ++ (msg.cc ++ msg.bcc)

unfoldable pub is_empty : List String → Bool
is_empty [] = true
is_empty (a ∷ l) = false

abbrev pub not_enabled : String
not_enabled = "set MAILFOLD_DB_PATH and MAILFOLD_ADMIN_ENC_KEY to enable send-later/undo-send"

pub record CreateRequest : Type 0 where
  pub msg : OutgoingMessage
  pub send_at : String

pub record Item : Type 0 where
  pub id : ℕ
  pub to : List String
  pub cc : List String
  pub bcc : List String
  pub subject : String
  pub scheduled_at : Time
  pub status : Status

unfoldable pub to_item : ScheduledSend → Item
to_item row = record {
  id = row.id;
  to = row.to;
  cc = row.cc;
  bcc = row.bcc;
  subject = row.subject;
  scheduled_at = row.scheduled_at;
  status = row.status;
}

-- When a message is to leave: after the window in which it can be undone, or at the instant that the
-- request names, read by time.Parse (RFC 3339).
unfoldable pub send_time : (String → Option ℕ) → ℕ → ℕ → String → Result ℕ
send_time parse window now send_at =
    if str_eq send_at "" then ok (now + window) else elim (parse send_at) [
      | none ↦ err "sendAt must be an RFC3339 timestamp"
      | some t ↦ if ltb now t then ok t else err "sendAt must be in the future"
    ]

module _ (env : Env) (enabled : Bool) (owner : String) where
  unfoldable pub queue_valid :
      OutgoingMessage → Result (Unit {0}) → Result ℕ → ℕ → Handler Table (ℕ × ℕ)
  queue_valid msg (err e) time now = deny 400 e
  queue_valid msg (ok u) (err e) now = deny 400 e
  queue_valid msg (ok u) (ok t) now = call (create env owner msg (at t) now) (λ id. reply (id, t))

  unfoldable pub schedule_create :
      (String → Option ℕ) → ℕ → Result CreateRequest → ℕ → Handler Table (ℕ × ℕ)
  unfolding queue_valid validate_outgoing recipients is_empty send_time
  schedule_create parse window body now =
      if enabled
      then with_body body (λ req.
        if is_empty (recipients req.msg)
        then deny 400 "message has no recipients"
        else queue_valid req.msg (validate_outgoing req.msg)
            (send_time parse window now req.send_at) now)
      else deny 501 not_enabled

  unfoldable pub schedule_list : Handler Table (List Item)
  unfolding to_item
  schedule_list =
      if enabled
      then call (list_pending env owner) (λ rows. reply (map to_item rows))
      else deny 501 not_enabled

  unfoldable pub schedule_cancel : Result ℕ → Handler Table (Unit {0})
  schedule_cancel path_id =
      if enabled
      then elim path_id [
        | err e ↦ deny 400 "invalid id"
        | ok id ↦ call (cancel owner id) (λ done. if done then reply tt else deny 404 "not found")
      ]
      else deny 501 not_enabled
