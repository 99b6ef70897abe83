-- ===== src/SharedMailbox/Handlers.antt =====
-- backend/internal/api/webmail_shared.go: a webmail user's handlers over the shared mailboxes. `stored`
-- and `sealed` say whether the database and the cipher are configured; the credentials are those that
-- requireWebmail has put on the request. strings.TrimSpace is a parameter.
use mailfold.Prelude.{
  ℕ, String, Bool, not, ◌&&◌, Option, none, some, List, [], ◌∷◌, map, str_eq, ◌==◌, if◌then◌else◌,
}
use mailfold.Storage.{Time}
use mailfold.Sql.{Result, ok, err, Conn}
use mailfold.Http.{Response, answer, refuse, Handler, reply, deny, with_body, call}
use mailfold.WebmailSession
use mailfold.WebmailSession.{Credentials, Sessions}
use mailfold.SharedMailbox.Defs.{
  Tables, Mailbox, Note, Env, get_mailbox, get_mailbox_by_email, is_member, list_members,
  mailboxes_for_member, get_assignment, set_assignment, clear_assignment, list_notes, add_note,
  get_note, delete_note, assignments_for_folder, note_counts_for_folder,
}

abbrev pub not_shared : String
not_shared = "this mailbox is not a shared mailbox"

abbrev pub not_configured : String
not_configured = "set MAILFOLD_DB_PATH and MAILFOLD_ADMIN_ENC_KEY to enable shared mailboxes"

unfoldable pub or_inbox : String → String
or_inbox folder = if str_eq folder "" then "INBOX" else folder

-- Whom a note or an assignment is attributed to.
unfoldable pub acting_as : Credentials → String
acting_as cred = if str_eq cred.acting_as "" then cred.email else cred.acting_as

module _ {B : Type 0} where
  unfoldable pub require_store : Bool → Bool → Handler Tables B → Handler Tables B
  require_store stored sealed h = if stored && sealed then h else deny 501 not_configured

  unfoldable pub with_mailbox :
      Option Mailbox → String → (Mailbox → Handler Tables B) → Handler Tables B
  with_mailbox none missing k = deny 404 missing
  with_mailbox (some m) missing k = k m

  -- requireSharedSession, with what its caller goes on to do
  unfoldable pub require_shared_session :
      Bool → Credentials → (Mailbox → String → Handler Tables B) → Handler Tables B
  unfolding with_mailbox acting_as
  require_shared_session stored cred k =
      if stored
      then call (get_mailbox_by_email cred.email)
          (λ o. with_mailbox o not_shared (λ m. k m (acting_as cred)))
      else deny 404 not_shared

  unfoldable pub with_note : Option Note → (Note → Handler Tables B) → Handler Tables B
  with_note none k = deny 404 "not found"
  with_note (some n) k = k n

pub record Offer : Type 0 where
  pub id : ℕ
  pub email : String
  pub display_name : String

pub record SetAssignmentRequest : Type 0 where
  pub folder : String
  pub uid : ℕ
  pub assigned_to : String

pub record AddNoteRequest : Type 0 where
  pub folder : String
  pub uid : ℕ
  pub body : String

pub record NoteView : Type 0 where
  pub id : ℕ
  pub author : String
  pub body : String
  pub created_at : Time

unfoldable pub to_note_view : Note → NoteView
to_note_view n = record {
  id = n.id;
  author = n.author_email;
  body = n.body;
  created_at = n.created_at;
}

unfoldable pub to_offer : Mailbox → Offer
to_offer m = record { id = m.id; email = m.email; display_name = m.display_name }

-- Of a message list's entry, what `enrichShared` reads and writes.
pub record Header : Type 0 where
  pub uid : ℕ
  pub assigned_to : String
  pub notes_count : ℕ

-- assignments[uid] and counts[uid]: the zero value if absent.
unfoldable pub assigned : ℕ → List (ℕ × String) → String
assigned uid [] = ""
assigned uid ((u, who) ∷ l) = let rest = assigned uid l in if u == uid then who else rest

unfoldable pub counted : ℕ → List (ℕ × ℕ) → ℕ
counted uid [] = 0
counted uid ((u, n) ∷ l) = let rest = counted uid l in if u == uid then n else rest

unfoldable pub fill : List (ℕ × String) → List (ℕ × ℕ) → Header → Header
unfolding assigned counted
fill assignments counts h = record h {
  assigned_to = assigned h.uid assignments;
  notes_count = counted h.uid counts;
}

-- `handleWebmailSetAssignment` inside a shared session, from a trimmed name on.
unfoldable pub assign : Mailbox → String → String → ℕ → String → ℕ → Handler Tables (Unit {0})
assign m who folder uid name now =
    if str_eq name ""
    then call (clear_assignment m.id folder uid) reply
    else call (is_member m.id name) (λ granted.
      if granted
      then call (set_assignment m.id folder uid name who now) reply
      else deny 400 "assigned_to is not a member of this shared mailbox")

unfoldable pub set_assigned_in :
    (String → String)
    → Result SetAssignmentRequest
    → ℕ
    → Mailbox
    → String
    → Handler Tables (Unit {0})
unfolding or_inbox assign
set_assigned_in trim body now m who =
    with_body body (λ req. assign m who (or_inbox req.folder) req.uid (trim req.assigned_to) now)

-- `handleWebmailDeleteNote` inside a shared session.
unfoldable pub remove_found : ℕ → Mailbox → String → Note → Handler Tables (Unit {0})
remove_found id m who n =
    if not (n.mailbox_id == m.id)
    then deny 404 "not found"
    else if not (str_eq n.author_email who)
    then deny 403 "only the author can delete this note"
    else call (delete_note id) reply

unfoldable pub remove_note_in : Result ℕ → Mailbox → String → Handler Tables (Unit {0})
unfolding with_note remove_found
remove_note_in body m who =
    with_body body (λ id. call (get_note id) (λ o. with_note o (remove_found id m who)))

-- A list of messages is shown as it is if anything fails.
unfoldable pub enrich_with : Response (List Header) → List Header → List Header
enrich_with (answer filled) headers = filled
enrich_with (refuse code message) headers = headers

-- `enrichShared` inside a shared session.
unfoldable pub enriched_in : String → List Header → Mailbox → String → Handler Tables (List Header)
unfolding fill
enriched_in folder headers m who = call (assignments_for_folder m.id folder) (λ assignments.
    call (note_counts_for_folder m.id folder)
      (λ counts. reply (map (fill assignments counts) headers)))

-- `handleWebmailSharedSession`, up to the session it creates.
unfoldable pub credential_if :
    (String → String → Result String) → Mailbox → Bool → Handler Tables (String × String)
credential_if unseal m granted =
    if granted
    then (elim (unseal m.app_passwd_enc m.app_passwd_nonce) [
      | err e ↦ deny 500 e
      | ok pw ↦ reply (m.email, pw)
    ])
    else deny 403 "you do not have access to this shared mailbox"

module _ (cred : Credentials) (unseal : String → String → Result String) where
  -- Membership is asked for before the credential is opened.
  unfoldable pub credential_of : ℕ → Mailbox → Handler Tables (String × String)
  unfolding credential_if
  credential_of id m = call (is_member id cred.email) (credential_if unseal m)

  unfoldable pub shared_credential_at : Result ℕ → Handler Tables (String × String)
  unfolding credential_of with_mailbox
  shared_credential_at (err e) = deny 400 "invalid id"
  shared_credential_at (ok id) =
      call (get_mailbox id) (λ o. with_mailbox o "not found" (credential_of id))

unfoldable pub shared_credential :
    Bool
    → Bool
    → Credentials
    → (String → String → Result String)
    → Result ℕ
    → Handler Tables (String × String)
unfolding require_store shared_credential_at
shared_credential stored sealed cred unseal path_id =
    require_store stored sealed (shared_credential_at cred unseal path_id)

module _ (stored : Bool) (cred : Credentials) where
  unfoldable pub get_members : Env → Handler Tables (List String)
  unfolding require_shared_session
  get_members env = require_shared_session stored cred (λ m who. call (list_members env m.id) reply)

  unfoldable pub get_assigned : Result ℕ → String → Handler Tables String
  unfolding require_shared_session or_inbox
  get_assigned query_uid folder = require_shared_session stored cred (λ m who. elim query_uid [
    | err e ↦ deny 400 "invalid uid"
    | ok uid ↦
        call (get_assignment m.id (or_inbox folder) uid)
          (λ o. elim o [ none ↦ reply "" | some assigned_to ↦ reply assigned_to ])
  ])

  unfoldable pub set_assigned :
      (String → String) → Result SetAssignmentRequest → ℕ → Handler Tables (Unit {0})
  unfolding require_shared_session set_assigned_in
  set_assigned trim body now = require_shared_session stored cred (set_assigned_in trim body now)

  unfoldable pub get_notes : Env → Result ℕ → String → Handler Tables (List NoteView)
  unfolding require_shared_session or_inbox to_note_view
  get_notes env query_uid folder = require_shared_session stored cred (λ m who. elim query_uid [
    | err e ↦ deny 400 "invalid uid"
    | ok uid ↦
        call (list_notes env m.id (or_inbox folder) uid) (λ notes. reply (map to_note_view notes))
  ])

  unfoldable pub post_note :
      Env → (String → String) → Result AddNoteRequest → ℕ → Handler Tables NoteView
  unfolding require_shared_session or_inbox to_note_view
  post_note env trim body now = require_shared_session stored cred (λ m who. with_body body (λ req.
      if str_eq (trim req.body) ""
      then deny 400 "body is required"
      else call (add_note env m.id (or_inbox req.folder) req.uid who (trim req.body) now)
          (λ n. reply (to_note_view n))))

  unfoldable pub remove_note : Result ℕ → Handler Tables (Unit {0})
  unfolding require_shared_session remove_note_in
  remove_note body = require_shared_session stored cred (remove_note_in body)

  unfoldable pub enriched : String → List Header → Handler Tables (List Header)
  unfolding require_shared_session enriched_in
  enriched folder headers = require_shared_session stored cred (enriched_in folder headers)

  unfoldable pub enrich_shared : String → List Header → Conn Tables → List Header × Conn Tables
  unfolding enriched enrich_with
  enrich_shared folder headers c =
      let (r, c') = enriched folder headers c in (enrich_with r headers, c')

  -- Nothing is offered where the feature is off.
  unfoldable pub get_offered : Env → Handler Tables (List Offer)
  unfolding to_offer
  get_offered env =
      if stored
      then call (mailboxes_for_member env cred.email) (λ l. reply (map to_offer l))
      else reply []

-- The session of a shared mailbox: its credential, then `CreateActingAs`.
module _ (wenv : WebmailSession.Env) (stored sealed : Bool) (cred : Credentials) where
  unfoldable pub mint_shared :
      Response (String × String)
      → Result String
      → Result String
      → ℕ
      → Sessions
      → Response (String × String × ℕ) × Sessions
  mint_shared (refuse code message) token nonce now s = (refuse code message, s)
  mint_shared (answer (email, pw)) token nonce now s =
      let (r, s') = WebmailSession.mint_session wenv email pw cred.email token nonce now s in
      (elim r [ err e ↦ refuse 500 e | ok (t, expires) ↦ answer (t, email, expires) ], s')

  unfoldable pub open_shared :
      (String → String → Result String)
      → Result ℕ
      → Result String
      → Result String
      → ℕ
      → Conn Tables
      → Sessions
      → Response (String × String × ℕ) × Conn Tables × Sessions
  unfolding shared_credential mint_shared
  open_shared unseal path_id token nonce now c s =
      let (r, c') = shared_credential stored sealed cred unseal path_id c in
      let (r', s') = mint_shared r token nonce now s in (r', c', s')
