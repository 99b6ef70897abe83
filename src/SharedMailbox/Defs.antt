-- ===== src/SharedMailbox/Defs.antt =====
-- backend/internal/sharedmailbox/store.go: the shared mailboxes, their members, and the assignments and
-- notes on their messages. ORDER BY and the ids that a table assigns are parameters. Opening the
-- database and creating the tables are not modelled.
use mailfold.Prelude.{
  ℕ, ◌+◌, String, Bool, true, false, ◌&&◌, Option, none, some, List, [], ◌∷◌, ◌++◌, map, str_eq,
  ◌==◌, if◌then◌else◌,
}
use mathlib.Core.Option
use mailfold.Storage.{Time, at, unix, from_unix}
use mailfold.Sql.{Result, ok, err, Sql, pure, statement, ◌>>=◌, ◌>>◌}
use mailfold.Sql.Table.{select, first, delete, upsert}

-- The rows of the four tables; instants are unix seconds.
pub record MailboxRow : Type 0 where
  pub id : ℕ
  pub email : String
  pub display_name : String
  pub app_passwd_id : String
  pub app_passwd_enc : String
  pub app_passwd_nonce : String
  pub created_by : String
  pub created_at : ℕ

pub record MemberRow : Type 0 where
  pub mailbox_id : ℕ
  pub email : String
  pub added_at : ℕ

pub record AssignmentRow : Type 0 where
  pub mailbox_id : ℕ
  pub folder : String
  pub uid : ℕ
  pub assigned_to : String
  pub assigned_by : String
  pub assigned_at : ℕ

pub record NoteRow : Type 0 where
  pub id : ℕ
  pub mailbox_id : ℕ
  pub folder : String
  pub uid : ℕ
  pub author_email : String
  pub body : String
  pub created_at : ℕ

pub record Tables : Type 0 where
  pub mailboxes : List MailboxRow
  pub members : List MemberRow
  pub assignments : List AssignmentRow
  pub notes : List NoteRow

pub record Mailbox : Type 0 where
  pub id : ℕ
  pub email : String
  pub display_name : String
  pub app_passwd_id : String
  pub app_passwd_enc : String
  pub app_passwd_nonce : String
  pub created_by : String
  pub created_at : Time

pub record Note : Type 0 where
  pub id : ℕ
  pub mailbox_id : ℕ
  pub folder : String
  pub uid : ℕ
  pub author_email : String
  pub body : String
  pub created_at : Time

-- The orders of the queries, and LastInsertId of the next row.
pub record Env : Type 0 where
  pub newest_first : List MailboxRow → List MailboxRow
  pub by_name : List String → List String
  pub oldest_first : List NoteRow → List NoteRow
  pub next_id : List ℕ → ℕ

unfoldable pub scan_mailbox_row : MailboxRow → Mailbox
scan_mailbox_row r = record {
  id = r.id;
  email = r.email;
  display_name = r.display_name;
  app_passwd_id = r.app_passwd_id;
  app_passwd_enc = r.app_passwd_enc;
  app_passwd_nonce = r.app_passwd_nonce;
  created_by = r.created_by;
  created_at = from_unix r.created_at;
}

unfoldable pub scan_note : NoteRow → Note
scan_note r = record {
  id = r.id;
  mailbox_id = r.mailbox_id;
  folder = r.folder;
  uid = r.uid;
  author_email = r.author_email;
  body = r.body;
  created_at = from_unix r.created_at;
}

unfoldable pub is_mailbox : ℕ → MailboxRow → Bool
is_mailbox id r = r.id == id

unfoldable pub has_email : String → MailboxRow → Bool
has_email email r = str_eq r.email email

unfoldable pub is_membership : ℕ → String → MemberRow → Bool
is_membership id member r = (r.mailbox_id == id) && str_eq r.email member

unfoldable pub is_on : ℕ → String → ℕ → AssignmentRow → Bool
is_on id folder uid r = (r.mailbox_id == id) && (str_eq r.folder folder && (r.uid == uid))

unfoldable pub is_note_on : ℕ → String → ℕ → NoteRow → Bool
is_note_on id folder uid r = (r.mailbox_id == id) && (str_eq r.folder folder && (r.uid == uid))

unfoldable pub is_note : ℕ → NoteRow → Bool
is_note id r = r.id == id

abbrev unique_failed : String
unique_failed = "UNIQUE constraint failed"

-- email TEXT NOT NULL UNIQUE
unfoldable pub insert_mailbox : MailboxRow → Tables → Result ℕ × Tables
insert_mailbox r t = elim (first (has_email r.email) t.mailboxes) [
  | none ↦ (ok r.id, record t { mailboxes = t.mailboxes ++ r ∷ [] })
  | some x ↦ (err unique_failed, t)
]

unfoldable pub get_mailbox : ℕ → Sql Tables (Option Mailbox)
unfolding scan_mailbox_row
get_mailbox id =
    statement (λ t. (Option.map scan_mailbox_row (first (is_mailbox id) t.mailboxes), t))

unfoldable pub get_mailbox_by_email : String → Sql Tables (Option Mailbox)
unfolding scan_mailbox_row
get_mailbox_by_email email =
    statement (λ t. (Option.map scan_mailbox_row (first (has_email email) t.mailboxes), t))

unfoldable pub is_some_row : {A : Type 0} → Option A → Bool
is_some_row none = false
is_some_row (some a) = true

-- id IN (SELECT mailbox_id … WHERE email = ?)
unfoldable pub is_offered : List MemberRow → String → MailboxRow → Bool
unfolding is_some_row
is_offered members member r = is_some_row (first (is_membership r.id member) members)

-- One DELETE for each table, the mailbox itself last.
unfoldable pub delete_mailbox : ℕ → Sql Tables (Unit {0})
delete_mailbox id =
    statement (λ t. (tt, record t { members = delete (λ r. r.mailbox_id == id) t.members }))
    >> statement
        (λ t. (tt, record t { assignments = delete (λ r. r.mailbox_id == id) t.assignments }))
    >> statement (λ t. (tt, record t { notes = delete (λ r. r.mailbox_id == id) t.notes }))
    >> statement (λ t. (tt, record t { mailboxes = delete (is_mailbox id) t.mailboxes }))

-- ON CONFLICT(mailbox_id, email) DO UPDATE SET added_at
unfoldable pub add_member : ℕ → String → ℕ → Sql Tables (Unit {0})
add_member id member now = statement (λ t. (
  tt,
  record t {
    members =
        upsert (is_membership id member) (λ r. record r { added_at = unix (at now) })
          (record { mailbox_id = id; email = member; added_at = unix (at now) }) t.members;
  },
))

unfoldable pub remove_member : ℕ → String → Sql Tables (Unit {0})
remove_member id member =
    statement (λ t. (tt, record t { members = delete (is_membership id member) t.members }))

unfoldable pub is_member : ℕ → String → Sql Tables Bool
unfolding is_some_row
is_member id member = statement (λ t. (is_some_row (first (is_membership id member) t.members), t))

-- ON CONFLICT(mailbox_id, folder, uid) DO UPDATE
unfoldable pub set_assignment : ℕ → String → ℕ → String → String → ℕ → Sql Tables (Unit {0})
set_assignment id folder uid assigned_to assigned_by now = statement (λ t. (
  tt,
  record t {
    assignments =
        upsert (is_on id folder uid)
          (λ r. record r {
            assigned_to = assigned_to;
            assigned_by = assigned_by;
            assigned_at = unix (at now);
          })
          (record {
            mailbox_id = id;
            folder = folder;
            uid = uid;
            assigned_to = assigned_to;
            assigned_by = assigned_by;
            assigned_at = unix (at now);
          })
          t.assignments;
  },
))

unfoldable pub clear_assignment : ℕ → String → ℕ → Sql Tables (Unit {0})
clear_assignment id folder uid =
    statement (λ t. (tt, record t { assignments = delete (is_on id folder uid) t.assignments }))

unfoldable pub get_assignment : ℕ → String → ℕ → Sql Tables (Option String)
get_assignment id folder uid = statement (λ t. (
  Option.map (λ (r : AssignmentRow). r.assigned_to) (first (is_on id folder uid) t.assignments),
  t,
))

unfoldable pub assignments_for_folder : ℕ → String → Sql Tables (List (ℕ × String))
assignments_for_folder id folder = statement (λ t. (
  map (λ (r : AssignmentRow). (r.uid, r.assigned_to))
      (select (λ r. (r.mailbox_id == id) && str_eq r.folder folder) t.assignments),
  t,
))

unfoldable pub get_note : ℕ → Sql Tables (Option Note)
unfolding scan_note
get_note id = statement (λ t. (Option.map scan_note (first (is_note id) t.notes), t))

unfoldable pub delete_note : ℕ → Sql Tables (Unit {0})
delete_note id = statement (λ t. (tt, record t { notes = delete (is_note id) t.notes }))

-- GROUP BY uid
unfoldable pub bump_count : ℕ → List (ℕ × ℕ) → List (ℕ × ℕ)
bump_count uid [] = (uid, 1) ∷ []
bump_count uid ((u, n) ∷ counts) =
    let rest = bump_count uid counts in if u == uid then (u, n + 1) ∷ counts else (u, n) ∷ rest

unfoldable pub group_counts : List NoteRow → List (ℕ × ℕ)
group_counts [] = []
group_counts (r ∷ rs) = bump_count r.uid (group_counts rs)

unfoldable pub note_counts_for_folder : ℕ → String → Sql Tables (List (ℕ × ℕ))
unfolding group_counts bump_count
note_counts_for_folder id folder =
    statement (λ t.
      (group_counts (select (λ r. (r.mailbox_id == id) && str_eq r.folder folder) t.notes), t))

module _ (env : Env) where
  open env use {newest_first, by_name, oldest_first, next_id}

  unfoldable pub new_mailbox_row : Mailbox → ℕ → ℕ → MailboxRow
  new_mailbox_row m now id = record {
    id = id;
    email = m.email;
    display_name = m.display_name;
    app_passwd_id = m.app_passwd_id;
    app_passwd_enc = m.app_passwd_enc;
    app_passwd_nonce = m.app_passwd_nonce;
    created_by = m.created_by;
    created_at = unix (at now);
  }

  -- INSERT, then LastInsertId
  unfoldable pub create_mailbox : Mailbox → ℕ → Sql Tables ℕ
  unfolding insert_mailbox new_mailbox_row
  create_mailbox m now = do
    r ←
        statement
          (λ t. insert_mailbox (new_mailbox_row m now (next_id (map (λ r. r.id) t.mailboxes))) t)
    id ← (λ c. (r, c))
    statement (λ t. (id, t))

  unfoldable pub list_mailboxes : Sql Tables (List Mailbox)
  unfolding scan_mailbox_row
  list_mailboxes = statement (λ t. (map scan_mailbox_row (newest_first t.mailboxes), t))

  unfoldable pub mailboxes_for_member : String → Sql Tables (List Mailbox)
  unfolding scan_mailbox_row is_offered
  mailboxes_for_member member = statement (λ t.
      (map scan_mailbox_row (newest_first (select (is_offered t.members member) t.mailboxes)), t))

  unfoldable pub list_members : ℕ → Sql Tables (List String)
  list_members id = statement (λ t.
      (by_name (map (λ (r : MemberRow). r.email) (select (λ r. r.mailbox_id == id) t.members)), t))

  -- INSERT, then LastInsertId
  unfoldable pub add_note : ℕ → String → ℕ → String → String → ℕ → Sql Tables Note
  add_note mailbox_id folder uid author body now = do
    id ← statement (λ t.
        let id = next_id (map (λ r. r.id) t.notes) in
        let row : NoteRow = record {
          id = id;
          mailbox_id = mailbox_id;
          folder = folder;
          uid = uid;
          author_email = author;
          body = body;
          created_at = unix (at now);
        } in
        (id, record t { notes = t.notes ++ row ∷ [] }))
    id' ← statement (λ t. (id, t))
    pure (record {
      id = id';
      mailbox_id = mailbox_id;
      folder = folder;
      uid = uid;
      author_email = author;
      body = body;
      created_at = at now;
    })

  unfoldable pub list_notes : ℕ → String → ℕ → Sql Tables (List Note)
  unfolding scan_note
  list_notes id folder uid =
      statement (λ t. (map scan_note (oldest_first (select (is_note_on id folder uid) t.notes)), t))
