-- ===== src/SharedMailbox/Tests.antt =====
-- Concrete runs of the shared mailboxes.
use mathlib.Core.Option
use mailfold.Prelude.{
  ℕ, ◌+◌, ◌*◌, String, ◌≡◌, ◌≢◌, refl, true, false, none, some, List, [], ◌∷◌, map, str_eq, ◌==◌,
  if◌then◌else◌,
}
use mailfold.Storage.{Time, second}
use mailfold.Sql.{Result, ok, err, Conn, statement, continue, attempt, ◌>>=◌, ◌>>◌}
use mailfold.Sql.Table.{first, delete}
use mailfold.Http.{answer, call, proceed, with_body}
use mailfold.WebmailSession
use mailfold.WebmailSession.{Credentials, Sessions, is_backed}
use mailfold.WebmailSession.Contract.{account, opened, unexpired, gets, visit}
use mailfold.WebmailSession.Mint.{minted}
use mailfold.SharedMailbox.Defs.{
  Tables, MailboxRow, scan_mailbox_row, is_mailbox, has_email, is_membership, is_some_row,
  get_mailbox, is_member, delete_mailbox, remove_member,
}
use mailfold.SharedMailbox.Handlers.{
  SetAssignmentRequest, Header, remove_note, set_assigned, shared_credential, shared_credential_at,
  credential_of, credential_if, require_store, with_mailbox, open_shared, enrich_shared,
}
use mailfold.SharedMailbox.Admin.{MemberRequest, withdraw}
use mailfold.SharedMailbox.Notes.{RemovesOwn, remove_own}
use mailfold.SharedMailbox.Assignments.{AssignsMember, assigns_member}
use mailfold.SharedMailbox.Deletion.{without, delete_whole, delete_again}
use mailfold.SharedMailbox.Access.{
  OpensFor, shared_credential-OpensFor, get-open_shared, withdrawn_refused,
}
use mailfold.SharedMailbox.Counts.{shown, enrich_exact}

abbrev team : MailboxRow
team = record {
  id = 1;
  email = "team@example.org";
  display_name = "Team";
  app_passwd_id = "7";
  app_passwd_enc = "pw";
  app_passwd_nonce = "n";
  created_by = "admin";
  created_at = 100;
}

abbrev tables : Tables
tables = record {
  mailboxes = team ∷ [];
  members = (record { mailbox_id = 1; email = "ann@example.org"; added_at = 100 }) ∷ [];
  assignments =
      (record {
        mailbox_id = 1;
        folder = "INBOX";
        uid = 5;
        assigned_to = "ann@example.org";
        assigned_by = "ann@example.org";
        assigned_at = 101;
      })
      ∷ [];
  notes =
      (record {
        id = 3;
        mailbox_id = 1;
        folder = "INBOX";
        uid = 5;
        author_email = "ann@example.org";
        body = "call back";
        created_at = 102;
      })
      ∷ [];
}

abbrev shared : Conn Tables
shared = record { tables = tables; outcome = λ n. none; used = 0 }

-- The second statement fails.
abbrev failing : Conn Tables
failing = record {
  tables = tables;
  outcome = λ n. if n == 1 then some "disk full" else none;
  used = 0;
}

-- Ann in the shared mailbox.
abbrev ann_in_team : Credentials
ann_in_team = record {
  email = "team@example.org";
  password = "pw";
  expires_at = Time.zero_time;
  attempts = 0;
  acting_as = "ann@example.org";
}

abbrev ann : Credentials
ann = record {
  email = "ann@example.org";
  password = "secret";
  expires_at = Time.zero_time;
  attempts = 0;
  acting_as = "";
}

abbrev noon : ℕ
noon = 200 * second

abbrev unseal : String → String → Result String
unseal enc nonce = ok enc

abbrev request : SetAssignmentRequest
request = record { folder = ""; uid = 5; assigned_to = "ann@example.org" }

abbrev leave : MemberRequest
leave = record { mailbox_id = 1; email = "ann@example.org" }

abbrev trim : String → String
trim s = s

remove_own_example :
    RemovesOwn ann_in_team
      (ok 3)
      tables
      (remove_note true ann_in_team (ok 3) shared).0
      (remove_note true ann_in_team (ok 3) shared).1.tables
remove_own_example = remove_own ann_in_team tables true (ok 3) shared refl

assigns_member_example :
    AssignsMember ann_in_team trim
      (ok request)
      tables
      (set_assigned true ann_in_team trim (ok request) noon shared).0
      (set_assigned true ann_in_team trim (ok request) noon shared).1.tables
assigns_member_example = assigns_member ann_in_team trim (ok request) tables true noon shared refl

deleted : (delete_mailbox 1 shared).0 ≡ ok tt
unfolding delete_mailbox statement ◌>>=◌ ◌>>◌ continue attempt delete is_mailbox
deleted = refl

delete_whole_example : (delete_mailbox 1 shared).1.tables ≡ without 1 tables
delete_whole_example = delete_whole 1 shared deleted

stopped : (delete_mailbox 1 failing).0 ≡ err "disk full"
unfolding delete_mailbox statement ◌>>=◌ ◌>>◌ continue attempt delete is_mailbox
stopped = refl

-- The connection of the second attempt.
abbrev retried : Conn Tables
retried = record (delete_mailbox 1 failing).1 { outcome = λ n. none }

retried_ok : (delete_mailbox 1 retried).0 ≡ ok tt
unfolding delete_mailbox statement ◌>>=◌ ◌>>◌ continue attempt delete is_mailbox
retried_ok = refl

delete_again_example :
    ((delete_mailbox 1 failing).1.tables.mailboxes ≡ team ∷ [])
    × ((delete_mailbox 1 retried).1.tables ≡ without 1 tables)
delete_again_example = delete_again 1 failing retried "disk full" stopped refl retried_ok

shared_credential-OpensFor_example :
    OpensFor unseal ann
      (ok 1)
      tables
      (shared_credential true true ann unseal (ok 1) shared).0
      (shared_credential true true ann unseal (ok 1) shared).1.tables
shared_credential-OpensFor_example =
    shared_credential-OpensFor unseal ann tables true true (ok 1) shared refl

granted :
    (shared_credential true true ann unseal (ok 1) shared).0 ≡ answer ("team@example.org", "pw")
unfolding shared_credential shared_credential_at credential_of credential_if require_store
    with_mailbox get_mailbox is_member is_some_row call proceed statement attempt first is_mailbox
    is_membership scan_mailbox_row
granted = refl

-- Stand-ins for SHA-256, AES-GCM and encoding/json on the inputs of the examples.
abbrev wenv : WebmailSession.Env
wenv = record {
  digest = λ token. if str_eq token "shared" then 1 ∷ [] else 2 ∷ [];
  seal = λ plain nonce. plain;
  open_sealed = λ enc nonce. some enc;
  encode_meta = λ who. if str_eq who "" then "{}" else who;
  decode_meta = λ text. if str_eq text "{}" then some "" else some text;
}

abbrev sessions : Sessions
sessions = record {
  ttl = 300 * second;
  kind = "webmail_session";
  m = [];
  has_store = false;
  has_cipher = false;
  conn = record { tables = []; outcome = λ n. none; used = 0 };
}

get-open_shared_example :
    Option.map account
      (visit wenv "shared"
        (gets (noon + second))
        (open_shared wenv true true ann unseal
          (ok 1)
          (ok "shared")
          (ok "n1")
          noon
          shared
          sessions).2).0
    ≡ opened (
        unexpired (noon + second) (
          some (
            minted "team@example.org" "pw" "ann@example.org"
              (noon + 300 * second)
              (is_backed sessions))))
get-open_shared_example =
    get-open_shared wenv true true ann unseal (ok 1) "team@example.org" "pw" "shared" "n1" noon
      (noon + second) shared sessions granted (λ e. cc) (refl, refl, λ e. cc) (λ on n. refl)

withdrawn : (withdraw true true (ok leave) shared).0 ≡ answer tt
unfolding withdraw require_store with_body call proceed remove_member statement attempt
withdrawn = refl

withdrawn_refused_example :
    (shared_credential true true ann unseal (ok 1) (withdraw true true (ok leave) shared).1).0
    ≢ answer ("team@example.org", "pw")
withdrawn_refused_example =
    withdrawn_refused true true (ok leave) leave shared (withdraw true true (ok leave) shared).1
      true true ann unseal ("team@example.org", "pw") refl refl withdrawn refl

abbrev headers : List Header
headers =
    (record { uid = 5; assigned_to = ""; notes_count = 0 })
    ∷ (record { uid = 6; assigned_to = ""; notes_count = 0 })
    ∷ []

team_found : first (has_email "team@example.org") tables.mailboxes ≡ some team
unfolding first has_email
team_found = refl

enrich_exact_example :
    (enrich_shared true ann_in_team "INBOX" headers shared).0 ≡ map (shown 1 "INBOX" tables) headers
enrich_exact_example = enrich_exact ann_in_team "INBOX" headers shared team (λ n. refl) team_found
