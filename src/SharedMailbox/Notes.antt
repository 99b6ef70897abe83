-- ===== src/SharedMailbox/Notes.antt =====
-- `handleWebmailDeleteNote` and `handleWebmailSetAssignment` of backend/internal/api/webmail_shared.go:
-- whose notes are deleted, and to whom messages are assigned.
use mathlib.Core.Option
use mailfold.Prelude.{
  ℕ, String, ◌≡◌, refl, sym, ◌∙◌, ap, Bool, not, Option, none, some, map-some, str_eq, ◌==◌, arith,
  eq_iff,
}
use mailfold.Sql.{Result, ok, Conn}
use mailfold.Sql.Triple.{query-Triple, known-Triple}
use mailfold.Sql.Table.{first, delete}
use mailfold.Http.{Response, answer, refuse, reply, call}
use mailfold.Http.Ends.{Ends, reply-Ends, deny-Ends, if-Ends, call-Ends, body-Ends}
use mailfold.WebmailSession.{Credentials}
use mailfold.SharedMailbox.Defs.{
  Tables, MailboxRow, NoteRow, Note, scan_mailbox_row, scan_note, has_email, is_note, get_note,
  delete_note,
}
use mailfold.SharedMailbox.Handlers.{
  with_note, remove_note, remove_note_in, remove_found, acting_as,
}
use mailfold.SharedMailbox.Guards.{Still, session-Ends}

-- Refused: nothing changes. Answered: the note that is named stands in the mailbox of the session and
-- was written by whom the session acts as, and it alone is gone.
abbrev pub RemovesOwn : Credentials → Result ℕ → Tables → Response (Unit {0}) → Tables → Type 0
RemovesOwn cred body before (refuse code message) after = after ≡ before
RemovesOwn cred body before (answer u) after =
    (id : ℕ) × (n : NoteRow) × (m : MailboxRow) × (body ≡ ok id)
    × (first (is_note id) before.notes ≡ some n)
    × (first (has_email cred.email) before.mailboxes ≡ some m)
    × (n.mailbox_id ≡ m.id)
    × (n.author_email ≡ acting_as cred)
    × (after ≡ record before { notes = delete (is_note id) before.notes })

module _ (cred : Credentials) (before : Tables) where
  delete-Ends :
      (body : Result ℕ) (m : MailboxRow) (id : ℕ) (n : NoteRow)
      → body ≡ ok id
      → first (has_email cred.email) before.mailboxes ≡ some m
      → first (is_note id) before.notes ≡ some n
      → n.mailbox_id ≡ m.id
      → n.author_email ≡ acting_as cred
      → Ends (Still before) (call (delete_note id) reply) (RemovesOwn cred body before)
  unfolding delete_note
  delete-Ends body m id n e em en same author =
      call-Ends (λ a t. t ≡ record before { notes = delete (is_note id) before.notes })
        (known-Triple before (λ t. (tt, record t { notes = delete (is_note id) t.notes }))
          (λ a t. t ≡ record before { notes = delete (is_note id) before.notes })
          (λ t. (e : String) → t ≡ before) refl (λ e. refl))
        (λ a. reply-Ends a (λ t p. (id, n, m, e, en, em, same, author, p)))

  note-Ends :
      (body : Result ℕ) (m : MailboxRow) (id : ℕ) (o : Option Note)
      → body ≡ ok id
      → first (has_email cred.email) before.mailboxes ≡ some m
      → Ends
          (λ t. (o ≡ Option.map scan_note (first (is_note id) before.notes)) × Still before t)
          (with_note o (remove_found id (scan_mailbox_row m) (acting_as cred)))
          (RemovesOwn cred body before)
  unfolding with_note remove_found scan_note scan_mailbox_row
  note-Ends body m id none e em = deny-Ends 404 "not found" (λ t p. p.1)
  note-Ends body m id (some n) e em = record {
    runs = λ c p.
        let (r, here, same) = map-some scan_note (first (is_note id) before.notes) n (sym (p.0)) in
        (if-Ends {P = Still before} {Q = RemovesOwn cred body before} (not (n.mailbox_id == m.id))
            (λ other. deny-Ends 404 "not found" (λ t p. p))
            (λ inside.
              if-Ends (not (str_eq n.author_email (acting_as cred)))
                (λ foreign. deny-Ends 403 "only the author can delete this note" (λ t p. p))
                (λ own.
                  delete-Ends body m id r e em here
                    (let inside' : n.mailbox_id ≡ m.id = ground arith in
                      ap (λ (n : Note). n.mailbox_id) same ∙ inside')
                    (let own' : n.author_email ≡ acting_as cred =
                        ground (arith, eq_iff n.author_email (acting_as cred)) in
                      ap (λ (n : Note). n.author_email) same ∙ own')))).runs
          c p.1;
  }

  -- A request to delete a note succeeds only for a note of the session's own mailbox that was written by
  -- whom the session acts as, and then deletes the rows of that id and nothing else; every refusal,
  -- an error of the driver at any statement included, leaves all tables as they were.
  pub remove_own :
      (stored : Bool) (body : Result ℕ) (c : Conn Tables)
      → c.tables ≡ before
      → RemovesOwn cred body before
          (remove_note stored cred body c).0
          (remove_note stored cred body c).1.tables
  unfolding remove_note remove_note_in get_note
  remove_own stored body c e =
      (session-Ends (RemovesOwn cred body before) stored cred (remove_note_in body)
          (λ code message. refl)
          (λ m em.
            body-Ends body (λ e t p. p)
              (λ id eb.
                call-Ends
                  (λ o t.
                    (o ≡ Option.map scan_note (first (is_note id) before.notes)) × Still before t)
                  (query-Triple before (λ t. Option.map scan_note (first (is_note id) t.notes))
                    (λ t. (e : String) → t ≡ before) (λ e. refl))
                  (λ o. note-Ends body m id o eb em)))).runs
        c e
