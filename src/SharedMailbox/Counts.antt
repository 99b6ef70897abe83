-- ===== src/SharedMailbox/Counts.antt =====
-- `enrichShared` of backend/internal/api/webmail_shared.go: two queries for a whole folder say the same
-- as a look at each message.
use mathlib.Core.Option
use mailfold.Prelude.{
  ℕ, suc, ◌+◌, String, ◌≡◌, refl, ◌∙◌, ap, true, ◌&&◌, Option, none, some, List, [], ◌∷◌, map,
  str_eq, ◌==◌, arith, if◌then◌else◌, inl, inr, Bool-cases,
}
use mailfold.Sql.{Conn, statement}
use mailfold.Sql.Laws.{IsReliable, statement_reliable}
use mailfold.Sql.Table.{first, select, count}
use mailfold.Http.{Response, answer, reply, call, proceed, Handler}
use mailfold.WebmailSession.{Credentials}
use mailfold.SharedMailbox.Defs.{
  Tables, MailboxRow, AssignmentRow, NoteRow, scan_mailbox_row, has_email, is_on, is_note_on,
  group_counts, bump_count, get_mailbox_by_email, assignments_for_folder, note_counts_for_folder,
}
use mailfold.SharedMailbox.Handlers.{
  Header, assigned, counted, fill, enriched, enrich_shared, enrich_with, require_shared_session,
  with_mailbox, enriched_in, acting_as, not_shared,
}

counted-bump :
    (u uid : ℕ) (l : List (ℕ × ℕ))
    → counted uid (bump_count u l) ≡ (if u == uid then 1 else 0) + counted uid l
unfolding counted bump_count
counted-bump u uid [] = ground arith
counted-bump u uid ((v, n) ∷ l) = ground (arith, counted-bump u uid l)

module _ (id : ℕ) (folder : String) (uid : ℕ) where
  -- GROUP BY counts each message's notes.
  counted-notes :
      (rows : List NoteRow)
      → counted uid
          (group_counts (select (λ r. (r.mailbox_id == id) && str_eq r.folder folder) rows))
        ≡ count (is_note_on id folder uid) rows
  unfolding group_counts select count is_note_on counted
  counted-notes [] = refl
  counted-notes (r ∷ rows) = elim (Bool-cases ((r.mailbox_id == id) && str_eq r.folder folder)) [
    | inl hit ↦ rw hit (
        counted-bump r.uid uid
          (group_counts (select (λ r. (r.mailbox_id == id) && str_eq r.folder folder) rows))
        ∙ ground (arith, counted-notes rows))
    | inr miss ↦ rw miss (ground (arith, counted-notes rows))
  ]

  -- The name on a message, empty if there is none.
  unfoldable pub name_on : Option AssignmentRow → String
  name_on none = ""
  name_on (some r) = r.assigned_to

  assigned-rows :
      (rows : List AssignmentRow)
      → assigned uid (
          map
            (λ (r : AssignmentRow). (r.uid, r.assigned_to))
            (select (λ r. (r.mailbox_id == id) && str_eq r.folder folder) rows))
        ≡ name_on (first (is_on id folder uid) rows)
  unfolding assigned select first is_on name_on
  assigned-rows [] = refl
  assigned-rows (r ∷ rows) = elim (Bool-cases ((r.mailbox_id == id) && str_eq r.folder folder)) [
    | inl hit ↦ rw hit (ground (arith, assigned-rows rows))
    | inr miss ↦ rw miss (ground (arith, assigned-rows rows))
  ]

-- A list entry with the message's assignee and the number of its notes.
unfoldable pub shown : ℕ → String → Tables → Header → Header
shown id folder t h = record h {
  assigned_to = name_on id folder h.uid (first (is_on id folder h.uid) t.assignments);
  notes_count = count (is_note_on id folder h.uid) t.notes;
}

module _ {T A B : Type 0} where
  -- A query that the driver answers.
  call_query :
      (f : T → A) (k : A → Handler T B) (c : Conn T)
      → IsReliable c
      → call (statement (λ t. (f t, t))) k c ≡ k (f c.tables) (record c { used = suc c.used })
  unfolding call proceed
  call_query f k c r = rw (statement_reliable (λ t. (f t, t)) c r) refl

fill-shown :
    (id : ℕ) (folder : String) (t : Tables) (h : Header)
    → fill
        (map
          (λ (r : AssignmentRow). (r.uid, r.assigned_to))
          (select (λ r. (r.mailbox_id == id) && str_eq r.folder folder) t.assignments))
        (group_counts (select (λ r. (r.mailbox_id == id) && str_eq r.folder folder) t.notes))
        h
      ≡ shown id folder t h
unfolding fill shown
fill-shown id folder t h =
    rw (assigned-rows id folder h.uid t.assignments, counted-notes id folder h.uid t.notes) refl

map-same : {A B : Type 0} (f g : A → B) → ((a : A) → f a ≡ g a) → (l : List A) → map f l ≡ map g l
map-same f g e [] = refl
map-same f g e (x ∷ l) = rw (e x, map-same f g e l) refl

module _ (cred : Credentials) (folder : String) where
  enriched_in-shown :
      (headers : List Header) (m : MailboxRow) (c : Conn Tables)
      → IsReliable c
      → (enriched_in folder headers (scan_mailbox_row m) (acting_as cred) c).0
        ≡ answer (map (shown m.id folder c.tables) headers)
  unfolding enriched_in assignments_for_folder note_counts_for_folder scan_mailbox_row
  enriched_in-shown headers m c r =
      let c1 : Conn Tables = record c { used = suc c.used } in
      let found =
        map (λ (r : AssignmentRow). (r.uid, r.assigned_to))
          (select (λ r. (r.mailbox_id == m.id) && str_eq r.folder folder) c.tables.assignments) in
      ap (λ (p : Response (List Header) × Conn Tables). p.0)
        (call_query _ _ c r ∙ call_query _ (λ counts. reply (map (fill found counts) headers)) c1 r)
      ∙ ap answer (map-same _ _ (fill-shown m.id folder c.tables) headers)

  -- In a shared mailbox, while the driver reports no error, every entry of a folder's list is shown
  -- with the assignee that stands in the assignments of its message and with the number of that
  -- message's notes.
  pub enrich_exact :
      (headers : List Header) (c : Conn Tables) (m : MailboxRow)
      → IsReliable c
      → first (has_email cred.email) c.tables.mailboxes ≡ some m
      → (enrich_shared true cred folder headers c).0 ≡ map (shown m.id folder c.tables) headers
  unfolding enrich_shared enriched require_shared_session get_mailbox_by_email with_mailbox
      enrich_with
  enrich_exact headers c m r em =
      let c1 : Conn Tables = record c { used = suc c.used } in
      let got =
        call_query (λ t. Option.map scan_mailbox_row (first (has_email cred.email) t.mailboxes))
          (λ o. with_mailbox o not_shared (λ m. enriched_in folder headers m (acting_as cred))) c
          r in
      ap (λ (p : Response (List Header) × Conn Tables). enrich_with p.0 headers) (got ∙ found)
      ∙ ap (λ a. enrich_with a headers) (enriched_in-shown headers m c1 r)
    where
      found :
          with_mailbox
            (Option.map scan_mailbox_row (first (has_email cred.email) c.tables.mailboxes))
            not_shared
            (λ m. enriched_in folder headers m (acting_as cred))
            (record c { used = suc c.used })
          ≡ enriched_in folder headers
              (scan_mailbox_row m)
              (acting_as cred)
              (record c { used = suc c.used })
      found = rw em refl
