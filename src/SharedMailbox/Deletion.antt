-- ===== src/SharedMailbox/Deletion.antt =====
-- `DeleteMailbox` of backend/internal/sharedmailbox/store.go: four statements outside a transaction.
use mailfold.Prelude.{
  ℕ, String, ◌≡◌, refl, sym, ap, subst, ◌∙◌, Bool, List, [], ◌∷◌, ◌==◌, Bool-cases, inl, inr,
}
use mailfold.Sql.{ok, err, Conn, statement, ◌>>◌}
use mailfold.Sql.Triple.{Triple, Triple-ok, Triple-err, statement-Triple, bind-Triple}
use mailfold.Sql.Table.{delete}
use mailfold.SharedMailbox.Defs.{
  Tables, MemberRow, AssignmentRow, NoteRow, is_mailbox, delete_mailbox,
}

-- The statements up to one of them, on the tables as they were.
module _ (id : ℕ) where
  abbrev no_members : Tables → Tables
  no_members t = record t { members = delete (λ r. r.mailbox_id == id) t.members }

  abbrev no_assignments : Tables → Tables
  no_assignments t = record t { assignments = delete (λ r. r.mailbox_id == id) t.assignments }

  abbrev no_notes : Tables → Tables
  no_notes t = record t { notes = delete (λ r. r.mailbox_id == id) t.notes }

  -- The tables without the mailbox and all that hangs on it.
  abbrev pub without : Tables → Tables
  without t = record {
    mailboxes = delete (is_mailbox id) t.mailboxes;
    members = delete (λ r. r.mailbox_id == id) t.members;
    assignments = delete (λ r. r.mailbox_id == id) t.assignments;
    notes = delete (λ r. r.mailbox_id == id) t.notes;
  }

  -- What a deletion leaves that stops on an error: the mailbox still stands and can be deleted again.
  abbrev pub Retryable : Tables → Tables → Type 0
  Retryable before after = (after.mailboxes ≡ before.mailboxes) × (without after ≡ without before)

  delete-twice :
      {R : Type 0} (p : R → Bool) (rows : List R) → delete p (delete p rows) ≡ delete p rows
  unfolding delete
  delete-twice p [] = refl
  delete-twice p (r ∷ rows) = elim (Bool-cases (p r)) [
    | inl hit ↦ rw hit (delete-twice p rows)
    | inr miss ↦ rw (miss, miss) (ap (λ l. r ∷ l) (delete-twice p rows))
  ]

  module _ (before : Tables) where
    step-Triple :
        (f : Tables → Tables) (t : Tables)
        → Retryable before t
        → Triple (λ u. u ≡ t) (statement (λ u. (tt, f u))) (λ a u. u ≡ f t) (Retryable before)
    step-Triple f t safe =
        statement-Triple (λ u. u ≡ t) (λ u. (tt, f u)) (λ a u. u ≡ f t) (Retryable before)
          (λ u e. ap f e) (λ u e. subst (Retryable before) (sym e) safe)

    delete-Triple :
        Triple (λ t. t ≡ before) (delete_mailbox id) (λ a t. t ≡ without before) (Retryable before)
    unfolding delete_mailbox ◌>>◌
    delete-Triple =
        let t1 = no_members before in
        let t2 = no_assignments t1 in
        let t3 = no_notes t2 in
        let one = delete-twice (λ (r : MemberRow). r.mailbox_id == id) before.members in
        let two = delete-twice (λ (r : AssignmentRow). r.mailbox_id == id) before.assignments in
        let three = delete-twice (λ (r : NoteRow). r.mailbox_id == id) before.notes in
        bind-Triple (λ a t. t ≡ t3)
          (bind-Triple (λ a t. t ≡ t2)
            (bind-Triple (λ a t. t ≡ t1) (step-Triple no_members before (refl, refl))
              (λ a. step-Triple no_assignments t1 (refl, rw one refl)))
            (λ a. step-Triple no_notes t2 (refl, rw (one, two) refl)))
          (λ a.
            step-Triple (λ t. record t { mailboxes = delete (is_mailbox id) t.mailboxes }) t3
              (refl, rw (one, two, three) refl))

  -- A deletion of a shared mailbox that reports no error has removed from every table exactly the rows
  -- of that mailbox.
  pub delete_whole :
      (c : Conn Tables)
      → (delete_mailbox id c).0 ≡ ok tt
      → (delete_mailbox id c).1.tables ≡ without c.tables
  delete_whole c h = (Triple-ok (delete-Triple c.tables)) c tt refl h

  -- A deletion that reports an error, at whichever of its four statements, has left the table of
  -- mailboxes as it was, and a second one that reports none then removes exactly what the first, had it
  -- gone through, would have removed.
  pub delete_again :
      (c later : Conn Tables) (e : String)
      → (delete_mailbox id c).0 ≡ err e
      → later.tables ≡ (delete_mailbox id c).1.tables
      → (delete_mailbox id later).0 ≡ ok tt
      → ((delete_mailbox id c).1.tables.mailboxes ≡ c.tables.mailboxes)
        × ((delete_mailbox id later).1.tables ≡ without c.tables)
  delete_again c later e failed same done =
      let kept = Triple-err (delete-Triple c.tables) c e refl failed in
      (kept.0, delete_whole later done ∙ ap without same ∙ kept.1)
