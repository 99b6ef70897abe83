-- ===== src/SharedMailbox/Assignments.antt =====
-- `handleWebmailSetAssignment` of backend/internal/api/webmail_shared.go: to whom messages are assigned.
use mathlib.Core.Option
use mailfold.Prelude.{
  ℕ, String, ◌≡◌, refl, sym, ◌∙◌, ap, Bool, true, Option, none, some, ◌⊎◌, inl, inr, str_eq, arith,
  eq_iff,
}
use mailfold.Storage.{unix, at}
use mailfold.Sql.{Result, ok, Conn}
use mailfold.Sql.Triple.{query-Triple, known-Triple}
use mailfold.Sql.Table.{first, delete, upsert}
use mailfold.Sql.Rows.{merged, first-delete, first-upsert}
use mailfold.Http.{Response, answer, refuse}
use mailfold.Http.Ends.{Ends, reply-Ends, deny-Ends, if-Ends, call-Ends, body-Ends}
use mailfold.WebmailSession.{Credentials}
use mailfold.SharedMailbox.Defs.{
  Tables, MailboxRow, AssignmentRow, scan_mailbox_row, has_email, is_on, is_membership, is_member,
  is_some_row, set_assignment, clear_assignment,
}
use mailfold.SharedMailbox.Handlers.{
  SetAssignmentRequest, set_assigned, set_assigned_in, assign, acting_as, or_inbox,
}
use mailfold.SharedMailbox.Guards.{Still, session-Ends}

-- What `GetAssignment` reads.
unfoldable pub assignee : ℕ → String → ℕ → Tables → Option String
assignee id folder uid t =
    Option.map (λ (r : AssignmentRow). r.assigned_to) (first (is_on id folder uid) t.assignments)

abbrev pub IsMember : ℕ → String → Tables → Type 0
IsMember id name t = is_some_row (first (is_membership id name) t.members) ≡ true

-- Refused: nothing changes. Answered: in the mailbox of the session, the message is assigned to nobody
-- if the trimmed name is empty, and otherwise to the member of that name; no other table changes.
abbrev pub AssignsMember :
    Credentials
    → (String → String)
    → Result SetAssignmentRequest
    → Tables
    → Response (Unit {0})
    → Tables
    → Type 0
AssignsMember cred trim body before (refuse code message) after = after ≡ before
AssignsMember cred trim body before (answer u) after =
    (req : SetAssignmentRequest) × (m : MailboxRow) × (body ≡ ok req)
    × (first (has_email cred.email) before.mailboxes ≡ some m)
    × (after ≡ record before { assignments = after.assignments })
    × (((trim req.assigned_to ≡ "") × (assignee m.id (or_inbox req.folder) req.uid after ≡ none))
        ⊎ (IsMember m.id (trim req.assigned_to) after
            × (assignee m.id (or_inbox req.folder) req.uid after ≡ some (trim req.assigned_to))))

module _ (id : ℕ) (folder : String) (uid : ℕ) (name who : String) (now : ℕ) where
  assignee-clear :
      (t : Tables)
      → assignee id folder uid
          (record t { assignments = delete (is_on id folder uid) t.assignments })
        ≡ none
  unfolding assignee
  assignee-clear t = rw (first-delete (is_on id folder uid) t.assignments)

  abbrev reassigned : AssignmentRow → AssignmentRow
  reassigned r = record r { assigned_to = name; assigned_by = who; assigned_at = unix (at now) }

  abbrev new_assignment : AssignmentRow
  new_assignment = record {
    mailbox_id = id;
    folder = folder;
    uid = uid;
    assigned_to = name;
    assigned_by = who;
    assigned_at = unix (at now);
  }

  merged_name : (o : Option AssignmentRow) → (merged reassigned new_assignment o).assigned_to ≡ name
  merged_name none = refl
  merged_name (some r) = refl

  assignee-set :
      (t : Tables)
      → assignee id folder uid (record t {
        assignments = upsert (is_on id folder uid) reassigned new_assignment t.assignments;
      })
        ≡ some name
  unfolding assignee is_on
  assignee-set t =
      ap (Option.map (λ (r : AssignmentRow). r.assigned_to)) (
        first-upsert (is_on id folder uid) reassigned new_assignment
          (ground (arith, eq_iff folder folder)) (λ r h. ground (arith, h)) t.assignments)
      ∙ ap some (merged_name (first (is_on id folder uid) t.assignments))

module _ (cred : Credentials) (trim : String → String) (body : Result SetAssignmentRequest)
    (before : Tables) where
  assign-Ends :
      (req : SetAssignmentRequest) (m : MailboxRow) (now : ℕ)
      → body ≡ ok req
      → first (has_email cred.email) before.mailboxes ≡ some m
      → Ends
          (Still before)
          (assign
            (scan_mailbox_row m)
            (acting_as cred)
            (or_inbox req.folder)
            req.uid
            (trim req.assigned_to)
            now)
          (AssignsMember cred trim body before)
  unfolding assign clear_assignment set_assignment is_member scan_mailbox_row
  assign-Ends req m now eb em =
      let folder = or_inbox req.folder in
      let name = trim req.assigned_to in
      let who = acting_as cred in
      if-Ends (str_eq name "")
        (λ empty.
          call-Ends (λ a t. AssignsMember cred trim body before (answer tt) t)
            (known-Triple before
              (λ t.
                (tt, record t { assignments = delete (is_on m.id folder req.uid) t.assignments }))
              (λ a t. AssignsMember cred trim body before (answer tt) t)
              (λ t. (e : String) → t ≡ before)
              (
                req,
                m,
                eb,
                em,
                refl,
                inl (
                  ground (arith, eq_iff name ""),
                  assignee-clear m.id folder req.uid name who now before,
                ),
              )
              (λ e. refl))
            (λ a. reply-Ends a (λ t p. p)))
        (λ named.
          call-Ends
            (λ granted t.
              (granted ≡ is_some_row (first (is_membership m.id name) before.members))
              × Still before t)
            (query-Triple before (λ t. is_some_row (first (is_membership m.id name) t.members))
              (λ t. (e : String) → t ≡ before) (λ e. refl))
            (λ granted.
              if-Ends granted
                (λ fits.
                  call-Ends (λ a t. AssignsMember cred trim body before (answer tt) t)
                    (record {
                      runs = λ c p.
                          (known-Triple before
                              (λ t. (
                                tt,
                                record t {
                                  assignments =
                                      upsert (is_on m.id folder req.uid)
                                        (reassigned m.id folder req.uid name who now)
                                        (new_assignment m.id folder req.uid name who now)
                                        t.assignments;
                                },
                              ))
                              (λ a t. AssignsMember cred trim body before (answer tt) t)
                              (λ t. (e : String) → t ≡ before)
                              (
                                req,
                                m,
                                eb,
                                em,
                                refl,
                                inr (
                                  sym (p.0) ∙ fits,
                                  assignee-set m.id folder req.uid name who now before,
                                ),
                              )
                              (λ e. refl)).runs
                            c p.1;
                    })
                    (λ a. reply-Ends a (λ t p. p)))
                (λ miss.
                  deny-Ends 400 "assigned_to is not a member of this shared mailbox" (λ t p. p.1))))

  -- Whatever errors the driver reports: a request to assign a message succeeds only in a shared mailbox,
  -- and leaves the message assigned to nobody if the name is empty, or else to exactly the name, which
  -- is a member's; tables other than the assignments do not change, and a refusal changes none.
  pub assigns_member :
      (stored : Bool) (now : ℕ) (c : Conn Tables)
      → c.tables ≡ before
      → AssignsMember cred trim body before
          (set_assigned stored cred trim body now c).0
          (set_assigned stored cred trim body now c).1.tables
  unfolding set_assigned set_assigned_in
  assigns_member stored now c e =
      (session-Ends (AssignsMember cred trim body before) stored cred
          (set_assigned_in trim body now) (λ code message. refl)
          (λ m em. body-Ends body (λ e t p. p) (λ req eb. assign-Ends req m now eb em))).runs
        c e
