-- ===== src/SharedMailbox/Guards.antt =====
-- backend/internal/api/webmail_shared.go: what a handler may rely on once its guards have let it pass.
use mathlib.Core.Option
use mailfold.Prelude.{ℕ, String, ◌≡◌, refl, sym, subst, Bool, Option, none, some}
use mailfold.Sql.Triple.{query-Triple}
use mailfold.Sql.Table.{first}
use mailfold.Http.{Response, refuse, Handler}
use mailfold.Http.Ends.{Ends, deny-Ends, if-Ends, call-Ends}
use mailfold.WebmailSession.{Credentials}
use mailfold.SharedMailbox.Defs.{
  Tables, Mailbox, MailboxRow, scan_mailbox_row, has_email, get_mailbox_by_email,
}
use mailfold.SharedMailbox.Handlers.{with_mailbox, require_shared_session, acting_as, not_shared}

-- The tables are those that the handler has found.
abbrev pub Still : Tables → Tables → Type 0
Still before t = t ≡ before

module _ {B : Type 0} {before : Tables} (Q : Response B → Tables → Type 0) where
  pub refused :
      ((code : ℕ) (message : String) → Q (refuse code message) before)
      → (code : ℕ) (message : String) (t : Tables) → Still before t
      → Q (refuse code message) t
  refused h code message t e = subst (Q (refuse code message)) (sym e) (h code message)

  -- The answer `o` of a query `f` by which a mailbox is looked for.
  pub mailbox-Ends :
      (o : Option MailboxRow) (a : Option Mailbox) (missing : String)
      (k : Mailbox → Handler Tables B)
      → ((code : ℕ) (message : String) → Q (refuse code message) before)
      → ((r : MailboxRow) → o ≡ some r → Ends (Still before) (k (scan_mailbox_row r)) Q)
      → Ends
          (λ t. (a ≡ Option.map scan_mailbox_row o) × Still before t)
          (with_mailbox a missing k)
          Q
  unfolding with_mailbox
  mailbox-Ends none none missing k bad good =
      deny-Ends 404 missing (λ t p. refused bad 404 missing t p.1)
  mailbox-Ends none (some m) missing k bad good = record { runs = λ c p. cc (p.0) }
  mailbox-Ends (some r) none missing k bad good = record { runs = λ c p. cc (p.0) }
  mailbox-Ends (some r) (some m) missing k bad good = record {
    runs = λ c p.
        let e : m ≡ scan_mailbox_row r = cc (p.0) in
        subst (λ m. Q (k m c).0 (k m c).1.tables) (sym e) ((good r refl).runs c p.1);
  }

  pub session-Ends :
      (stored : Bool) (cred : Credentials) (k : Mailbox → String → Handler Tables B)
      → ((code : ℕ) (message : String) → Q (refuse code message) before)
      → ((r : MailboxRow)
          → first (has_email cred.email) before.mailboxes ≡ some r
          → Ends (Still before) (k (scan_mailbox_row r) (acting_as cred)) Q)
      → Ends (Still before) (require_shared_session stored cred k) Q
  unfolding require_shared_session get_mailbox_by_email
  session-Ends stored cred k bad good =
      if-Ends stored
        (λ on.
          call-Ends
            (λ a t.
              (a ≡ Option.map scan_mailbox_row (first (has_email cred.email) before.mailboxes))
              × Still before t)
            (query-Triple before
              (λ t. Option.map scan_mailbox_row (first (has_email cred.email) t.mailboxes))
              (λ t. (e : String) → Q (refuse 500 e) t) (λ e. bad 500 e))
            (λ a.
              mailbox-Ends (first (has_email cred.email) before.mailboxes) a not_shared
                (λ m. k m (acting_as cred)) bad good))
        (λ off. deny-Ends 404 not_shared (refused bad 404 not_shared))
