-- ===== src/SharedMailbox/Access.antt =====
-- `handleWebmailSharedSession` of backend/internal/api/webmail_shared.go: who may act in a shared
-- mailbox, and as whom.
use mathlib.Core.Option
use mailfold.Prelude.{
  ℕ, ◌+◌, String, ◌≡◌, ◌≢◌, refl, sym, ◌∙◌, ap, subst, Bool, true, false, some, str_eq, ◌==◌, ◌&&◌,
  ◌||◌,
}
use mailfold.Sql.{Result, ok, err, Conn}
use mailfold.Sql.Triple.{query-Triple, known-Triple}
use mailfold.Sql.Table.{first, delete}
use mailfold.Sql.Rows.{first-delete}
use mailfold.Http.{Response, answer, refuse, reply}
use mailfold.Http.Ends.{Ends, reply-Ends, deny-Ends, if-Ends, call-Ends, body-Ends}
use mailfold.WebmailSession
use mailfold.WebmailSession.{Credentials, Sessions, is_backed}
use mailfold.WebmailSession.Contract.{account, opened, unexpired, CanAnswer, gets, visit}
use mailfold.WebmailSession.Mint.{minted, Codec, get-mint}
use mailfold.SharedMailbox.Defs.{
  Tables, MailboxRow, scan_mailbox_row, is_mailbox, is_membership, is_member, is_some_row,
  get_mailbox, remove_member,
}
use mailfold.SharedMailbox.Handlers.{
  require_store, shared_credential, shared_credential_at, credential_of, credential_if, mint_shared,
  open_shared, not_configured,
}
use mailfold.SharedMailbox.Admin.{MemberRequest, withdraw}
use mailfold.SharedMailbox.Guards.{Still, mailbox-Ends}
use mailfold.SharedMailbox.Assignments.{IsMember}

-- Nothing changes. Answered: the mailbox of the id in the path exists, the caller is among its members,
-- and the answer is its address with the password that its credential opens to.
abbrev pub OpensFor :
    (String → String → Result String)
    → Credentials
    → Result ℕ
    → Tables
    → Response (String × String)
    → Tables
    → Type 0
OpensFor unseal cred path_id before (refuse code message) after = after ≡ before
OpensFor unseal cred path_id before (answer (email, pw)) after =
    (id : ℕ) × (m : MailboxRow) × (path_id ≡ ok id)
    × (first (is_mailbox id) before.mailboxes ≡ some m)
    × IsMember id cred.email before
    × (m.email ≡ email)
    × (unseal m.app_passwd_enc m.app_passwd_nonce ≡ ok pw)
    × (after ≡ before)

module _ (unseal : String → String → Result String) (cred : Credentials) (before : Tables) where
  credential-Ends :
      (path_id : Result ℕ) (id : ℕ) (m : MailboxRow) (granted : Bool)
      → path_id ≡ ok id
      → first (is_mailbox id) before.mailboxes ≡ some m
      → Ends
          (λ t.
            (granted ≡ is_some_row (first (is_membership id cred.email) before.members))
            × Still before t)
          (credential_if unseal (scan_mailbox_row m) granted)
          (OpensFor unseal cred path_id before)
  unfolding credential_if scan_mailbox_row
  credential-Ends path_id id m granted ei em =
      if-Ends granted (λ fits. opening (unseal m.app_passwd_enc m.app_passwd_nonce) refl fits)
        (λ miss. deny-Ends 403 "you do not have access to this shared mailbox" (λ t p. p.1))
    where
      opening :
          (r : Result String)
          → unseal m.app_passwd_enc m.app_passwd_nonce ≡ r
          → granted ≡ true
          → Ends
              (λ t.
                (granted ≡ is_some_row (first (is_membership id cred.email) before.members))
                × Still before t)
              (elim r [ err e ↦ (λ c. (refuse 500 e, c)) | ok pw ↦ reply (m.email, pw) ])
              (OpensFor unseal cred path_id before)
      opening (err e) eu fits = deny-Ends 500 e (λ t p. p.1)
      opening (ok pw) eu fits =
          reply-Ends (m.email, pw) (λ t p. (id, m, ei, em, sym (p.0) ∙ fits, refl, eu, p.1))

  -- The credential of a shared mailbox is handed to a session only if the mailbox exists and the
  -- session's own address is among its members, whatever errors the driver reports.
  pub shared_credential-OpensFor :
      (stored sealed : Bool) (path_id : Result ℕ) (c : Conn Tables)
      → c.tables ≡ before
      → OpensFor unseal cred path_id before
          (shared_credential stored sealed cred unseal path_id c).0
          (shared_credential stored sealed cred unseal path_id c).1.tables
  unfolding shared_credential shared_credential_at credential_of require_store get_mailbox is_member
  shared_credential-OpensFor stored sealed path_id c e =
      ((if-Ends {P = Still before} {Q = OpensFor unseal cred path_id before} (stored && sealed)
          (λ on. body path_id refl) (λ off. deny-Ends 501 not_configured (λ t p. p)))).runs
        c e
    where
      body :
          (r : Result ℕ)
          → path_id ≡ r
          → Ends
              (Still before)
              (shared_credential_at cred unseal r)
              (OpensFor unseal cred path_id before)
      body (err e) ei = deny-Ends 400 "invalid id" (λ t p. p)
      body (ok id) ei =
          call-Ends
            (λ a t.
              (a ≡ Option.map scan_mailbox_row (first (is_mailbox id) before.mailboxes))
              × Still before t)
            (query-Triple before
              (λ t. Option.map scan_mailbox_row (first (is_mailbox id) t.mailboxes))
              (λ t. (e : String) → t ≡ before) (λ e. refl))
            (λ a.
              mailbox-Ends (OpensFor unseal cred path_id before)
                (first (is_mailbox id) before.mailboxes) a "not found"
                (credential_of cred unseal id) (λ code message. refl)
                (λ m em.
                  call-Ends
                    (λ granted t.
                      (granted ≡ is_some_row (first (is_membership id cred.email) before.members))
                      × Still before t)
                    (query-Triple before
                      (λ t. is_some_row (first (is_membership id cred.email) t.members))
                      (λ t. (e : String) → t ≡ before) (λ e. refl))
                    (λ granted. credential-Ends path_id id m granted ei em)))

module _ (wenv : WebmailSession.Env) (stored sealed : Bool) (cred : Credentials)
    (unseal : String → String → Result String) (path_id : Result ℕ) where
  open_shared-minted :
      (email pw token nonce : String) (now : ℕ) (c : Conn Tables) (s : Sessions)
      → (shared_credential stored sealed cred unseal path_id c).0 ≡ answer (email, pw)
      → (open_shared wenv stored sealed cred unseal path_id (ok token) (ok nonce) now c s).2
        ≡ (WebmailSession.mint_session wenv email pw cred.email (ok token) (ok nonce) now s).1
  unfolding open_shared mint_shared
  open_shared-minted email pw token nonce now c s h = rw h refl

  -- The token of an activated shared mailbox shows, until its expiry, the address and password that
  -- were handed out, and the caller's own address as the one acting: while AES-GCM and encoding/json
  -- read back what they have written, the token is not empty and an attached table answers.
  pub get-open_shared :
      (email pw token nonce : String) (now t : ℕ) (c : Conn Tables) (s : Sessions)
      → (shared_credential stored sealed cred unseal path_id c).0 ≡ answer (email, pw)
      → token ≢ ""
      → Codec wenv email pw cred.email token nonce now s
      → CanAnswer s
      → Option.map account
          (visit wenv token
            (gets t)
            (open_shared wenv stored sealed cred unseal path_id (ok token) (ok nonce) now c s).2).0
        ≡ opened (unexpired t (some (minted email pw cred.email (now + s.ttl) (is_backed s))))
  get-open_shared email pw token nonce now t c s h named codec r =
      ap (λ s'. Option.map account (visit wenv token (gets t) s').0)
        (open_shared-minted email pw token nonce now c s h)
      ∙ get-mint wenv email pw cred.email token nonce now s t named codec r

-- Refused: nothing changes. Answered: the membership that is named is gone, and nothing else.
abbrev pub Withdraws : Result MemberRequest → Tables → Response (Unit {0}) → Tables → Type 0
Withdraws body before (refuse code message) after = after ≡ before
Withdraws body before (answer u) after =
    (req : MemberRequest) × (body ≡ ok req)
    × (after ≡ record before {
      members = delete (is_membership req.mailbox_id req.email) before.members;
    })

module _ (stored sealed : Bool) (body : Result MemberRequest) where
  withdraws :
      (before : Tables) (c : Conn Tables)
      → c.tables ≡ before
      → Withdraws body before
          (withdraw stored sealed body c).0
          (withdraw stored sealed body c).1.tables
  unfolding withdraw require_store remove_member
  withdraws before c e =
      (if-Ends {P = Still before} {Q = Withdraws body before} (stored && sealed)
          (λ on.
            body-Ends body (λ e t p. p)
              (λ req eb.
                if-Ends ((req.mailbox_id == 0) || str_eq req.email "")
                  (λ missing. deny-Ends 400 "mailbox_id and email are required" (λ t p. p))
                  (λ given.
                    call-Ends (λ a t. Withdraws body before (answer tt) t)
                      (known-Triple before
                        (λ t. (
                          tt,
                          record t {
                            members = delete (is_membership req.mailbox_id req.email) t.members;
                          },
                        ))
                        (λ a t. Withdraws body before (answer tt) t)
                        (λ t. (e : String) → t ≡ before) (req, eb, refl) (λ e. refl))
                      (λ a. reply-Ends a (λ t p. p)))))
          (λ off. deny-Ends 501 not_configured (λ t p. p))).runs
        c e

  -- Once the administrator's request to withdraw a membership is answered, no session of that address
  -- is handed the mailbox's credential, on any connection that sees the tables.
  pub withdrawn_refused :
      (req : MemberRequest) (c later : Conn Tables) (still_stored still_sealed : Bool)
      (cred : Credentials) (unseal : String → String → Result String) (x : String × String)
      → body ≡ ok req
      → cred.email ≡ req.email
      → (withdraw stored sealed body c).0 ≡ answer tt
      → later.tables ≡ (withdraw stored sealed body c).1.tables
      → (shared_credential still_stored still_sealed cred unseal (ok req.mailbox_id) later).0
        ≢ answer x
  unfolding is_some_row
  withdrawn_refused req c later still_stored still_sealed cred unseal x eb ee done same opened_up =
      let gone =
        subst (λ r. Withdraws body c.tables r (withdraw stored sealed body c).1.tables) done
          (withdraws c.tables c refl) in
      let open_to =
        subst
          (λ r.
            OpensFor unseal cred (ok req.mailbox_id) later.tables r
              (shared_credential still_stored still_sealed cred unseal (ok req.mailbox_id)
                later).1.tables)
          opened_up
          (shared_credential-OpensFor unseal cred later.tables still_stored still_sealed
            (ok req.mailbox_id) later refl) in
      refuted (gone.0) (sym eb ∙ gone.1) (gone.2) (open_to.0) (open_to.2) (open_to.4)
    where
      refuted :
          (req' : MemberRequest)
          → ok req ≡ ok req'
          → (withdraw stored sealed body c).1.tables ≡ record c.tables {
            members = delete (is_membership req'.mailbox_id req'.email) c.tables.members;
          }
          → (id : ℕ) → ok req.mailbox_id ≡ ok id
          → is_some_row (first (is_membership id cred.email) later.tables.members) ≡ true
          → ⊥
      refuted req' er et id ei member =
          let id_same : id ≡ req'.mailbox_id = cc in
          let email_same : cred.email ≡ req'.email = cc in
          let rows : later.tables.members
              ≡ delete (is_membership req'.mailbox_id req'.email) c.tables.members =
            ap (λ (t : Tables). t.members) (same ∙ et) in
          let none_left =
            first-delete (is_membership req'.mailbox_id req'.email) c.tables.members in
          let h : is_some_row (
                first (is_membership req'.mailbox_id req'.email)
                  (delete (is_membership req'.mailbox_id req'.email) c.tables.members))
              ≡ true =
            rw (id_same, email_same, rows) at member in
          let h' : false ≡ true = rw none_left at h in cc
