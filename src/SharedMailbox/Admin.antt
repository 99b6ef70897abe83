-- ===== src/SharedMailbox/Admin.antt =====
-- backend/internal/api/shared_mailboxes_admin.go: the administrator's handlers over the shared mailboxes.
-- strings.TrimSpace is a parameter; the mailcow client's DeleteAppPassword, whose error is only logged,
-- acts on no state here. Creating a shared mailbox, which is a dialogue with mailcow, is not modelled.
use mailfold.Prelude.{ℕ, String, Bool, ◌||◌, List, [], ◌∷◌, str_eq, ◌==◌, if◌then◌else◌}
use mailfold.Storage.{Time}
use mailfold.Sql.{Result, ok, err, Sql, pure, ◌>>=◌}
use mailfold.Http.{Handler, reply, deny, with_body, call}
use mailfold.SharedMailbox.Defs.{
  Tables, Mailbox, Env, get_mailbox, list_members, list_mailboxes, delete_mailbox, add_member,
  remove_member,
}
use mailfold.SharedMailbox.Handlers.{require_store, with_mailbox}

pub record MemberRequest : Type 0 where
  pub mailbox_id : ℕ
  pub email : String

pub record MailboxView : Type 0 where
  pub id : ℕ
  pub email : String
  pub display_name : String
  pub members : List String
  pub created_by : String
  pub created_at : Time

module _ (stored sealed : Bool) where
  unfoldable pub to_view : Env → Mailbox → Sql Tables MailboxView
  to_view env m = do
    members ← list_members env m.id
    pure (record {
      id = m.id;
      email = m.email;
      display_name = m.display_name;
      members = members;
      created_by = m.created_by;
      created_at = m.created_at;
    })

  unfoldable pub view_all : Env → List Mailbox → Sql Tables (List MailboxView)
  view_all env [] = pure []
  view_all env (m ∷ ms) = do view ← to_view env m; views ← view_all env ms; pure (view ∷ views)

  unfoldable pub list_shared : Env → Handler Tables (List MailboxView)
  unfolding require_store view_all
  list_shared env =
      require_store stored sealed (call (list_mailboxes env) (λ ms. call (view_all env ms) reply))

  unfoldable pub delete_shared : Result ℕ → Handler Tables (Unit {0})
  unfolding require_store with_mailbox
  delete_shared body = require_store stored sealed (elim body [
    | err e ↦ deny 400 e
    | ok id ↦
        call (get_mailbox id)
          (λ o. with_mailbox o "not found" (λ m. call (delete_mailbox id) reply))
  ])

  unfoldable pub grant : (String → String) → Result MemberRequest → ℕ → Handler Tables (Unit {0})
  unfolding require_store with_mailbox
  grant trim body now = require_store stored sealed (
      with_body body (λ req.
        if (req.mailbox_id == 0) || str_eq (trim req.email) ""
        then deny 400 "mailbox_id and email are required"
        else call (get_mailbox req.mailbox_id) (λ o.
          with_mailbox o "not found"
            (λ m. call (add_member req.mailbox_id (trim req.email) now) reply))))

  unfoldable pub withdraw : Result MemberRequest → Handler Tables (Unit {0})
  unfolding require_store
  withdraw body = require_store stored sealed (
      with_body body (λ req.
        if (req.mailbox_id == 0) || str_eq req.email ""
        then deny 400 "mailbox_id and email are required"
        else call (remove_member req.mailbox_id req.email) reply))
