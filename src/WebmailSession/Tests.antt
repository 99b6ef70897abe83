-- ===== src/WebmailSession/Tests.antt =====
-- Concrete runs of the webmail logins of backend/internal/webmail/session.go.
use mathlib.Core.Option
use mailfold.Prelude.{
  ℕ, ◌+◌, ◌*◌, min, ◌≡◌, refl, true, none, some, List, [], ◌∷◌, All, length, arith, str_eq,
  if◌then◌else◌,
}
use mailfold.Storage.{second}
use mailfold.Sql.{ok, Conn}
use mailfold.SessionStore.{TokenRow, Table}
use mailfold.WebmailSession.{Sessions, Env, mint_session}
use mailfold.WebmailSession.Contract.{
  account, opened, gets, peeks, takes, on_login, login_of, visit,
}
use mailfold.WebmailSession.Visits.{visit_refines}
use mailfold.WebmailSession.Pending.{shown, peeked, take_once}
use mailfold.WebmailSession.Mint.{peek_budget}

-- Stand-ins for SHA-256, AES-GCM and encoding/json on the inputs of the examples.
abbrev env : Env
env = record {
  digest = λ token. if str_eq token "ann" then 1 ∷ [] else 2 ∷ [];
  seal = λ plain nonce. plain;
  open_sealed = λ enc nonce. some enc;
  encode_meta = λ who. if str_eq who "" then "{}" else who;
  decode_meta = λ text. if str_eq text "{}" then some "" else some text;
}

abbrev ann_row : TokenRow
ann_row = record {
  token_hash = 48 ∷ 49 ∷ [];
  kind = "webmail_pending";
  subject = "ann@example.org";
  secret_enc = "secret";
  secret_nonce = "n1";
  meta = "";
  attempts = 2;
  created_at = 100;
  expires_at = 400;
}

abbrev one_row : Conn Table
one_row = record { tables = ann_row ∷ []; outcome = λ n. none; used = 0 }

abbrev pending : Sessions
pending = record {
  ttl = 300 * second;
  kind = "webmail_pending";
  m = [];
  has_store = true;
  has_cipher = true;
  conn = one_row;
}

abbrev noon : ℕ
noon = 200 * second

abbrev thrice : List ℕ
thrice = noon ∷ (noon + second) ∷ (noon + 9 * second) ∷ []

abbrev minted_now : Sessions
minted_now =
    (mint_session env "ann@example.org" "secret" "bob@example.org" (ok "ann") (ok "n1") noon
      pending).1

visit_refines_example :
    (Option.map account (visit env "ann" (peeks noon) pending).0
      ≡ opened (on_login (peeks noon) (login_of env "ann" pending)).0)
    × (login_of env "ann" (visit env "ann" (peeks noon) pending).1
        ≡ (on_login (peeks noon) (login_of env "ann" pending)).1)
visit_refines_example = visit_refines env "ann" (peeks noon) pending (λ e. cc) (λ on n. refl)

take_once_example :
    All
      (λ o. o ≡ none)
      (shown env "ann"
        (takes noon ∷ peeks noon ∷ gets noon ∷ [])
        (visit env "ann" (takes noon) pending).1)
take_once_example =
    take_once env "ann" (λ e. cc) noon (takes noon ∷ peeks noon ∷ gets noon ∷ []) pending
      (λ on n. refl)

peek_budget_example : peeked env "ann" thrice minted_now ≡ min (length thrice) 5
peek_budget_example =
    peek_budget env "ann@example.org" "secret" "bob@example.org" "ann" "n1" noon pending thrice
      (λ e. cc) (refl, refl, λ e. cc) (λ on n. refl) (omega arith)
      ((omega arith, omega arith), ((omega arith, omega arith), ((omega arith, omega arith), tt)))
