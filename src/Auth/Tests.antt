-- ===== src/Auth/Tests.antt =====
-- Concrete runs of the administrator's sessions of backend/internal/auth/auth.go.
use mathlib.Core.Option
use mailfold.Prelude.{
  ℕ, ◌+◌, ◌*◌, min, String, ◌≡◌, ◌≢◌, refl, true, false, none, some, List, [], ◌∷◌, arith, str_eq,
  if◌then◌else◌, ◌⊎◌, length,
}
use mailfold.Prelude.Text.{text_eq}
use mailfold.Storage.{second}
use mailfold.Sql.{ok, Conn}
use mailfold.SessionStore.{TokenRow, Table, has_key}
use mailfold.SessionStore.Keys.{IsTable}
use mailfold.Sql.Table.{first}
use mailfold.Auth.{
  check_password, Authenticator, Env, Meta, new_session, mint_session, issue_pending,
  verify_pending, validate, login,
}
use mailfold.Auth.Listing.{revoke_all_except, gc}
use mailfold.Auth.SecondFactor.{count_attempt, pending_of, owner, let_through, verify_refines}
use mailfold.Auth.Budget.{second_factor_budget}
use mailfold.Auth.Validity.{unexpired, session_of, validate_refines}
use mailfold.Auth.Login.{read_back, login_sound, validate-mint}
use mailfold.Auth.Revoke.{validate-revoke_all_except}
use mailfold.Auth.Sweep.{validate-gc}

-- Stand-ins for SHA-256, bcrypt and encoding/json on the inputs of the examples.
abbrev env : Env
env = record {
  digest = λ token. if str_eq token "ann" then 1 ∷ [] else 2 ∷ [];
  bcrypt_matches = λ h password. str_eq h password;
  encode_meta = λ m. m.ip;
  decode_meta = λ s. record { ip = s; user_agent = "" };
}

abbrev laptop : Meta
laptop = record { ip = "10.0.0.1"; user_agent = "" }

abbrev ann_row : TokenRow
ann_row = record {
  token_hash = 48 ∷ 49 ∷ [];
  kind = "admin_session";
  subject = "admin";
  secret_enc = "";
  secret_nonce = "";
  meta = "10.0.0.1";
  attempts = 0;
  created_at = 100;
  expires_at = 4000;
}

abbrev bob_row : TokenRow
bob_row = record {
  token_hash = 48 ∷ 50 ∷ [];
  kind = "admin_session";
  subject = "admin";
  secret_enc = "";
  secret_nonce = "";
  meta = "10.0.0.2";
  attempts = 0;
  created_at = 100;
  expires_at = 300;
}

abbrev two_rows : Conn Table
two_rows = record { tables = ann_row ∷ bob_row ∷ []; outcome = λ n. none; used = 0 }

abbrev admin : Authenticator
admin = record {
  user = "admin";
  password = "secret";
  ttl = 3600 * second;
  password_hash = "";
  sessions = [];
  pendings = [];
  attached = true;
  conn = two_rows;
}

abbrev noon : ℕ
noon = 200 * second

abbrev codes_at : List ℕ
codes_at =
    noon ∷ noon ∷ (noon + second) ∷ (noon + second) ∷ (noon + 2 * second) ∷ (noon + 9 * second) ∷ []

second_factor_budget_example :
    let_through env "ann" codes_at (issue_pending env (ok "ann") noon admin).1
    ≡ min (length codes_at) 5
second_factor_budget_example =
    second_factor_budget env "ann" (λ e. cc) noon admin codes_at (omega arith) (λ on n. refl)
      (
        (omega arith, omega arith),
        (
          (omega arith, omega arith),
          (
            (omega arith, omega arith),
            (
              (omega arith, omega arith),
              ((omega arith, omega arith), ((omega arith, omega arith), tt)),
            ),
          ),
        ),
      )

verify_refines_example :
    ((verify_pending env "ann" noon admin).0
      ≡ Option.map owner (count_attempt noon (pending_of env "ann" admin)))
    × (pending_of env "ann" (verify_pending env "ann" noon admin).1
        ≡ count_attempt noon (pending_of env "ann" admin))
verify_refines_example = verify_refines env "ann" noon admin (λ e. cc) (λ on n. refl)

validate_refines_example :
    (validate env "ann" noon admin).0 ≡ unexpired noon (session_of env "ann" admin)
validate_refines_example = validate_refines env "ann" noon admin (λ e. cc) (λ on n. refl)

validate-revoke_all_except_example :
    (validate env "bob" noon (revoke_all_except env "ann" admin).1).0
    ≡ (if str_eq "bob" "ann" then (validate env "bob" noon admin).0 else none)
validate-revoke_all_except_example =
    validate-revoke_all_except env "ann" "bob" noon admin (λ e. cc) (λ e. cc) (λ on n. refl)
      (tt, (λ k. refl, (λ k. refl, tt)))

keys_unique : IsTable two_rows.tables
unfolding first has_key text_eq
keys_unique = (refl, (refl, tt))

validate-gc_example :
    (validate env "bob" (400 * second) (gc env (350 * second) admin)).0
    ≡ (validate env "bob" (400 * second) admin).0
validate-gc_example =
    validate-gc env "bob" (350 * second) (400 * second) admin (λ e. cc) (omega arith) (λ on n. refl)
      tt keys_unique

validate-mint_example :
    (validate env "ann" (noon + second) (mint_session env laptop (ok "ann") noon admin).1).0
    ≡ unexpired (noon + second) (some (read_back true (new_session env laptop "ann" noon admin)))
validate-mint_example =
    validate-mint env "ann" laptop noon (noon + second) admin refl (λ e. cc) (λ on n. refl)

abbrev in_memory : Authenticator
in_memory = record admin { attached = false }

logged_in :
    (login env "admin" "secret" laptop (ok "ann") noon in_memory).0
    ≡ ok (new_session env laptop "ann" noon in_memory)
unfolding login check_password mint_session
logged_in = refl

abbrev given : String
given = "secret"

login_sound_example :
    (in_memory.user ≡ in_memory.user)
    × (((in_memory.password_hash ≡ "") × (given ≡ in_memory.password))
        ⊎ ((in_memory.password_hash ≢ "")
            × (env.bcrypt_matches in_memory.password_hash given ≡ true)))
login_sound_example = login_sound env "admin" given laptop (ok "ann") noon in_memory logged_in
