-- ===== src/AdminStore/Tests.antt =====
-- Concrete runs of the administrator's store.
use mailfold.Prelude.{
  ℕ, ◌*◌, ◌≤◌, ◌==◌, ◌≡◌, refl, true, none, some, List, [], ◌∷◌, arith, if◌then◌else◌,
}
use mailfold.Storage.{second}
use mailfold.Sql.{ok, Conn, attempt, statement, continue, ◌>>=◌, ◌>>◌}
use mailfold.Sql.Table.{first, update}
use mailfold.AdminStore.Defs.{
  Tables, has_user, blank, with_row, insert_if, insert_row, checked, ensured, ensure_row, set_row,
  totp_set, set_totp,
}
use mailfold.AdminStore.Codes.{consume_recovery_code, consume_reset_token}
use mailfold.AdminStore.Accounts.{totp, run, changed, account, account-run}
use mailfold.AdminStore.Attempts.{successes}
use mailfold.AdminStore.SingleUse.{is_success, code_once}
use mailfold.AdminStore.Tokens.{is_redeemed, token_once}

abbrev tables : Tables
tables = record {
  accounts = [];
  codes = (record { username = "admin"; code_hash = "h1"; used_at = 0 }) ∷ [];
  tokens = (record { token_hash = "t1"; username = "admin"; expires_at = 900; used_at = 0 }) ∷ [];
  devices = [];
  credentials = [];
}

-- The first statement fails.
abbrev failing : Conn Tables
failing = record { tables = tables; outcome = λ n. if n == 0 then some "busy" else none; used = 0 }

abbrev noon : ℕ
noon = 200 * second

abbrev nows : List ℕ
nows = noon ∷ (2 * noon) ∷ (3 * noon) ∷ []

enrolled : (run (totp true "enc" "nonce") "admin" noon failing).0 ≡ ok tt
unfolding run set_totp totp_set set_row ensure_row ensured checked insert_row insert_if with_row
    blank first update has_user statement attempt continue ◌>>=◌ ◌>>◌
enrolled = refl

account-run_example :
    account "admin" (run (totp true "enc" "nonce") "admin" noon failing).1.tables
    ≡ changed (totp true "enc" "nonce") noon (account "admin" tables)
account-run_example = account-run (totp true "enc" "nonce") "admin" noon failing enrolled

code_once_example : successes is_success (consume_recovery_code "admin" "h1") nows failing ≤ 1
code_once_example =
    code_once "admin" "h1" nows failing (omega arith, (omega arith, (omega arith, tt)))

token_once_example : successes is_redeemed (consume_reset_token "t1") nows failing ≤ 1
token_once_example = token_once "t1" nows failing (omega arith, (omega arith, (omega arith, tt)))
