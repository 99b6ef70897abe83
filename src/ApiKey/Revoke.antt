-- ===== src/ApiKey/Revoke.antt =====
-- `handleAPIKeyRevoke` of backend/internal/api/apikeys.go: the row is revoked, then mailcow is asked to
-- delete the key's app-password; an error of that is only logged.
use mailfold.Prelude.{ℕ, String, Option, none, some, [], ◌∷◌, str_eq, if◌then◌else◌}
use mailfold.Sql.{Conn}
use mailfold.Http.{Response, answer, refuse, Handler, reply, deny, call}
use mailfold.ApiKey.Store.{Record, Table, get_by_id, revoke}
use mailfold.ApiKey.Mint.{Mailcow}

unfoldable pub revoke_found : String → ℕ → Option Record → Handler Table Record
revoke_found id now none = deny 404 "not found"
revoke_found id now (some r) = call (revoke id now) (λ b. reply r)

module _ {M : Type 0} (mc : Mailcow M) where
  unfoldable pub revoke_upstream : Record → M → M
  revoke_upstream r m =
      if str_eq r.mc_app_pw_id "" then m else (mc.remove (r.mc_app_pw_id ∷ []) m).1

  unfoldable pub revoked : Response Record → M → Conn Table → Response (Unit {0}) × M × Conn Table
  unfolding revoke_upstream
  revoked (refuse code message) m c = (refuse code message, m, c)
  revoked (answer r) m c = (answer tt, revoke_upstream r m, c)

  unfoldable pub handle_revoke : String → ℕ → M → Conn Table → Response (Unit {0}) × M × Conn Table
  unfolding revoke_found revoked
  handle_revoke id now m c =
      let (r, c') = call (get_by_id id) (revoke_found id now) c in revoked r m c'
