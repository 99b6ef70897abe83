-- ===== src/ApiKey/Refusal.antt =====
-- `requireAPIKey` and `handleAPIKeyRevoke` of backend/internal/api/apikeys.go: a valid key's request is
-- let through, and a revoked key's is not.
use mathlib.Core.Option
use mailfold.Prelude.{
  ℕ, ◌≤◌, String, ◌≡◌, ◌≢◌, refl, sym, ◌∙◌, ap, subst, Bool, true, false, Option, none, some,
  str_eq, eq_iff, map-some,
}
use mailfold.Storage.{second}
use mailfold.Sql.{Result, ok, err, Conn}
use mailfold.Sql.Laws.{IsReliable}
use mailfold.Sql.Table.{first, update}
use mailfold.Http.{Response, answer, refuse, call, proceed}
use mailfold.Http.Ends.{Ends, deny-Ends, call-Ends}
use mailfold.RateLimit.{allow}
use mailfold.ApiKey.Store.{
  Record, Table, is_active, has_id, scan_key, get_by_id, is_open, revoke, revoke_row,
}
use mailfold.ApiKey.Revocation.{
  revoked_at, first-revoke, revoke-tables, revoked-inactive, get_by_id-Implements,
}
use mailfold.ApiKey.Token.{parse_kid, token_matches}
use mailfold.ApiKey.Mint.{Mailcow}
use mailfold.ApiKey.Revoke.{revoke_found, revoked, handle_revoke}
use mailfold.ApiKey.Gate.{
  Env, Server, Answered, rate_limited, relabel, masked, resolve_found, resolve_kid,
  authenticate_key, grant_scope, admit_key, admit_address, require_api_key,
}
use mailfold.ApiKey.Admission.{Valid, Admitted, require_sound, get_by_id-Triple}

module _ (env : Env) where
  open env use {hash_token, trim, open_secret}

  found_valid :
      (token : String) (now : ℕ) (k : Record) (pw : String) (c : Conn Table)
      → hash_token token ≡ k.token_sha256
      → is_active now k ≡ true
      → open_secret k.secret_enc k.secret_nonce ≡ some pw
      → (resolve_found env token now (some k) c).0 ≡ answer (k, pw)
  unfolding resolve_found token_matches
  found_valid token now k pw c m a o =
      let same : str_eq (hash_token token) k.token_sha256 ≡ true =
        (eq_iff (hash_token token) k.token_sha256).1 m in
      rw (same, a, o) refl

  authenticate-Valid :
      (token : String) (now : ℕ) (k : Record) (pw : String) (c : Conn Table)
      → IsReliable c
      → Valid env token now c.tables k pw
      → (authenticate_key env token now c).0 ≡ answer (k, pw)
  unfolding authenticate_key resolve_kid call proceed masked relabel
  authenticate-Valid token now k pw c r v =
      let got = ((get_by_id-Implements v.kid).reliable c r).0 in
      let seen : (get_by_id v.kid c).0 ≡ ok (some k) =
        got ∙ ap (λ o. ok (Option.map scan_key o)) v.stored ∙ ap (λ k. ok (some k)) v.scanned in
      rw (v.parsed, seen)
        (found_valid token now k pw (get_by_id v.kid c).1 v.matches v.active v.opened)

  passing :
      {A : Type 0} (v : Bool × ℕ) (s : Server) (f : Server → Answered A)
      → v.0 ≡ true
      → rate_limited v s f ≡ f s
  unfolding rate_limited
  passing (true, wait) s f h = refl
  passing (false, wait) s f h = cc

  -- While the driver reports no error, a request is let through wherever all of that holds: the token
  -- names a row with its hash that is neither revoked nor expired, whose secret opens and which has the
  -- scope, and both limiters let it pass.
  pub require_complete :
      (scope ip token : String) (now : ℕ) (s : Server) (mailbox pw : String)
      → IsReliable s.conn
      → Admitted env scope ip token now s mailbox pw
      → (require_api_key env true scope ip token now s).0 ≡ answer (mailbox, pw)
  unfolding require_api_key admit_address admit_key grant_scope
  require_complete scope ip token now s mailbox pw r a =
      let l = (allow s.ip_limit ip now).1 in
      let c' = (authenticate_key env token now s.conn).1 in
      ap (λ (p : Answered (String × String)). p.0)
        (passing (allow s.ip_limit ip now).0 (record s { ip_limit = l })
          (admit_address env scope token now) a.address_passes)
      ∙ ap (λ x. (admit_key env scope now x (record s { ip_limit = l; conn = c' })).0)
          (authenticate-Valid token now a.key pw s.conn r a.valid)
      ∙ keyed (record s { ip_limit = l; conn = c' }) refl
    where
      scoped :
          (s' : Server) → (grant_scope env scope now (a.key, pw) s').0 ≡ answer (a.key.mailbox, pw)
      scoped s' = rw a.granted refl

      keyed :
          (s' : Server)
          → s'.key_limit ≡ s.key_limit
          → (admit_key env scope now (answer (a.key, pw)) s').0 ≡ answer (mailbox, pw)
      keyed s' same =
          ap (λ (p : Answered (String × String)). p.0)
            (passing (allow s'.key_limit a.key.id now).0
              (record s' { key_limit = (allow s'.key_limit a.key.id now).1 })
              (grant_scope env scope now (a.key, pw))
              (subst (λ l. (allow l a.key.id now).0.0 ≡ true) (sym same) a.key_passes))
          ∙ scoped (record s' { key_limit = (allow s'.key_limit a.key.id now).1 })
          ∙ ap (λ m. answer (m, pw)) a.bound

module _ (id : String) (t : ℕ) (before : Table) where
  abbrev Acted : Response Record → Table → Type 0
  Acted (refuse code message) after = Unit {0}
  Acted (answer k) after = after ≡ update (is_open id) (revoke_row t) before

  revoke-Ends :
      (k : Record) → Ends (λ t. t ≡ before) (call (revoke id t) (λ b c. (answer k, c))) Acted
  unfolding call proceed
  revoke-Ends k = record {
    runs = λ c e.
        go (revoke id t c).0 (revoke id t c).1
          (λ b h. revoke-tables id t c b h ∙ ap (update (is_open id) (revoke_row t)) e);
  }
    where
      go :
          (r : Result Bool) (c : Conn Table)
          → ((b : Bool) → r ≡ ok b → c.tables ≡ update (is_open id) (revoke_row t) before)
          → Acted
              (proceed r (λ b c. (answer k, c)) c).0
              (proceed r (λ b c. (answer k, c)) c).1.tables
      go (ok b) c h = h b refl
      go (err e) c h = tt

  found-Ends :
      (o : Option Record)
      → Ends
          (λ t. (o ≡ Option.map scan_key (first (has_id id) before)) × (t ≡ before))
          (revoke_found id t o)
          Acted
  unfolding revoke_found
  found-Ends none = deny-Ends 404 "not found" (λ t e. tt)
  found-Ends (some k) = record { runs = λ c e. (revoke-Ends k).runs c e.1 }

  row-Ends : Ends (λ t. t ≡ before) (call (get_by_id id) (revoke_found id t)) Acted
  row-Ends =
      call-Ends (λ o t. (o ≡ Option.map scan_key (first (has_id id) before)) × (t ≡ before))
        (get_by_id-Triple id before (λ t. (e : String) → Unit {0}) (λ e. tt)) found-Ends

  revoked-tables :
      {M : Type 0} (mc : Mailcow M) (m : M) (r : Response Record) (c : Conn Table)
      → Acted r c.tables
      → (revoked mc r m c).0 ≡ answer tt
      → (revoked mc r m c).2.tables ≡ update (is_open id) (revoke_row t) before
  unfolding revoked
  revoked-tables mc m (refuse code message) c a h = cc
  revoked-tables mc m (answer k) c a h = a

  handle_revoke-tables :
      {M : Type 0} (mc : Mailcow M) (m : M) (c : Conn Table)
      → c.tables ≡ before
      → (handle_revoke mc id t m c).0 ≡ answer tt
      → (handle_revoke mc id t m c).2.tables ≡ update (is_open id) (revoke_row t) before
  unfolding handle_revoke
  handle_revoke-tables mc m c e h =
      revoked-tables mc m (call (get_by_id id) (revoke_found id t) c).0
        (call (get_by_id id) (revoke_found id t) c).1 (row-Ends.runs c e) h

-- Once the administrator's revocation of a key is answered, dated a second or more after 1970, no
-- request with a token of that key id is let through, at any instant, under any scope and from any
-- address, on any server that sees the table.
pub revoked_refused :
    {M : Type 0} (env : Env) (mc : Mailcow M) (id : String) (t : ℕ) (m : M) (c : Conn Table)
    (configured : Bool) (scope ip token : String) (now : ℕ) (later : Server) (x : String × String)
    → second ≤ t
    → parse_kid token ≡ some id
    → (handle_revoke mc id t m c).0 ≡ answer tt
    → later.conn.tables ≡ (handle_revoke mc id t m c).2.tables
    → (require_api_key env configured scope ip token now later).0 ≢ answer x
revoked_refused env mc id t m c configured scope ip token now later x le parsed done same through =
    let a = require_sound env configured scope ip token now later x.0 x.1 through in
    let acted = handle_revoke-tables id t c.tables mc m c refl done in
    let same_id : a.valid.kid ≡ id = cc (a.valid.parsed, parsed) in
    let row_there : first (has_id id) (update (is_open id) (revoke_row t) c.tables)
        ≡ some a.valid.row =
      ap (first (has_id id)) (sym (same ∙ acted))
      ∙ ap (λ k. first (has_id k) later.conn.tables) (sym same_id)
      ∙ a.valid.stored in
    let (r, here, revoked) =
      map-some (revoked_at t) (first (has_id id) c.tables) a.valid.row
        (sym (first-revoke id t c.tables) ∙ row_there) in
    let off : is_active now a.key ≡ false =
      ap (is_active now) (sym (a.valid.scanned) ∙ ap scan_key (sym revoked))
      ∙ revoked-inactive now t r le in
    cc (off, a.valid.active)
