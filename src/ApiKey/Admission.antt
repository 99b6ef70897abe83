-- ===== src/ApiKey/Admission.antt =====
-- `requireAPIKey` of backend/internal/api/apikeys.go: whose requests are let through.
use mathlib.Core.Option
use mailfold.Prelude.{
  ℕ, String, ◌≡◌, refl, sym, ap, subst, Bool, true, false, not, ◌||◌, Option, none, some, arith,
  str_eq, eq_iff, inl, inr, Bool-cases, map-some,
}
use mailfold.Sql.{Result, ok, err, Conn, Sql}
use mailfold.Sql.Triple.{After, Triple, query-Triple, bind-Triple, lift-Triple}
use mailfold.Sql.Table.{first}
use mailfold.Http.{Response, answer, refuse}
use mailfold.Http.Ends.{Ends, reply-Ends, deny-Ends, if-Ends, call-Ends}
use mailfold.RateLimit.{allow}
use mailfold.ApiKey.Store.{Record, KeyRow, Table, is_active, has_id, scan_key, get_by_id}
use mailfold.ApiKey.Scopes.{has_scope}
use mailfold.ApiKey.Token.{parse_kid, token_matches}
use mailfold.ApiKey.Gate.{
  Env, Server, Answered, rate_limited, relabel, masked, resolve_found, resolve_kid,
  authenticate_key, grant_scope, admit_key, admit_address, require_api_key, unauthorized,
}

masked-Triple :
    {A : Type 0} (message : String) (P : Table → Type 0) (m : Sql Table A) (Q : A → Table → Type 0)
    (E : Table → Type 0)
    → Triple P m Q E
    → Triple P (masked message m) Q E
unfolding masked relabel
masked-Triple {A} message P m Q E h = record { runs = λ c p. go (m c).0 (m c).1 (h.runs c p) }
  where
    go :
        (r : Result A) (c : Conn Table)
        → After Q E r c.tables
        → After Q E (relabel message r) c.tables
    go (ok a) c q = q
    go (err e) c q = q

pub get_by_id-Triple :
    (kid : String) (before : Table) (E : Table → Type 0)
    → E before
    → Triple
        (λ t. t ≡ before)
        (get_by_id kid)
        (λ o t. (o ≡ Option.map scan_key (first (has_id kid) before)) × (t ≡ before))
        E
unfolding get_by_id
get_by_id-Triple kid before E bad =
    bind-Triple (λ o t. (o ≡ first (has_id kid) before) × (t ≡ before))
      (query-Triple before (first (has_id kid)) E bad)
      (λ o.
        lift-Triple (λ t. (o ≡ first (has_id kid) before) × (t ≡ before))
          (ok (Option.map scan_key o)) _ E (λ t q. (ap (Option.map scan_key) q.0, q.1)))

module _ (env : Env) where
  open env use {hash_token, trim, open_secret}

  -- The row behind a token that may act at `now`, and the password its secret opens to.
  pub record Valid (token : String) (now : ℕ) (rows : Table) (k : Record) (pw : String)
      : Type 0 where
    pub kid : String
    pub row : KeyRow
    pub parsed : parse_kid token ≡ some kid
    pub stored : first (has_id kid) rows ≡ some row
    pub scanned : scan_key row ≡ k
    pub matches : hash_token token ≡ k.token_sha256
    pub active : is_active now k ≡ true
    pub opened : open_secret k.secret_enc k.secret_nonce ≡ some pw

  abbrev Authentic : String → ℕ → Table → Response (Record × String) → Table → Type 0
  Authentic token now before (refuse code message) after = after ≡ before
  Authentic token now before (answer (k, pw)) after = Valid token now before k pw × (after ≡ before)

  module _ (token : String) (now : ℕ) (before : Table) where
    opened-Ends :
        (kid : String) (row : KeyRow) (k : Record) (o : Option String)
        → parse_kid token ≡ some kid
        → first (has_id kid) before ≡ some row
        → scan_key row ≡ k
        → hash_token token ≡ k.token_sha256
        → is_active now k ≡ true
        → open_secret k.secret_enc k.secret_nonce ≡ o
        → Ends
            (λ t. t ≡ before)
            (elim o [
              | none ↦ (λ c. (refuse 500 "credential decryption failed", c))
              | some pw ↦ (λ c. (answer (k, pw), c))
            ])
            (Authentic token now before)
    opened-Ends kid row k none p f s m a o = deny-Ends 500 "credential decryption failed" (λ t e. e)
    opened-Ends kid row k (some pw) p f s m a o =
        reply-Ends (k, pw)
          (λ t e. (
            record {
              kid = kid;
              row = row;
              parsed = p;
              stored = f;
              scanned = s;
              matches = m;
              active = a;
              opened = o;
            },
            e,
          ))

    found-Ends :
        (kid : String) (o : Option Record)
        → parse_kid token ≡ some kid
        → Ends
            (λ t. (o ≡ Option.map scan_key (first (has_id kid) before)) × (t ≡ before))
            (resolve_found env token now o)
            (Authentic token now before)
    unfolding resolve_found token_matches
    found-Ends kid none p = deny-Ends 401 unauthorized (λ t e. e.1)
    found-Ends kid (some k) p = record {
      runs = λ c q.
          let (row, stored, scanned) =
            map-some scan_key (first (has_id kid) before) k (sym (q.0)) in
          (if-Ends {P = λ t. t ≡ before} {Q = Authentic token now before}
              (not (str_eq (hash_token token) k.token_sha256) || not (is_active now k))
              (λ bad. deny-Ends 401 unauthorized (λ t e. e))
              (λ good.
                opened-Ends kid row k (open_secret k.secret_enc k.secret_nonce) p stored scanned
                  (ground (arith, good, eq_iff (hash_token token) k.token_sha256))
                  (ground (arith, good)) refl)).runs
            c q.1;
    }

  authentic :
      (token : String) (now : ℕ) (c : Conn Table)
      → Authentic token now c.tables
          (authenticate_key env token now c).0
          (authenticate_key env token now c).1.tables
  unfolding authenticate_key resolve_kid
  authentic token now c = (parsed (parse_kid token) refl).runs c refl
    where
      parsed :
          (o : Option String)
          → parse_kid token ≡ o
          → Ends (λ t. t ≡ c.tables) (resolve_kid env token now o) (Authentic token now c.tables)
      parsed none p = deny-Ends 401 unauthorized (λ t e. e)
      parsed (some kid) p =
          call-Ends
            (λ o t. (o ≡ Option.map scan_key (first (has_id kid) c.tables)) × (t ≡ c.tables))
            (masked-Triple "api key lookup failed" (λ t. t ≡ c.tables) (get_by_id kid)
              (λ o t. (o ≡ Option.map scan_key (first (has_id kid) c.tables)) × (t ≡ c.tables))
              (λ t. (e : String) → t ≡ c.tables)
              (get_by_id-Triple kid c.tables (λ t. (e : String) → t ≡ c.tables) (λ e. refl)))
            (λ o. found-Ends token now c.tables kid o p)

  -- A request that is let through: its key is valid and has the scope, both limiters have let it pass,
  -- and it acts for the key's mailbox with the key's own password.
  pub record Admitted (scope ip token : String) (now : ℕ) (s : Server) (mailbox pw : String)
      : Type 0 where
    pub key : Record
    pub valid : Valid token now s.conn.tables key pw
    pub bound : key.mailbox ≡ mailbox
    pub granted : has_scope trim key.scopes scope ≡ true
    pub address_passes : (allow s.ip_limit ip now).0.0 ≡ true
    pub key_passes : (allow s.key_limit key.id now).0.0 ≡ true

  passed :
      {A : Type 0} (v : Bool × ℕ) (s : Server) (f : Server → Answered A) (x : A)
      → (rate_limited v s f).0 ≡ answer x
      → (v.0 ≡ true) × ((f s).0 ≡ answer x)
  unfolding rate_limited
  passed (true, wait) s f x h = (refl, h)
  passed (false, wait) s f x h = cc

  granted_scope :
      (scope : String) (now : ℕ) (k : Record) (pw mailbox word : String) (s : Server)
      → (grant_scope env scope now (k, pw) s).0 ≡ answer (mailbox, word)
      → (has_scope trim k.scopes scope ≡ true) × (k.mailbox ≡ mailbox) × (pw ≡ word)
  unfolding grant_scope
  granted_scope scope now k pw mailbox word s h =
      elim (Bool-cases (has_scope trim k.scopes scope)) [
        | inl fits ↦
            (let e : answer (k.mailbox, pw) ≡ answer (mailbox, word) = rw fits at h in
              (fits, cc, cc))
        | inr lacks ↦
            (let e : refuse 403 "forbidden" ≡ answer (mailbox, word) = rw lacks at h in cc)
      ]

  -- A request is let through, whatever errors the driver reports, only with a token whose key id names a
  -- row with the token's hash, which is neither revoked nor expired and has the scope, and only if both
  -- limiters let it pass; it then acts for that key's mailbox, with the password that the key's secret
  -- opens to.
  pub require_sound :
      (configured : Bool) (scope ip token : String) (now : ℕ) (s : Server) (mailbox pw : String)
      → (require_api_key env configured scope ip token now s).0 ≡ answer (mailbox, pw)
      → Admitted scope ip token now s mailbox pw
  unfolding require_api_key admit_address admit_key
  require_sound false scope ip token now s mailbox pw h = cc
  require_sound true scope ip token now s mailbox pw h =
      let first_gate =
        passed (allow s.ip_limit ip now).0 (record s { ip_limit = (allow s.ip_limit ip now).1 })
          (admit_address env scope token now) (mailbox, pw) h in
      keyed (authenticate_key env token now s.conn).0 (authenticate_key env token now s.conn).1
        first_gate.0 (authentic token now s.conn) first_gate.1
    where
      keyed :
          (r : Response (Record × String)) (c : Conn Table)
          → (allow s.ip_limit ip now).0.0 ≡ true
          → Authentic token now s.conn.tables r c.tables
          → (admit_key env scope now r
              (record s { ip_limit = (allow s.ip_limit ip now).1; conn = c })).0
            ≡ answer (mailbox, pw)
          → Admitted scope ip token now s mailbox pw
      keyed (refuse code message) c g a h = cc
      keyed (answer (k, word)) c g a h =
          let s' : Server = record s { ip_limit = (allow s.ip_limit ip now).1; conn = c } in
          let next =
            passed (allow s.key_limit k.id now).0
              (record s' { key_limit = (allow s.key_limit k.id now).1 })
              (grant_scope env scope now (k, word)) (mailbox, pw) h in
          let given =
            granted_scope scope now k word mailbox pw
              (record s' { key_limit = (allow s.key_limit k.id now).1 }) next.1 in
          record {
            key = k;
            valid = subst (Valid token now s.conn.tables k) (given.2) (a.0);
            bound = given.1;
            granted = given.0;
            address_passes = g;
            key_passes = next.0;
          }
