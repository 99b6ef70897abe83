-- ===== src/Auth/Listing.antt =====
-- backend/internal/auth/auth.go: the session list, revocation and the sweep.
use mailfold.Prelude.{
  ℕ, ◌+◌, String, Bool, true, false, not, Option, none, some, List, [], ◌∷◌, map, str_eq,
  if◌then◌else◌,
}
use mailfold.Prelude.Assoc.{Assoc, erase, retain}
use mailfold.Prelude.Text.{Text, text_eq, hex, take}
use mailfold.Storage.{is_after}
use mailfold.Sql.{Result, ok, err, Conn}
use mailfold.SessionStore
use mailfold.SessionStore.{Row, ListedRow, PutParams, Table}
use mailfold.Auth.{
  Session, SessionInfo, Authenticator, Env, kind_session, session_id_len, with_conn,
}

module _ (env : Env) where
  open env use {digest, decode_meta}

  -- hex.EncodeToString(sum[:8])
  unfoldable pub session_id : String → Text
  session_id token = hex (take 8 (digest token))

  -- currentID stays empty for an empty token.
  unfoldable pub current_id : String → Text
  unfolding session_id
  current_id token = if str_eq token "" then [] else session_id token

  unfoldable pub listed_info : String → Text → ListedRow → SessionInfo
  listed_info user current r =
      let id = take session_id_len r.token_hash in
      record {
        id = id;
        user = user;
        created_at = r.created_at;
        expires_at = r.expires_at;
        ip = (decode_meta r.meta).ip;
        user_agent = (decode_meta r.meta).user_agent;
        current = text_eq id current;
      }

  unfoldable pub session_info : String → String × Session → SessionInfo
  session_info current (token, s) = record {
    id = session_id token;
    user = s.user;
    created_at = s.created_at;
    expires_at = s.expires_at;
    ip = s.ip;
    user_agent = s.user_agent;
    current = str_eq token current;
  }

  abbrev answer_list : String → Text → Result (List ListedRow) → List SessionInfo
  answer_list user current (err e) = []
  answer_list user current (ok rows) = map (listed_info user current) rows

  unfoldable pub list_sessions : String → ℕ → Authenticator → List SessionInfo × Authenticator
  unfolding listed_info session_info current_id
  list_sessions current now a =
      if a.attached
      then with_conn (answer_list a.user (current_id current)) a
          (SessionStore.list_by_subject kind_session a.user now a.conn)
      else (map (session_info current) a.sessions, a)

  -- The first listed row with the id, and the first entry of the map.
  unfoldable pub find_listed : Text → List ListedRow → Option Text
  find_listed id [] = none
  find_listed id (r ∷ rs) =
      if text_eq (take session_id_len r.token_hash) id then some r.token_hash else find_listed id rs

  unfoldable pub find_session : Text → Assoc Session → Option String
  find_session id [] = none
  find_session id ((token, s) ∷ m) =
      if text_eq (session_id token) id then some token else find_session id m

  abbrev answer_deleted : Result Bool → Bool
  answer_deleted (err e) = false
  answer_deleted (ok b) = b

  unfoldable pub revoke_stored : Text → Result (List ListedRow) → Conn Table → Bool × Conn Table
  unfolding find_listed
  revoke_stored id (err e) c = (false, c)
  revoke_stored id (ok rows) c = elim (find_listed id rows) [
    | none ↦ (false, c)
    | some h ↦
        (let (r, c') = SessionStore.delete_by_hash h kind_session c in (answer_deleted r, c'))
  ]

  unfoldable pub revoke_by_id : Text → ℕ → Authenticator → Bool × Authenticator
  unfolding revoke_stored find_session
  revoke_by_id id now a =
      if a.attached
      then (let (rows, c) = SessionStore.list_by_subject kind_session a.user now a.conn in
          let (done, c') = revoke_stored id rows c in (done, record a { conn = c' }))
      else elim (find_session id a.sessions) [
        | none ↦ (false, a)
        | some token ↦ (true, record a { sessions = erase token a.sessions })
      ]

  abbrev answer_count : Result ℕ → ℕ
  answer_count (err e) = 0
  answer_count (ok n) = n

  unfoldable pub count_others : String → Assoc Session → ℕ
  count_others current [] = 0
  count_others current ((token, s) ∷ m) =
      (if str_eq token current then 0 else 1) + count_others current m

  unfoldable pub revoke_all_except : String → Authenticator → ℕ × Authenticator
  unfolding count_others
  revoke_all_except current a =
      if a.attached
      then with_conn answer_count a
          (SessionStore.delete_by_subject_except digest kind_session a.user current a.conn)
      else (
        count_others current a.sessions,
        record a { sessions = retain (λ token _. str_eq token current) a.sessions },
      )

  unfoldable pub gc : ℕ → Authenticator → Authenticator
  gc now a = if a.attached then record a { conn = (SessionStore.gc now a.conn).1 } else record a {
    sessions = retain (λ _ s. not (is_after now s.expires_at)) a.sessions;
    pendings = retain (λ _ p. not (is_after now p.expires_at)) a.pendings;
  }
