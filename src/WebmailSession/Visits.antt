-- ===== src/WebmailSession/Visits.antt =====
-- backend/internal/webmail/session.go: `Get`, `Peek`, `Take` and `Delete` implement the contract.
use mathlib.Core.Option
use mathlib.Core.Bool.{false≢true}
use mailfold.Prelude.{
  ℕ, ◌+◌, String, ◌≡◌, ◌≢◌, refl, sym, ap, subst, ◌∙◌, true, false, Option, none, some, arith,
  eq_iff, ltb, inl, inr, Bool-cases,
}
use mailfold.Prelude.Assoc.{lookup, erase, put, lookup-erase, lookup-put}
use mailfold.Storage.{is_after}
use mailfold.Sql.{Conn}
use mailfold.Sql.Laws.{IsReliable}
use mailfold.SessionStore
use mailfold.SessionStore.Isolation.{held}
use mailfold.SessionStore.Cell.{increment_reliable, increment-KeepsOutcome}
use mailfold.WebmailSession.{
  Credentials, Sessions, Env, max_pending_attempts, is_backed, get_in_memory, peek_in_memory,
  take_in_memory, get_backed, get, delete, peek_counted, peek_backed, peek, take_backed, take,
  decoded, take_found,
}
use mailfold.WebmailSession.Contract.{
  Login, account, opened, of_memory, unexpired, charged, CanAnswer, Visit, gets, peeks, takes,
  deletes, on_login, of_row, login_of, visit, login_on, login_off, Backs, get-Backs, delete-Backs,
  take-Backs, counted-Backs,
}

-- An answer and a map as a path over the map gives them.
abbrev Holds :
    String → Sessions → Option Login × Option Login → Option Credentials × Sessions → Type 0
Holds token s l v =
    (Option.map account v.0 ≡ opened l.0)
    × (Option.map of_memory (lookup token v.1.m) ≡ l.1)
    × (is_backed v.1 ≡ is_backed s)

module _ (token : String) (s : Sessions) where
  pub lookup-put_self : (c : Credentials) → lookup token (put token c s.m) ≡ some c
  lookup-put_self c = ground (arith, lookup-put token token c s.m, eq_iff token token)

  get-Holds :
      (now : ℕ) (o : Option Credentials)
      → lookup token s.m ≡ o
      → Holds token s (on_login (gets now) (Option.map of_memory o)) (get_in_memory token now o s)
  unfolding get_in_memory on_login unexpired is_backed
  get-Holds now none h = (refl, ap (Option.map of_memory) h, refl)
  get-Holds now (some c) h = elim (Bool-cases (is_after now c.expires_at)) [
    | inl past ↦
        rw past (refl, ground (arith, lookup-erase token token s.m, eq_iff token token), refl)
    | inr live ↦ rw live (refl, ap (Option.map of_memory) h, refl)
  ]

  peek-Holds :
      (now : ℕ) (o : Option Credentials)
      → lookup token s.m ≡ o
      → Holds token s (on_login (peeks now) (Option.map of_memory o)) (peek_in_memory token now o s)
  unfolding peek_in_memory on_login charged is_backed
  peek-Holds now none h = (refl, ap (Option.map of_memory) h, refl)
  peek-Holds now (some c) h =
      let erased : Option.map of_memory (lookup token (erase token s.m)) ≡ none =
        ground (arith, lookup-erase token token s.m, eq_iff token token) in
      elim (Bool-cases (is_after now c.expires_at)) [
        | inl past ↦ rw past (refl, erased, refl)
        | inr live ↦ elim (Bool-cases (ltb max_pending_attempts (c.attempts + 1))) [
          | inl spent ↦ rw (live, spent) (refl, erased, refl)
          | inr room ↦
              let c' : Credentials = record c { attempts = c.attempts + 1 } in
              rw (live, room) (refl, ap (Option.map of_memory) (lookup-put_self c'), refl)
        ]
      ]

  take-Holds :
      (now : ℕ) (o : Option Credentials)
      → lookup token s.m ≡ o
      → Holds token s (on_login (takes now) (Option.map of_memory o)) (take_in_memory token now o s)
  unfolding take_in_memory on_login unexpired is_backed
  take-Holds now none h = (refl, ap (Option.map of_memory) h, refl)
  take-Holds now (some c) h = elim (Bool-cases (is_after now c.expires_at)) [
    | inl past ↦
        rw past (refl, ground (arith, lookup-erase token token s.m, eq_iff token token), refl)
    | inr live ↦
        rw live (refl, ground (arith, lookup-erase token token s.m, eq_iff token token), refl)
  ]

erase-Holds :
    (token : String) (s : Sessions)
    → Holds token s
        (on_login deletes (Option.map of_memory (lookup token s.m)))
        (none, record s { m = erase token s.m })
unfolding on_login is_backed
erase-Holds token s = (refl, ground (arith, lookup-erase token token s.m, eq_iff token token), refl)

module _ (env : Env) where
  open env use {digest}

  -- The statement of the next lemmas, over the answer and the state that a path gives.
  abbrev pub Answers :
      String → Sessions → Option Login × Option Login → Option Credentials × Sessions → Type 0
  Answers token s l v =
      (Option.map account v.0 ≡ opened l.0) × (login_of env token v.1 ≡ l.1) × CanAnswer v.1

  Answers-of_Holds :
      (token : String) (s : Sessions) (l : Option Login × Option Login)
      (v : Option Credentials × Sessions)
      → is_backed s ≡ false
      → Holds token s l v
      → Answers token s l v
  Answers-of_Holds token s l v off h = (
    h.0,
    login_off env token v.1 (h.2 ∙ off) ∙ h.1,
    λ on. absurd (false≢true (sym (h.2 ∙ off) ∙ on)),
  )

  Answers-of_Backs :
      (token : String) (s : Sessions) (l : Option Login × Option Login)
      (v : Option Credentials × Conn SessionStore.Table)
      → is_backed s ≡ true
      → Backs env token s.kind l v
      → Answers token s l (v.0, record s { conn = v.1 })
  unfolding is_backed
  Answers-of_Backs token s l v on b =
      (b.0, login_on env token (record s { conn = v.1 }) on ∙ b.1, λ _. b.2)

  abbrev row_login : String → Sessions → Option Login
  row_login token s = Option.map (of_row env) (held digest token s.kind s.conn.tables)

  -- A visit by the map, and one by the table.
  by_map : String → Visit → Sessions → Option Credentials × Sessions
  by_map token (gets now) s = get_in_memory token now (lookup token s.m) s
  by_map token (peeks now) s = peek_in_memory token now (lookup token s.m) s
  by_map token (takes now) s = take_in_memory token now (lookup token s.m) s
  by_map token deletes s = (none, record s { m = erase token s.m })

  by_table : String → Visit → Sessions → Option Credentials × Conn SessionStore.Table
  by_table token (gets now) s =
      let g = SessionStore.get digest token s.kind now s.conn in (decoded env g.0, g.1)
  by_table token (peeks now) s =
      let n = SessionStore.increment_attempts digest token s.kind now s.conn in
      peek_counted env token s.kind now n.0 n.1
  by_table token (takes now) s =
      let g = SessionStore.get digest token s.kind now s.conn in take_found env token s.kind g.0 g.1
  by_table token deletes s = (none, (SessionStore.delete_token digest token s.kind s.conn).1)

  module _ (token : String) (s : Sessions) (named : token ≢ "") where
    visit_off : (v : Visit) → is_backed s ≡ false → visit env token v s ≡ by_map token v s
    unfolding visit get peek take delete by_map
    visit_off (gets now) off = ground (arith, eq_iff token "")
    visit_off (peeks now) off = ground (arith, eq_iff token "")
    visit_off (takes now) off = ground (arith, eq_iff token "")
    visit_off deletes off = ground arith

    visit_on :
        (v : Visit)
        → is_backed s ≡ true
        → visit env token v s ≡ ((by_table token v s).0, record s { conn = (by_table token v s).1 })
    unfolding visit get peek take delete by_table get_backed peek_backed take_backed
    visit_on (gets now) on = ground (arith, eq_iff token "")
    visit_on (peeks now) on = ground (arith, eq_iff token "")
    visit_on (takes now) on = ground (arith, eq_iff token "")
    visit_on deletes on = ground arith

  delete_row-Backs :
      (token : String) (s : Sessions)
      → IsReliable s.conn
      → Backs env token s.kind
          (on_login deletes (row_login token s))
          (none, (SessionStore.delete_token digest token s.kind s.conn).1)
  unfolding on_login
  delete_row-Backs token s r = delete-Backs env token s.kind 0 s.conn none none r refl

  map-Holds :
      (token : String) (v : Visit) (s : Sessions)
      → Holds token s (on_login v (Option.map of_memory (lookup token s.m))) (by_map token v s)
  unfolding by_map
  map-Holds token (gets now) s = get-Holds token s now (lookup token s.m) refl
  map-Holds token (peeks now) s = peek-Holds token s now (lookup token s.m) refl
  map-Holds token (takes now) s = take-Holds token s now (lookup token s.m) refl
  map-Holds token deletes s = erase-Holds token s

  table-Backs :
      (token : String) (v : Visit) (s : Sessions)
      → IsReliable s.conn
      → Backs env token s.kind (on_login v (row_login token s)) (by_table token v s)
  unfolding by_table
  table-Backs token (gets now) s r = get-Backs env token s.kind now s.conn r
  table-Backs token (peeks now) s r =
      let n = increment_reliable digest token s.kind now s.conn r in
      let c = (SessionStore.increment_attempts digest token s.kind now s.conn).1 in
      let o = held digest token s.kind s.conn.tables in
      let r' : IsReliable c =
        λ n. ap (λ f. f n) (increment-KeepsOutcome digest token s.kind now s.conn) ∙ r n in
      subst
        (λ x.
          Backs env token s.kind (on_login (peeks now) (row_login token s))
            (peek_counted env token s.kind now x c))
        (sym n.0) (counted-Backs env token s.kind now c o r' n.1)
  table-Backs token (takes now) s r = take-Backs env token s.kind now s.conn r
  table-Backs token deletes s r = delete_row-Backs token s r

  pub visit-Answers :
      (token : String) (v : Visit) (s : Sessions)
      → token ≢ ""
      → CanAnswer s
      → Answers token s (on_login v (login_of env token s)) (visit env token v s)
  visit-Answers token v s named r = elim (Bool-cases (is_backed s)) [
    | inl on ↦
        rw (visit_on token s named v on, login_on env token s on)
          (Answers-of_Backs token s (on_login v (row_login token s)) (by_table token v s) on
            (table-Backs token v s (r on)))
    | inr off ↦
        rw (visit_off token s named v off, login_off env token s off)
          (Answers-of_Holds token s (on_login v (Option.map of_memory (lookup token s.m)))
            (by_map token v s) off (map-Holds token v s))
  ]

  -- In memory and in the table alike, so long as an attached table answers, `Get`, `Peek`, `Take` and
  -- `Delete` of a non-empty token show the account that the contract shows, and keep what it keeps.
  pub visit_refines :
      (token : String) (v : Visit) (s : Sessions)
      → token ≢ ""
      → CanAnswer s
      → (Option.map account (visit env token v s).0 ≡ opened (on_login v (login_of env token s)).0)
        × (login_of env token (visit env token v s).1 ≡ (on_login v (login_of env token s)).1)
  visit_refines token v s named r = let a = visit-Answers token v s named r in (a.0, a.1)
