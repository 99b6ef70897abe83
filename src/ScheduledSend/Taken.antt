-- ===== src/ScheduledSend/Taken.antt =====
-- backend/internal/api/webmail_scheduled.go: how often a claim and a hand-over list an id.
use mailfold.Prelude.{
  ℕ, ◌+◌, ◌≤◌, String, ◌≡◌, ◌⊎◌, refl, ap, subst, ◌∙◌, Bool, true, false, not, none, some, List, [],
  ◌∷◌, ◌++◌, map, arith, ◌==◌, All, inl, inr, Bool-cases,
}
use mailfold.Sql.{Result, ok, err, Conn}
use mailfold.Sql.Table.{first, update}
use mailfold.ScheduledSend.{
  MessageRow, ScheduledSend, Table, Env, has_id, is_pending, is_due, claim_due, due_rows,
}
use mailfold.ScheduledSend.Order.{IsKeyed, All-due_rows, IsKeyed-due_rows}
use mailfold.ScheduledSend.Claim.{is_among, claim_all, first-claim_all, due_ids}
use mailfold.ScheduledSend.Exclusive.{claim_due_lem, claim_due-tables, among-All}
use mailfold.ScheduledSend.Once.{map_id, claimed_spent}
use mailfold.ScheduledSend.Steps.{Forward, mark_sent-Keeps, mark_failed-Keeps}
use mailfold.ScheduledSend.Dispatch.{
  Mail, Handed, Dispatcher, settle, dispatch_with, dispatch_one, batch,
}
use mailfold.ScheduledSend.AtMostOnce.{is_spent, Spent}
use mailfold.ScheduledSend.Machine.{times}

pub times-append : (id : ℕ) (a b : List ℕ) → times id (a ++ b) ≡ times id a + times id b
unfolding times
times-append id [] b = omega arith
times-append id (i ∷ a) b = ground (arith, times-append id a b)

pub ids-append :
    (a b : List ScheduledSend)
    → map (λ (s : ScheduledSend). s.id) (a ++ b)
      ≡ map (λ (s : ScheduledSend). s.id) a ++ map (λ (s : ScheduledSend). s.id) b
ids-append [] b = refl
ids-append (s ∷ a) b = ap (λ l. s.id ∷ l) (ids-append a b)

absent_times :
    (id : ℕ) (rs : List MessageRow)
    → first (has_id id) rs ≡ none
    → times id (map (λ r. r.id) rs) ≡ 0
unfolding first has_id times
absent_times id [] h = refl
absent_times id (r ∷ rs) h = ground (arith, absent_times id rs)

-- What a step of the dispatcher keeps of the table.
module _ (P : Table → Type 0)
    (keep : (p : MessageRow → Bool) (f : MessageRow → MessageRow)
      → Forward p f
      → (t : Table) → P t
      → P (update p f t)) where
  settle-Keeps :
      (row : ScheduledSend) (r : Result (Unit {0})) (c : Conn Table)
      → P c.tables
      → P (settle row r c).tables
  unfolding settle
  settle-Keeps row (ok u) c h = mark_sent-Keeps P keep row.id c h
  settle-Keeps row (err e) c h = mark_failed-Keeps P keep row.id e c h

  pub dispatch_one-Keeps :
      (mail : Mail) (row : ScheduledSend) (d : Dispatcher)
      → P d.conn.tables
      → P (dispatch_one mail row d).conn.tables
  unfolding dispatch_one dispatch_with
  dispatch_one-Keeps mail row d h = go (mail.credential row)
    where
      go : (r : Result String) → P (dispatch_with mail row r d).conn.tables
      go (err e) = mark_failed-Keeps P keep row.id e d.conn h
      go (ok pw) = settle-Keeps row (mail.send row pw) d.conn h

-- A message is handed over once at most by its step, and no other is.
pub dispatch_one-times :
    (mail : Mail) (row : ScheduledSend) (d : Dispatcher) (id : ℕ)
    → times id (map (λ (h : Handed). h.id) (dispatch_one mail row d).handed)
      ≤ times id (row.id ∷ map (λ (h : Handed). h.id) d.handed)
unfolding dispatch_one dispatch_with times
dispatch_one-times mail row d id = go (mail.credential row)
  where
    go :
        (r : Result String)
        → times id (map (λ (h : Handed). h.id) (dispatch_with mail row r d).handed)
          ≤ times id (row.id ∷ map (λ (h : Handed). h.id) d.handed)
    go (err e) = ground arith
    go (ok pw) = ground arith

-- A claimed id stands once in the claim, was pending, and is spent now.
module _ (id now : ℕ) (t : Table) (ids : List ℕ) where
  abbrev Taken : List MessageRow → Type 0
  Taken rs =
      (times id (map (λ r. r.id) rs) ≡ 0)
      ⊎ ((times id (map (λ r. r.id) rs) ≡ 1)
          × (is_spent (first (has_id id) t) ≡ false)
          × Spent id (claim_all now ids t))

  Taken-rows :
      (rs : List MessageRow)
      → IsKeyed rs
      → All (λ r. (first (has_id r.id) t ≡ some r) × (is_due now r ≡ true)) rs
      → All (λ r. is_among r.id ids ≡ true) rs
      → Taken rs
  unfolding times
  Taken-rows [] u h m = inl refl
  Taken-rows (r ∷ rs) u h m = elim (Bool-cases (r.id == id)) [
    | inl same ↦
        (let e : r.id ≡ id = ground (arith, same) in
          let none_left : times id (map (λ r. r.id) rs) ≡ 0 =
            subst (λ j. times j (map (λ r. r.id) rs) ≡ 0) e (absent_times r.id rs u.0) in
          let here : first (has_id id) t ≡ some r =
            subst (λ j. first (has_id j) t ≡ some r) e h.0.0 in
          let spent : Spent r.id (claim_all now ids t) =
            unfold is_spent in
            rw (first-claim_all now r.id ids t, h.0.0, m.0) (ap not (claimed_spent now r)) in
          let was : is_pending r ≡ true = unfold is_due in ground (arith, h.0.1) in
          let unspent : is_spent (first (has_id id) t) ≡ false =
            unfold is_spent in rw (here, was) refl in
          inr (
            ground (arith, same, none_left),
            unspent,
            subst (λ j. Spent j (claim_all now ids t)) e spent,
          ))
    | inr other ↦ rw other (Taken-rows rs u.1 h.1 m.1)
  ]

-- What a claim that succeeds hands out, of one id.
pub claimed_once :
    (env : Env) (now : ℕ) (c : Conn Table) (rows : List ScheduledSend) (id : ℕ)
    → IsKeyed c.tables
    → (claim_due env now batch c).0 ≡ ok rows
    → (times id (map (λ (s : ScheduledSend). s.id) rows) ≡ 0)
      ⊎ ((times id (map (λ (s : ScheduledSend). s.id) rows) ≡ 1)
          × (is_spent (first (has_id id) c.tables) ≡ false)
          × Spent id (claim_due env now batch c).1.tables)
claimed_once env now c rows id u h =
    let t = c.tables in
    let due = due_rows env now batch t in
    let ids = due_ids env now batch t in
    let same : map (λ (s : ScheduledSend). s.id) rows ≡ map (λ r. r.id) due =
      ap (map (λ s. s.id)) (claim_due_lem env now batch c rows 0 u h).0 ∙ map_id env now due in
    let tables = claim_due-tables env now batch c rows u h in
    rw (same, tables)
      (Taken-rows id now t ids due (IsKeyed-due_rows env now batch t u)
        (All-due_rows env now batch t u) (among-All due ids (λ j m. m)))
