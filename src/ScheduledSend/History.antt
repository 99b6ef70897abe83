-- ===== src/ScheduledSend/History.antt =====
-- backend/internal/api/webmail_scheduled.go: the dispatcher among other calls, over any history.
use mailfold.Prelude.{
  ℕ, String, ◌≡◌, refl, sym, ap, subst, ◌∙◌, true, false, not, none, some, List, [], ◌∷◌, map,
  arith, ◌==◌, All, inl, inr, Bool-cases,
}
use mailfold.Storage.{Time}
use mailfold.Sql.{Result, ok, err}
use mailfold.Sql.Table.{first}
use mailfold.ScheduledSend.{
  MessageRow, ScheduledSend, OutgoingMessage, Table, Env, has_id, is_pending, is_due, create,
  cancel, claim_due, due_rows,
}
use mailfold.ScheduledSend.Order.{IsKeyed, All-due_rows, IsKeyed-due_rows}
use mailfold.ScheduledSend.Claim.{is_among, claim_all, first-claim_all, due_ids}
use mailfold.ScheduledSend.Exclusive.{claim_due_lem, claim_due-tables, among-All}
use mailfold.ScheduledSend.Once.{map_id, claimed_spent}
use mailfold.ScheduledSend.Steps.{cancel-Keeps, claim_due-Keeps}
use mailfold.ScheduledSend.Keys.{IsKeyed-step, create-Keeps}
use mailfold.ScheduledSend.Dispatch.{
  Mail, Dispatcher, dispatch_claimed, dispatch_scheduled_sends, batch,
}
use mailfold.ScheduledSend.AtMostOnce.{
  is_spent, Spent, AllSpent, IsUnique, AllSpent-step, create-Spent, done, Sound, Fresh, all-Sound,
}

absent_ids :
    (id : ℕ) (rs : List MessageRow)
    → first (has_id id) rs ≡ none
    → is_among id (map (λ r. r.id) rs) ≡ false
unfolding first has_id is_among
absent_ids id [] h = refl
absent_ids id (r ∷ rs) h = ground (arith, absent_ids id rs)

ids-IsUnique : (rs : List MessageRow) → IsKeyed rs → IsUnique (map (λ r. r.id) rs)
ids-IsUnique [] u = tt
ids-IsUnique (r ∷ rs) u = (absent_ids r.id rs u.0, ids-IsUnique rs u.1)

-- What no claim takes is no row that is due.
not_done :
    (ids : List ℕ) (t : Table) (r : MessageRow)
    → AllSpent ids t
    → first (has_id r.id) t ≡ some r
    → is_pending r ≡ true
    → is_among r.id ids ≡ false
unfolding is_among is_spent
not_done [] t r s f p = refl
not_done (i ∷ ids) t r s f p = elim (Bool-cases (i == r.id)) [
  | inl same ↦
      (let e : i ≡ r.id = ground (arith, same) in
        let h : is_spent (some r) ≡ true =
          subst (λ o. is_spent o ≡ true) f (subst (λ i. Spent i t) e s.0) in
        let h' : not true ≡ true = rw p at h in cc)
  | inr other ↦ rw other (not_done ids t r s.1 f p)
]

module _ (env : Env) (now : ℕ) (t : Table) (ids : List ℕ) where
  -- The rows of a claim, after it.
  rows_spent :
      (rs : List MessageRow)
      → All (λ r. (first (has_id r.id) t ≡ some r) × (is_due now r ≡ true)) rs
      → All (λ r. is_among r.id ids ≡ true) rs
      → AllSpent (map (λ r. r.id) rs) (claim_all now ids t)
  unfolding is_spent
  rows_spent [] h m = tt
  rows_spent (r ∷ rs) h m = (
    rw (first-claim_all now r.id ids t, h.0.0, m.0) (ap not (claimed_spent now r)),
    rows_spent rs h.1 m.1,
  )

  rows_new :
      (banned : List ℕ) (rs : List MessageRow)
      → AllSpent banned t
      → All (λ r. (first (has_id r.id) t ≡ some r) × (is_due now r ≡ true)) rs
      → All (λ id. is_among id banned ≡ false) (map (λ r. r.id) rs)
  unfolding is_due
  rows_new banned [] s h = tt
  rows_new banned (r ∷ rs) s h =
      (not_done banned t r s h.0.0 (ground (arith, h.0.1)), rows_new banned rs s h.1)

module _ (env : Env) (mail : Mail) (banned : List ℕ) where
  claimed-Sound :
      (now : ℕ) (d : Dispatcher)
      → Sound banned d
      → Sound banned (record d { conn = (claim_due env now batch d.conn).1 })
  unfolding done
  claimed-Sound now d s = record {
    keyed = claim_due-Keeps IsKeyed IsKeyed-step env now batch d.conn s.keyed;
    spent =
        claim_due-Keeps (AllSpent (done banned d)) (AllSpent-step (done banned d)) env now batch
          d.conn s.spent;
    unique = s.unique;
  }

  claimed-Fresh :
      (now : ℕ) (d : Dispatcher) (rows : List ScheduledSend)
      → Sound banned d
      → (claim_due env now batch d.conn).0 ≡ ok rows
      → Fresh banned rows (record d { conn = (claim_due env now batch d.conn).1 })
  unfolding done
  claimed-Fresh now d rows s h =
      let t = d.conn.tables in
      let due = due_rows env now batch t in
      let ids = due_ids env now batch t in
      let on_table = All-due_rows env now batch t s.keyed in
      let same : map (λ (s : ScheduledSend). s.id) rows ≡ map (λ r. r.id) due =
        ap (map (λ s. s.id)) (claim_due_lem env now batch d.conn rows 0 s.keyed h).0
        ∙ map_id env now due in
      let tables = claim_due-tables env now batch d.conn rows s.keyed h in
      record {
        spent =
            subst (λ l. AllSpent l (claim_due env now batch d.conn).1.tables) (sym same)
              (subst (AllSpent (map (λ r. r.id) due)) (sym tables)
                (rows_spent env now t ids due on_table (among-All due ids (λ j m. m))));
        unique =
            subst IsUnique (sym same) (ids-IsUnique due (IsKeyed-due_rows env now batch t s.keyed));
        new_ids =
            subst (All (λ id. is_among id (done banned d) ≡ false)) (sym same)
              (rows_new env now t ids (done banned d) due s.spent on_table);
      }

  dispatch-Sound :
      (now : ℕ) (d : Dispatcher)
      → Sound banned d
      → Sound banned (dispatch_scheduled_sends env mail now d)
  unfolding dispatch_scheduled_sends dispatch_claimed
  dispatch-Sound now d s = go (claim_due env now batch d.conn).0 refl
    where
      go :
          (r : Result (List ScheduledSend))
          → (claim_due env now batch d.conn).0 ≡ r
          → Sound banned
              (dispatch_claimed mail r (record d { conn = (claim_due env now batch d.conn).1 }))
      go (err e) h = claimed-Sound now d s
      go (ok rows) h =
          all-Sound mail banned rows (record d { conn = (claim_due env now batch d.conn).1 })
            (claimed-Sound now d s) (claimed-Fresh now d rows s h)

-- What happens to the queue between restarts, a dispatch as a whole.
pub data Event : Type 0 where
  dispatches : Mail → ℕ → Event
  creates : String → OutgoingMessage → Time → ℕ → Event
  cancels : String → ℕ → Event

unfoldable pub happen : Env → Event → Dispatcher → Dispatcher
happen env (dispatches mail now) d = dispatch_scheduled_sends env mail now d
happen env (creates owner msg moment now) d = record d {
  conn = (create env owner msg moment now d.conn).1;
}
happen env (cancels owner id) d = record d { conn = (cancel owner id d.conn).1 }

unfoldable pub after : Env → List Event → Dispatcher → Dispatcher
unfolding happen
after env [] d = d
after env (e ∷ es) d = after env es (happen env e d)

module _ (env : Env) (banned : List ℕ) where
  happen-Sound : (e : Event) (d : Dispatcher) → Sound banned d → Sound banned (happen env e d)
  unfolding happen done
  happen-Sound (dispatches mail now) d s = dispatch-Sound env mail banned now d s
  happen-Sound (creates owner msg moment now) d s = record {
    keyed = create-Keeps env owner msg moment now d.conn s.keyed;
    spent = create-Spent (done banned d) env owner msg moment now d.conn s.spent;
    unique = s.unique;
  }
  happen-Sound (cancels owner id) d s = record {
    keyed = cancel-Keeps IsKeyed IsKeyed-step owner id d.conn s.keyed;
    spent =
        cancel-Keeps (AllSpent (done banned d)) (AllSpent-step (done banned d)) owner id d.conn
          s.spent;
    unique = s.unique;
  }

  pub after-Sound :
      (es : List Event) (d : Dispatcher) → Sound banned d → Sound banned (after env es d)
  unfolding after
  after-Sound [] d s = s
  after-Sound (e ∷ es) d s = after-Sound es (happen env e d) (happen-Sound e d s)
