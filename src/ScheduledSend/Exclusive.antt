-- ===== src/ScheduledSend/Exclusive.antt =====
-- `ClaimDue` of backend/internal/scheduledsend/store.go over a table with unique ids: what it returns,
-- and that no later claim returns the same row.
use mathlib.Core.Option
use mailfold.Prelude.{ℕ, ◌≡◌, refl, sym, ap, ◌∙◌, true, some, List, [], ◌∷◌, map, arith, All}
use mailfold.Sql.{ok, Conn}
use mailfold.Sql.Table.{first}
use mailfold.Sql.Laws.{IsReliable}
use mailfold.Sql.Ideal.{roll_back_ideal}
use mailfold.ScheduledSend.{
  MessageRow, ScheduledSend, Table, is_pending, has_id, is_due, claim, scan_row, Env, due_rows,
  claim_due,
}
use mailfold.ScheduledSend.Order.{IsKeyed, All-due_rows}
use mailfold.ScheduledSend.Claim.{
  is_among, claimed_if, claim_all, first-claim_all, cons_row, load_all, due_ids,
  claim_due-Implements,
}

-- The ids of the rows are among the ids of the list.
pub among-All :
    (rs : List MessageRow) (ids : List ℕ)
    → ((j : ℕ) → is_among j (map (λ r. r.id) rs) ≡ true → is_among j ids ≡ true)
    → All (λ r. is_among r.id ids ≡ true) rs
unfolding is_among
among-All [] ids h = tt
among-All (r ∷ rs) ids h = (h r.id (ground arith), among-All rs ids (λ j m. h j (ground arith)))

due_claimed :
    (now : ℕ) (ids : List ℕ) (r : MessageRow)
    → is_due now r ≡ true
    → is_among r.id ids ≡ true
    → Option.map (claimed_if now (is_among r.id ids)) (some r) ≡ some (claim now r)
unfolding claimed_if is_due
due_claimed now ids r d m = let on : is_pending r ≡ true = ground arith in rw (m, on) refl

module _ (env : Env) (now : ℕ) (t : Table) where
  load_claimed :
      (rs : List MessageRow) (ids : List ℕ)
      → All (λ r. (first (has_id r.id) t ≡ some r) × (is_due now r ≡ true)) rs
      → All (λ r. is_among r.id ids ≡ true) rs
      → load_all env (map (λ r. r.id) rs) (claim_all now ids t)
        ≡ ok (map (λ r. scan_row env (claim now r)) rs)
  unfolding load_all cons_row
  load_claimed [] ids h m = refl
  load_claimed (r ∷ rs) ids h m =
      let here : first (has_id r.id) (claim_all now ids t) ≡ some (claim now r) =
        first-claim_all now r.id ids t
        ∙ ap (Option.map (claimed_if now (is_among r.id ids))) h.0.0
        ∙ due_claimed now ids r h.0.1 m.0 in
      rw (here, load_claimed rs ids h.1 m.1) refl

  module _ (limit : ℕ) (u : IsKeyed t) where
    claim_due_ideal :
        roll_back_ideal t (
          load_all env (due_ids env now limit t) (claim_all now (due_ids env now limit t) t),
          claim_all now (due_ids env now limit t) t,
        )
        ≡ (
          ok (map (λ r. scan_row env (claim now r)) (due_rows env now limit t)),
          claim_all now (due_ids env now limit t) t,
        )
    unfolding roll_back_ideal
    claim_due_ideal =
        rw
          (load_claimed (due_rows env now limit t) (due_ids env now limit t)
            (All-due_rows env now limit t u)
            (among-All (due_rows env now limit t) (due_ids env now limit t) (λ j m. m)))
          refl

-- A claim on a table with unique ids that succeeds hands back the due rows, soonest first and at
-- most `limit` of them, marked as being sent; under any id `j` the table then holds the row that
-- it held, marked in the same way if `j` is the id of one of them.
pub claim_due_lem :
    (env : Env) (now limit : ℕ) (c : Conn Table) (claimed : List ScheduledSend) (j : ℕ)
    → IsKeyed c.tables
    → (claim_due env now limit c).0 ≡ ok claimed
    → (claimed ≡ map (λ r. scan_row env (claim now r)) (due_rows env now limit c.tables))
      × (first (has_id j) (claim_due env now limit c).1.tables
          ≡ Option.map
              (claimed_if now (is_among j (due_ids env now limit c.tables)))
              (first (has_id j) c.tables))
claim_due_lem env now limit c claimed j u h =
    let w = (claim_due-Implements env now limit).when_ok c claimed h in
    let i = claim_due_ideal env now c.tables limit u in
    (
      ok_inj (sym w.0 ∙ ap (λ x. x.0) i),
      ap (first (has_id j)) (w.1 ∙ ap (λ x. x.1) i)
          ∙ first-claim_all now j (due_ids env now limit c.tables) c.tables,
    )
  where
    ok_inj : {A : Type 0} {a b : A} → ok a ≡ ok b → a ≡ b
    ok_inj e = cc

pub claim_due-tables :
    (env : Env) (now limit : ℕ) (c : Conn Table) (claimed : List ScheduledSend)
    → IsKeyed c.tables
    → (claim_due env now limit c).0 ≡ ok claimed
    → (claim_due env now limit c).1.tables ≡ claim_all now (due_ids env now limit c.tables) c.tables
claim_due-tables env now limit c claimed u h =
    ((claim_due-Implements env now limit).when_ok c claimed h).1
    ∙ ap (λ x. x.1) (claim_due_ideal env now c.tables limit u)

-- Where the driver reports no error, a claim on a table with unique ids succeeds and hands back
-- the due rows, marked as being sent.
pub claim_due_total :
    (env : Env) (now limit : ℕ) (c : Conn Table)
    → IsKeyed c.tables
    → IsReliable c
    → (claim_due env now limit c).0
      ≡ ok (map (λ r. scan_row env (claim now r)) (due_rows env now limit c.tables))
claim_due_total env now limit c u r =
    ((claim_due-Implements env now limit).reliable c r).0
    ∙ ap (λ x. x.0) (claim_due_ideal env now c.tables limit u)
