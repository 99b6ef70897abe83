-- ===== src/ScheduledSend/Claim.antt =====
-- `ClaimDue` of backend/internal/scheduledsend/store.go: the rows that a claim takes, and that no two
-- claims take the same one.
use mathlib.Core.Option
use mailfold.Prelude.{
  ℕ, ◌≡◌, ◌⊎◌, String, refl, ap, ◌∙◌, Bool, true, false, ◌&&◌, ◌||◌, Option, none, some, List, [],
  ◌∷◌, map, arith, ◌==◌, if◌then◌else◌, inl, inr, Bool-cases,
}
use mailfold.Sql.{Result, ok, err, ◌>>◌}
use mailfold.Sql.Table.{first, update}
use mailfold.Sql.Ideal.{
  then_ideal, Implements, statement-Implements, lift-Implements, bind-Implements, roll_back_ideal,
  transaction-Implements, Implements-of_eq,
}
use mailfold.ScheduledSend.{
  MessageRow, ScheduledSend, Table, is_status, is_pending, has_id, claim, claim_ids, found,
  scan_row, Env, due_rows, select_due_ids, load_rows_by_id, claim_batch, claim_due,
}

-- The row id is among those of the list.
unfoldable pub is_among : ℕ → List ℕ → Bool
is_among j [] = false
is_among j (i ∷ is) = (i == j) || is_among j is

-- What a claim does to one row.
unfoldable pub claimed_if : ℕ → Bool → MessageRow → MessageRow
claimed_if now true r = if is_pending r then claim now r else r
claimed_if now false r = r

-- The tables after `claimIDs`.
unfoldable pub claim_all : ℕ → List ℕ → Table → Table
claim_all now [] t = t
claim_all now (id ∷ ids) t =
    claim_all now ids (update (λ r. has_id id r && is_pending r) (claim now) t)

pub claim_ids-Implements :
    (now : ℕ) (ids : List ℕ) → Implements (claim_ids now ids) (λ t. (ok tt, claim_all now ids t))
unfolding claim_ids claim_all ◌>>◌ then_ideal
claim_ids-Implements now [] = lift-Implements (ok tt)
claim_ids-Implements now (id ∷ ids) =
    bind-Implements
      (statement-Implements (λ t. (tt, update (λ r. has_id id r && is_pending r) (claim now) t)))
      (λ _. claim_ids-Implements now ids)

pub first-claim_one :
    (now j id : ℕ) (t : Table)
    → first (has_id j) (update (λ r. has_id id r && is_pending r) (claim now) t)
      ≡ Option.map (claimed_if now (id == j)) (first (has_id j) t)
unfolding first update has_id claim claimed_if
first-claim_one now j id [] = refl
first-claim_one now j id (r ∷ t) = elim (Bool-cases (r.id == j)) [
  | inl hit ↦ elim (Bool-cases (id == j)) [
    | inl same ↦ elim (Bool-cases (is_pending r)) [
      | inl on ↦ ground (arith, on, hit, same)
      | inr off ↦ ground (arith, off, hit, same)
    ]
    | inr ne ↦ ground (arith, hit, ne)
  ]
  | inr miss ↦ elim (Bool-cases (r.id == id && is_pending r)) [
    | inl on ↦ ground (arith, on, miss, first-claim_one now j id t)
    | inr off ↦ ground (arith, off, miss, first-claim_one now j id t)
  ]
]

claimed_twice :
    (now : ℕ) (a b : Bool) (r : MessageRow)
    → claimed_if now b (claimed_if now a r) ≡ claimed_if now (a || b) r
unfolding claimed_if is_pending claim is_status
claimed_twice now true true r = elim (Bool-cases (is_pending r)) [
  | inl on ↦ rw on refl
  | inr off ↦ rw (off, off) refl
]
claimed_twice now true false r = refl
claimed_twice now false true r = refl
claimed_twice now false false r = refl

-- Under each id the claim acts on the row that was found there.
pub first-claim_all :
    (now j : ℕ) (ids : List ℕ) (t : Table)
    → first (has_id j) (claim_all now ids t)
      ≡ Option.map (claimed_if now (is_among j ids)) (first (has_id j) t)
unfolding claim_all is_among claimed_if
first-claim_all now j [] t = unclaimed (first (has_id j) t)
  where
    unclaimed : (o : Option MessageRow) → o ≡ Option.map (claimed_if now false) o
    unclaimed none = refl
    unclaimed (some r) = refl
first-claim_all now j (id ∷ ids) t =
    first-claim_all now j ids (update (λ r. has_id id r && is_pending r) (claim now) t)
    ∙ ap (Option.map (claimed_if now (is_among j ids))) (first-claim_one now j id t)
    ∙ both (first (has_id j) t)
  where
    both :
        (o : Option MessageRow)
        → Option.map (claimed_if now (is_among j ids)) (Option.map (claimed_if now (id == j)) o)
          ≡ Option.map (claimed_if now ((id == j) || is_among j ids)) o
    both none = refl
    both (some r) = ap some (claimed_twice now (id == j) (is_among j ids) r)

module _ (env : Env) where
  unfoldable pub cons_row :
      Result MessageRow → Result (List ScheduledSend) → Result (List ScheduledSend)
  cons_row (ok r) (ok rest) = ok (scan_row env r ∷ rest)
  cons_row (ok r) (err e) = err e
  cons_row (err e) rest = err e

  -- The rows under the ids, as they are loaded.
  unfoldable pub load_all : List ℕ → Table → Result (List ScheduledSend)
  load_all [] t = ok []
  load_all (id ∷ ids) t = cons_row (found (first (has_id id) t)) (load_all ids t)

  load_step :
      (r : Result MessageRow) (rest : Table → Result (List ScheduledSend)) (t : Table)
      → then_ideal r t (λ r t. then_ideal (rest t) t (λ rest t. (ok (scan_row env r ∷ rest), t)))
        ≡ (cons_row r (rest t), t)
  unfolding cons_row then_ideal
  load_step (err e) rest t = refl
  load_step (ok r) rest t = elim (result_cases (rest t)) [
    | inl (l, e) ↦ rw e refl
    | inr (x, e) ↦ rw e refl
  ]
    where
      result_cases :
          {A : Type 0} (r : Result A) → ((a : A) × (r ≡ ok a)) ⊎ ((e : String) × (r ≡ err e))
      result_cases (ok a) = inl (a, refl)
      result_cases (err e) = inr (e, refl)

  load_rows-Implements :
      (ids : List ℕ) → Implements (load_rows_by_id env ids) (λ t. (load_all ids t, t))
  unfolding load_rows_by_id load_all then_ideal
  load_rows-Implements [] = lift-Implements (ok [])
  load_rows-Implements (id ∷ ids) =
      Implements-of_eq
        (λ t.
          then_ideal (found (first (has_id id) t)) t
            (λ r t. then_ideal (load_all ids t) t (λ rest t. (ok (scan_row env r ∷ rest), t))))
        (λ t. (load_all (id ∷ ids) t, t))
        (λ t. load_step (found (first (has_id id) t)) (load_all ids) t)
        (bind-Implements (statement-Implements (λ t. (first (has_id id) t, t))) (λ o.
          bind-Implements (lift-Implements (found o)) (λ r.
            bind-Implements (load_rows-Implements ids)
              (λ rest. lift-Implements (ok (scan_row env r ∷ rest))))))

  claim_batch-Implements :
      (now : ℕ) (ids : List ℕ)
      → Implements
          (claim_batch env now ids)
          (λ t. (load_all ids (claim_all now ids t), claim_all now ids t))
  unfolding claim_batch load_all claim_all ◌>>◌ then_ideal
  claim_batch-Implements now [] = lift-Implements (ok [])
  claim_batch-Implements now (id ∷ ids) =
      bind-Implements (claim_ids-Implements now (id ∷ ids)) (λ _. load_rows-Implements (id ∷ ids))

  -- The ids that `ClaimDue` selects.
  abbrev pub due_ids : ℕ → ℕ → Table → List ℕ
  due_ids now limit t = map (λ r. r.id) (due_rows env now limit t)

  pub claim_due-Implements :
      (now limit : ℕ)
      → Implements (claim_due env now limit) (λ t. roll_back_ideal t (
        load_all (due_ids now limit t) (claim_all now (due_ids now limit t) t),
        claim_all now (due_ids now limit t) t,
      ))
  unfolding claim_due select_due_ids then_ideal
  claim_due-Implements now limit = transaction-Implements (
      bind-Implements (statement-Implements (λ t. (due_ids now limit t, t)))
        (claim_batch-Implements now))
