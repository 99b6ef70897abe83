-- ===== src/ScheduledSend/Once.antt =====
-- `ClaimDue` of backend/internal/scheduledsend/store.go, twice: no row is handed out by two claims.
use mathlib.Core.Option
use mailfold.Prelude.{
  ℕ, ◌≡◌, refl, sym, ap, ◌∙◌, subst, Bool, true, false, ◌&&◌, Option, none, some, List, [], ◌∷◌,
  map, arith, ◌==◌, if◌then◌else◌, All, inl, inr, Bool-cases,
}
use mailfold.Sql.{ok, Conn}
use mailfold.Sql.Table.{first, update}
use mailfold.ScheduledSend.{
  MessageRow, ScheduledSend, Table, is_status, is_pending, has_id, is_due, claim, scan_row, Env,
  due_rows, claim_due,
}
use mailfold.ScheduledSend.Order.{IsKeyed, All-due_rows}
use mailfold.ScheduledSend.Claim.{
  is_among, claimed_if, claim_all, first-claim_one, first-claim_all, due_ids,
}
use mailfold.ScheduledSend.Exclusive.{claim_due_lem, claim_due-tables}

IsKeyed-claim_one :
    (now id : ℕ) (t : Table)
    → IsKeyed t
    → IsKeyed (update (λ r. has_id id r && is_pending r) (claim now) t)
unfolding update claim
IsKeyed-claim_one now id [] u = tt
IsKeyed-claim_one now id (r ∷ t) u =
    (same_id (has_id id r && is_pending r), IsKeyed-claim_one now id t u.1)
  where
    gone : first (has_id r.id) (update (λ r. has_id id r && is_pending r) (claim now) t) ≡ none
    gone = first-claim_one now r.id id t ∙ ap (Option.map (claimed_if now (id == r.id))) u.0

    same_id :
        (b : Bool)
        → first
            (has_id (if b then claim now r else r).id)
            (update (λ r. has_id id r && is_pending r) (claim now) t)
          ≡ none
    same_id true = gone
    same_id false = gone

IsKeyed-claim_all : (now : ℕ) (ids : List ℕ) (t : Table) → IsKeyed t → IsKeyed (claim_all now ids t)
unfolding claim_all
IsKeyed-claim_all now [] t u = u
IsKeyed-claim_all now (id ∷ ids) t u =
    IsKeyed-claim_all now ids (update (λ r. has_id id r && is_pending r) (claim now) t)
      (IsKeyed-claim_one now id t u)

pub claimed_spent : (now : ℕ) (x : MessageRow) → is_pending (claimed_if now true x) ≡ false
unfolding claimed_if is_pending claim is_status
claimed_spent now x = elim (Bool-cases (is_pending x)) [
  | inl on ↦ rw on refl
  | inr off ↦ rw (off, off) refl
]

still_pending : Option MessageRow → Bool
still_pending none = false
still_pending (some r) = is_pending r

-- What stands under a claimed id is not due.
not_due :
    (now later : ℕ) (o : Option MessageRow) (r : MessageRow) (b : Bool)
    → Option.map (claimed_if now b) o ≡ some r
    → is_due later r ≡ true
    → b ≡ false
unfolding is_due still_pending
not_due now later o r false h d = refl
not_due now later none r true h d = cc
not_due now later (some x) r true h d =
    let spent : is_pending (claimed_if now true x) ≡ is_pending r = ap still_pending h in
    ground (arith, spent, claimed_spent now x)

pub map_id :
    (env : Env) (now : ℕ) (rs : List MessageRow)
    → map (λ s. s.id) (map (λ r. scan_row env (claim now r)) rs) ≡ map (λ r. r.id) rs
unfolding scan_row claim
map_id env now [] = refl
map_id env now (r ∷ rs) = ap (λ l. r.id ∷ l) (map_id env now rs)

module _ (env : Env) (now later : ℕ) (ids : List ℕ) (t : Table) where
  none_again :
      (rs : List MessageRow)
      → All (λ r. (first (has_id r.id) (claim_all now ids t) ≡ some r) × (is_due later r ≡ true)) rs
      → All (λ s. is_among s.id ids ≡ false) (map (λ r. scan_row env (claim later r)) rs)
  unfolding scan_row claim
  none_again [] h = tt
  none_again (r ∷ rs) h = (
    not_due now later (first (has_id r.id) t) r (is_among r.id ids)
        (sym (first-claim_all now r.id ids t) ∙ h.0.0) h.0.1,
    none_again rs h.1,
  )

-- On a table with unique ids, of two successful claims directly one after the other, at any
-- instants, the second hands out no row that the first has handed out.
pub claim_once :
    (env : Env) (now later limit limit' : ℕ) (c : Conn Table) (claimed again : List ScheduledSend)
    → IsKeyed c.tables
    → (claim_due env now limit c).0 ≡ ok claimed
    → (claim_due env later limit' (claim_due env now limit c).1).0 ≡ ok again
    → All (λ s. is_among s.id (map (λ s. s.id) claimed) ≡ false) again
claim_once env now later limit limit' c claimed again u h h' =
    let ids = due_ids env now limit c.tables in
    let t' = claim_all now ids c.tables in
    let c' = (claim_due env now limit c).1 in
    let tables : c'.tables ≡ t' = claim_due-tables env now limit c claimed u h in
    let u' : IsKeyed c'.tables =
      subst IsKeyed (sym tables) (IsKeyed-claim_all now ids c.tables u) in
    let first_ids : map (λ s. s.id) claimed ≡ ids =
      ap (map (λ s. s.id)) (claim_due_lem env now limit c claimed 0 u h).0
      ∙ map_id env now (due_rows env now limit c.tables) in
    let rows : again ≡ map (λ r. scan_row env (claim later r)) (due_rows env later limit' t') =
      (claim_due_lem env later limit' c' again 0 u' h').0
      ∙ ap (λ t. map (λ r. scan_row env (claim later r)) (due_rows env later limit' t)) tables in
    subst (λ l. All (λ s. is_among s.id l ≡ false) again) (sym first_ids)
      (subst (All (λ s. is_among s.id ids ≡ false)) (sym rows) (
        none_again env now later ids c.tables (due_rows env later limit' t')
          (All-due_rows env later limit' t' (IsKeyed-claim_all now ids c.tables u))))
