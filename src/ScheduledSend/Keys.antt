-- ===== src/ScheduledSend/Keys.antt =====
-- backend/internal/scheduledsend/store.go: PRIMARY KEY (id) of the queue.
use mailfold.Prelude.{
  ℕ, String, ◌≡◌, refl, Bool, false, none, [], ◌∷◌, ◌++◌, map, arith, ◌==◌, All, inl, inr,
  Bool-cases,
}
use mailfold.Storage.{Time}
use mailfold.Sql.Table.{first, update, count}
use mailfold.Sql.Laws.{Keeps, Keeps-statement, Keeps-bind}
use mailfold.ScheduledSend.{
  MessageRow, OutgoingMessage, Table, Env, has_id, update_counted, reset_stale, create, new_row,
}
use mailfold.ScheduledSend.Order.{IsKeyed}
use mailfold.ScheduledSend.Steps.{Forward}

module _ (f : MessageRow → MessageRow) (keeps_id : (r : MessageRow) → (f r).id ≡ r.id) where
  none-update :
      (p : MessageRow → Bool) (j : ℕ) (t : Table)
      → first (has_id j) t ≡ none
      → first (has_id j) (update p f t) ≡ none
  unfolding first update has_id
  none-update p j [] h = refl
  none-update p j (r ∷ t) h = ground (arith, keeps_id r, none-update p j t)

  IsKeyed-update : (p : MessageRow → Bool) (t : Table) → IsKeyed t → IsKeyed (update p f t)
  unfolding update
  IsKeyed-update p [] u = tt
  IsKeyed-update p (r ∷ t) u = elim (Bool-cases (p r)) [
    | inl hit ↦ rw (hit, keeps_id r) (none-update p r.id t u.0, IsKeyed-update p t u.1)
    | inr miss ↦ rw miss (none-update p r.id t u.0, IsKeyed-update p t u.1)
  ]

pub IsKeyed-step :
    (p : MessageRow → Bool) (f : MessageRow → MessageRow)
    → Forward p f
    → (t : Table) → IsKeyed t
    → IsKeyed (update p f t)
IsKeyed-step p f g t = IsKeyed-update f g.0 p t

first-append :
    (j : ℕ) (t : Table) (r : MessageRow)
    → first (has_id j) t ≡ none
    → (r.id == j) ≡ false
    → first (has_id j) (t ++ r ∷ []) ≡ none
unfolding first has_id
first-append j [] r h d = ground arith
first-append j (x ∷ t) r h d = ground (arith, first-append j t r)

IsKeyed-append :
    (t : Table) (r : MessageRow)
    → All (λ i. (i == r.id) ≡ false) (map (λ x. x.id) t)
    → IsKeyed t
    → IsKeyed (t ++ r ∷ [])
unfolding first
IsKeyed-append [] r d u = (refl, tt)
IsKeyed-append (x ∷ t) r d u =
    (first-append x.id t r u.0 (ground (arith, d.0)), IsKeyed-append t r d.1 u.1)

update_counted-Keeps :
    (p : MessageRow → Bool) (f : MessageRow → MessageRow)
    → ((r : MessageRow) → (f r).id ≡ r.id)
    → Keeps IsKeyed (update_counted p f)
unfolding update_counted
update_counted-Keeps p f k =
    Keeps-bind IsKeyed _ _
      (Keeps-statement IsKeyed (λ t. (count p t, update p f t)) (λ t. IsKeyed-update f k p t))
      (λ n. Keeps-statement IsKeyed (λ t. (n, t)) (λ t u. u))

module _ (env : Env) where
  pub create-Keeps :
      (owner : String) (msg : OutgoingMessage) (scheduled_at : Time) (now : ℕ)
      → Keeps IsKeyed (create env owner msg scheduled_at now)
  unfolding create new_row
  create-Keeps owner msg scheduled_at now =
      Keeps-bind IsKeyed _ _
        (Keeps-statement IsKeyed _
          (λ t u. IsKeyed-append t _ (env.next_id-fresh (map (λ x. x.id) t)) u))
        (λ id. Keeps-statement IsKeyed (λ t. (id, t)) (λ t u. u))

pub reset_stale-Keeps : (older_than : ℕ) → Keeps IsKeyed (reset_stale older_than)
unfolding reset_stale
reset_stale-Keeps older_than = update_counted-Keeps _ _ (λ r. refl)
