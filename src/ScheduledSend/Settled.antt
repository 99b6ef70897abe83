-- ===== src/ScheduledSend/Settled.antt =====
-- backend/internal/scheduledsend/store.go: rows that no dispatcher takes and no restart gives back.
use mailfold.Prelude.{
  ℕ, String, ◌≡◌, refl, subst, Bool, true, false, Option, none, some, [], ◌∷◌, ◌++◌, arith, ltb,
  inl, inr, Bool-cases,
}
use mailfold.Storage.{Time}
use mailfold.Sql.Table.{first, update, count}
use mailfold.Sql.Laws.{Keeps, Keeps-statement, Keeps-bind}
use mailfold.ScheduledSend.{
  MessageRow, OutgoingMessage, Table, Env, has_id, is_pending, is_stale, update_counted, create,
  reset_stale, pending,
}
use mailfold.ScheduledSend.Order.{IsKeyed}
use mailfold.ScheduledSend.Steps.{is_final, Forward}
use mailfold.ScheduledSend.AtMostOnce.{is_spent}

-- Under the id stands a row that no dispatcher takes and no restart gives back.
unfoldable pub is_settled : Option MessageRow → Bool
is_settled none = false
is_settled (some r) = is_final r

abbrev pub Settled : ℕ → Table → Type 0
Settled id t = is_settled (first (has_id id) t) ≡ true

Settled-update :
    (id : ℕ) (p : MessageRow → Bool) (f : MessageRow → MessageRow)
    → ((r : MessageRow) → (f r).id ≡ r.id)
    → ((r : MessageRow) → p r ≡ true → is_final r ≡ true → is_final (f r) ≡ true)
    → (t : Table) → Settled id t
    → Settled id (update p f t)
unfolding first update has_id is_settled
Settled-update id p f k g [] h = h
Settled-update id p f k g (r ∷ t) h = ground (arith, k r, g r, Settled-update id p f k g t)

pub Settled-step :
    (id : ℕ) (p : MessageRow → Bool) (f : MessageRow → MessageRow)
    → Forward p f
    → (t : Table) → Settled id t
    → Settled id (update p f t)
Settled-step id p f g = Settled-update id p f g.0 g.2

Settled-append : (id : ℕ) (t : Table) (r : MessageRow) → Settled id t → Settled id (t ++ r ∷ [])
unfolding first has_id is_settled
Settled-append id [] r h = cc
Settled-append id (x ∷ t) r h = ground (arith, Settled-append id t r)

pub Settled-spent : (o : Option MessageRow) → is_settled o ≡ true → is_spent o ≡ true
unfolding is_settled is_spent is_final
Settled-spent none h = cc
Settled-spent (some r) h = ground (arith, h)

pub reset-Settled : (id older_than : ℕ) → Keeps (Settled id) (reset_stale older_than)
unfolding reset_stale update_counted is_stale is_final
reset-Settled id older_than =
    let f = λ (r : MessageRow). record r { status = pending } in
    Keeps-bind (Settled id) _ _
      (Keeps-statement (Settled id)
        (λ t. (count (is_stale older_than) t, update (is_stale older_than) f t))
        (λ t.
          Settled-update id (is_stale older_than) f (λ r. refl) (λ r h k. ground (arith, h, k)) t))
      (λ n. Keeps-statement (Settled id) (λ t. (n, t)) (λ t u. u))

pub creates-Settled :
    (env : Env) (owner : String) (msg : OutgoingMessage) (moment : Time) (now id : ℕ)
    → Keeps (Settled id) (create env owner msg moment now)
unfolding create
creates-Settled env owner msg moment now id =
    Keeps-bind (Settled id) _ _ (Keeps-statement (Settled id) _ (λ t. Settled-append id t _))
      (λ j. Keeps-statement (Settled id) (λ t. (j, t)) (λ t u. u))

count-none :
    (p : MessageRow → Bool) (id : ℕ) (t : Table)
    → ((r : MessageRow) → p r ≡ true → has_id id r ≡ true)
    → first (has_id id) t ≡ none
    → count p t ≡ 0
unfolding first count
count-none p id [] k h = refl
count-none p id (r ∷ t) k h = ground (arith, k r, count-none p id t k)

-- An update of pending rows of the id that has found one: the id's row was pending, and is final now.
pub final_row :
    (p : MessageRow → Bool) (f : MessageRow → MessageRow) (id : ℕ) (t : Table)
    → ((r : MessageRow) → p r ≡ true → (has_id id r ≡ true) × (is_pending r ≡ true))
    → ((r : MessageRow) → (has_id id (f r) ≡ has_id id r) × (is_final (f r) ≡ true))
    → IsKeyed t
    → ltb 0 (count p t) ≡ true
    → (is_spent (first (has_id id) t) ≡ false) × Settled id (update p f t)
unfolding first update count is_spent is_settled
final_row p f id [] k g u h = cc
final_row p f id (r ∷ t) k g u h = elim (Bool-cases (has_id id r)) [
  | inl here ↦
      (let none_left : count p t ≡ 0 =
          count-none p id t (λ r h. (k r h).0)
            (subst (λ j. first (has_id j) t ≡ none) (same r here) u.0) in
        ground (arith, here, none_left, g r, k r))
  | inr elsewhere ↦
      (let rest = final_row p f id t k g u.1 in ground (arith, elsewhere, k r, g r, rest))
]
  where
    same : (r : MessageRow) → has_id id r ≡ true → r.id ≡ id
    same r h = unfold has_id in ground (arith, h)
