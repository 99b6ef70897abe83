-- ===== src/ScheduledSend/Steps.antt =====
-- backend/internal/scheduledsend/store.go: what the methods keep of the table, if their updates do.
use mailfold.Prelude.{
  ℕ, String, ◌≡◌, refl, Bool, true, false, not, ◌&&◌, arith, List, [], ◌∷◌, str_eq,
}
use mailfold.Sql.{◌>>◌}
use mailfold.Sql.Table.{first, update, count}
use mailfold.Sql.Laws.{Keeps, Keeps-statement, Keeps-bind, Keeps-transaction}
use mailfold.ScheduledSend.{
  MessageRow, Table, Env, has_id, is_pending, is_status, claim, update_counted, cancel, mark_sent,
  mark_failed, claim_ids, claim_batch, claim_due, load_rows_by_id, select_due_ids, found, sending,
  canceled,
}

-- No dispatcher takes the row and no restart gives it back.
unfoldable pub is_final : MessageRow → Bool
unfolding is_pending
is_final r = not (is_pending r) && not (is_status r.status sending)

-- An update that leaves the id, does not make a row pending that was not, and leaves final rows final.
abbrev pub Forward : (MessageRow → Bool) → (MessageRow → MessageRow) → Type 0
Forward p f =
    ((r : MessageRow) → (f r).id ≡ r.id)
    × ((r : MessageRow) → is_pending r ≡ false → is_pending (f r) ≡ false)
    × ((r : MessageRow) → p r ≡ true → is_final r ≡ true → is_final (f r) ≡ true)

claim-Forward : (now id : ℕ) → Forward (λ r. has_id id r && is_pending r) (claim now)
unfolding claim is_pending is_status is_final
claim-Forward now id = (λ r. refl, λ r h. refl, λ r h k. ground (arith, h, k))

module _ (P : Table → Type 0)
    (keep : (p : MessageRow → Bool) (f : MessageRow → MessageRow)
      → Forward p f
      → (t : Table) → P t
      → P (update p f t)) where
  pub cancel-Keeps : (owner : String) (id : ℕ) → Keeps P (cancel owner id)
  unfolding cancel update_counted is_pending is_status is_final
  cancel-Keeps owner id =
      let p = λ (r : MessageRow). has_id id r && (str_eq r.owner_email owner && is_pending r) in
      let f = λ (r : MessageRow). record r { status = canceled } in
      Keeps-bind P _ _
        (Keeps-bind P _ _
          (Keeps-statement P (λ t. (count p t, update p f t))
            (keep p f (λ r. refl, λ r h. refl, λ r h k. refl)))
          (λ n. Keeps-statement P (λ t. (n, t)) (λ t u. u)))
        (λ n c u. u)

  pub mark_sent-Keeps : (id : ℕ) → Keeps P (mark_sent id)
  unfolding mark_sent is_pending is_status is_final
  mark_sent-Keeps id = Keeps-statement P _ (keep _ _ (λ r. refl, λ r h. refl, λ r h k. refl))

  pub mark_failed-Keeps : (id : ℕ) (msg : String) → Keeps P (mark_failed id msg)
  unfolding mark_failed is_pending is_status is_final
  mark_failed-Keeps id msg = Keeps-statement P _ (keep _ _ (λ r. refl, λ r h. refl, λ r h k. refl))

  claim_ids-Keeps : (now : ℕ) (ids : List ℕ) → Keeps P (claim_ids now ids)
  unfolding claim_ids ◌>>◌
  claim_ids-Keeps now [] = λ c u. u
  claim_ids-Keeps now (id ∷ ids) =
      Keeps-bind P _ _ (Keeps-statement P _ (keep _ (claim now) (claim-Forward now id)))
        (λ _. claim_ids-Keeps now ids)

  module _ (env : Env) where
    load_rows-Keeps : (ids : List ℕ) → Keeps P (load_rows_by_id env ids)
    unfolding load_rows_by_id
    load_rows-Keeps [] = λ c u. u
    load_rows-Keeps (id ∷ ids) =
        Keeps-bind P _ _ (Keeps-statement P (λ t. (first (has_id id) t, t)) (λ t u. u)) (λ o.
          Keeps-bind P (λ c. (found o, c)) _ (λ c u. u)
            (λ r. Keeps-bind P _ _ (load_rows-Keeps ids) (λ rest c u. u)))

    claim_batch-Keeps : (now : ℕ) (ids : List ℕ) → Keeps P (claim_batch env now ids)
    unfolding claim_batch ◌>>◌
    claim_batch-Keeps now [] = λ c u. u
    claim_batch-Keeps now (id ∷ ids) =
        Keeps-bind P _ _ (claim_ids-Keeps now (id ∷ ids)) (λ _. load_rows-Keeps (id ∷ ids))

    pub claim_due-Keeps : (now limit : ℕ) → Keeps P (claim_due env now limit)
    unfolding claim_due select_due_ids
    claim_due-Keeps now limit =
        Keeps-transaction P _
          (Keeps-bind P _ _ (Keeps-statement P _ (λ t u. u)) (claim_batch-Keeps now))
