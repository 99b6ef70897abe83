-- ===== src/ScheduledSend/Cancellation.antt =====
-- backend/internal/scheduledsend/store.go and backend/internal/api/webmail_scheduled.go: a message that has
-- been canceled is not handed over, nor has it been.
use mailfold.Prelude.{
  ℕ, ◌+◌, String, ◌≡◌, refl, sym, ap, subst, ◌∙◌, Bool, true, false, ◌&&◌, List, [], ◌∷◌, map,
  arith, str_eq, ltb, inl, inr,
}
use mailfold.Sql.{Result, ok, err, Conn}
use mailfold.Sql.Table.{first, update, count}
use mailfold.Sql.Triple.{
  Triple, Triple-ok, known-Triple, statement-Triple, bind-Triple, lift-Triple,
}
use mailfold.ScheduledSend.{
  MessageRow, ScheduledSend, Table, Env, has_id, is_pending, is_status, update_counted, cancel,
  claim_due, canceled,
}
use mailfold.ScheduledSend.Order.{IsKeyed}
use mailfold.ScheduledSend.Steps.{is_final, cancel-Keeps, claim_due-Keeps}
use mailfold.ScheduledSend.Keys.{IsKeyed-step, create-Keeps, reset_stale-Keeps}
use mailfold.ScheduledSend.Dispatch.{Mail, Dispatcher, batch}
use mailfold.ScheduledSend.AtMostOnce.{is_spent}
use mailfold.ScheduledSend.Machine.{
  Machine, Step, claims, sends, creates, cancels, crashes, Life, step, restarts, claimed_rows,
  send_next, with_conn, take_step, take_steps, restart, live, idle, times, handed_times,
  waiting_times,
}
use mailfold.ScheduledSend.Taken.{
  times-append, ids-append, dispatch_one-Keeps, dispatch_one-times, claimed_once,
}
use mailfold.ScheduledSend.Interleaved.{steps-Safe, idle-Safe}
use mailfold.ScheduledSend.Settled.{
  Settled, Settled-step, Settled-spent, creates-Settled, reset-Settled, final_row,
}

cancel-Triple :
    (owner : String) (id : ℕ) (before : Table)
    → IsKeyed before
    → Triple
        (λ t. t ≡ before)
        (cancel owner id)
        (λ b t. b ≡ true → (is_spent (first (has_id id) before) ≡ false) × Settled id t)
        (λ t. Unit {0})
unfolding cancel update_counted has_id is_pending is_status is_final
cancel-Triple owner id before u =
    let p = λ (r : MessageRow). has_id id r && (str_eq r.owner_email owner && is_pending r) in
    let f = λ (r : MessageRow). record r { status = canceled } in
    let Q = λ (n : ℕ) (t : Table). (n ≡ count p before) × (t ≡ update p f before) in
    let E = λ (b : Bool) (t : Table).
      b ≡ true → (is_spent (first (has_id id) before) ≡ false) × Settled id t in
    bind-Triple Q
      (bind-Triple Q
        (known-Triple before (λ t. (count p t, update p f t)) Q (λ t. Unit {0}) (refl, refl) tt)
        (λ n. statement-Triple (Q n) (λ t. (n, t)) Q (λ t. Unit {0}) (λ t q. q) (λ t q. tt)))
      (λ n.
        lift-Triple (Q n) (ok (ltb 0 n)) E (λ t. Unit {0})
          (λ t q some_row.
            (let both =
                final_row p f id before (λ r h. (ground (arith, h), ground (arith, h)))
                  (λ r. (refl, refl)) u (ap (ltb 0) (sym q.0) ∙ some_row) in
              (both.0, subst (Settled id) (sym q.1) both.1))))

-- The message of the id is settled, and neither claimed nor handed over.
record Barred (id : ℕ) (m : Machine) : Type 0 where
  keyed : IsKeyed m.disp.conn.tables
  settled : Settled id m.disp.conn.tables
  absent : waiting_times id m + handed_times id m ≡ 0

module _ (env : Env) (id : ℕ) where
  claims-Barred : (now : ℕ) (m : Machine) → Barred id m → Barred id (take_step env (claims now) m)
  unfolding take_step waiting_times handed_times claimed_rows times
  claims-Barred now m b = record {
    keyed = claim_due-Keeps IsKeyed IsKeyed-step env now batch m.disp.conn b.keyed;
    settled = claim_due-Keeps (Settled id) (Settled-step id) env now batch m.disp.conn b.settled;
    absent =
        let more =
          ap (times id) (ids-append m.waiting fresh)
          ∙ times-append id (map (λ (s : ScheduledSend). s.id) m.waiting)
              (map (λ (s : ScheduledSend). s.id) fresh) in
        omega (arith, more, none_new (claim_due env now batch m.disp.conn).0 refl, b.absent);
  }
    where
      fresh : List ScheduledSend
      fresh = claimed_rows (claim_due env now batch m.disp.conn).0

      none_new :
          (r : Result (List ScheduledSend))
          → (claim_due env now batch m.disp.conn).0 ≡ r
          → times id (map (λ (s : ScheduledSend). s.id) (claimed_rows r)) ≡ 0
      none_new (err e) h = refl
      none_new (ok rows) h = elim (claimed_once env now m.disp.conn rows id b.keyed h) [
        | inl k ↦ k
        | inr (k, unspent, spent) ↦
            cc (Settled-spent (first (has_id id) m.disp.conn.tables) b.settled, unspent)
      ]

  sends-Barred :
      (mail : Mail) (m : Machine) → Barred id m → Barred id (take_step env (sends mail) m)
  unfolding take_step
  sends-Barred mail m b = go m.waiting m.disp b
    where
      go :
          (rows : List ScheduledSend) (d : Dispatcher)
          → Barred id (record { disp = d; waiting = rows })
          → Barred id (send_next mail rows d)
      go [] d b = unfold send_next in b
      go (row ∷ rows) d b =
          unfold send_next in
          record {
            keyed = dispatch_one-Keeps IsKeyed IsKeyed-step mail row d b.keyed;
            settled = dispatch_one-Keeps (Settled id) (Settled-step id) mail row d b.settled;
            absent =
                let fewer = dispatch_one-times mail row d id in
                let e = b.absent in
                unfold waiting_times handed_times times in ground (arith, fewer, e);
          }

  table_step :
      (m : Machine) (c : Conn Table)
      → Barred id m
      → IsKeyed c.tables
      → Settled id c.tables
      → Barred id (with_conn m c)
  unfolding waiting_times handed_times
  table_step m c b u s = record { keyed = u; settled = s; absent = b.absent }

  crashes-Barred : (m : Machine) → Barred id m → Barred id (record m { waiting = [] })
  unfolding waiting_times handed_times times
  crashes-Barred m b = record {
    keyed = b.keyed;
    settled = b.settled;
    absent = omega (arith, b.absent);
  }

  step-Barred : (x : Step) (m : Machine) → Barred id m → Barred id (take_step env x m)
  step-Barred (claims now) m b = claims-Barred now m b
  step-Barred (sends mail) m b = sends-Barred mail m b
  step-Barred (creates owner msg moment now) m b =
      unfold take_step in
      table_step m _ b (create-Keeps env owner msg moment now m.disp.conn b.keyed)
        (creates-Settled env owner msg moment now id m.disp.conn b.settled)
  step-Barred (cancels owner i) m b =
      unfold take_step in
      table_step m _ b (cancel-Keeps IsKeyed IsKeyed-step owner i m.disp.conn b.keyed)
        (cancel-Keeps (Settled id) (Settled-step id) owner i m.disp.conn b.settled)
  step-Barred crashes m b = unfold take_step in crashes-Barred m b

  restart-Barred : (older_than : ℕ) (m : Machine) → Barred id m → Barred id (restart older_than m)
  unfolding restart
  restart-Barred older_than m b =
      table_step (record m { waiting = [] }) _ (crashes-Barred m b)
        (reset_stale-Keeps older_than m.disp.conn b.keyed)
        (reset-Settled id older_than m.disp.conn b.settled)

  live-Barred : (l : List Life) (m : Machine) → Barred id m → Barred id (live env l m)
  unfolding live
  live-Barred [] m b = b
  live-Barred (step x ∷ l) m b = live-Barred l (take_step env x m) (step-Barred x m b)
  live-Barred (restarts older_than ∷ l) m b =
      live-Barred l (restart older_than m) (restart-Barred older_than m b)

-- On a table with unique ids and whatever errors are reported: a message whose cancellation has been
-- confirmed has not been handed to the SMTP server by the claims, single hand-overs, creations,
-- cancellations and crashes since the server started, and is not handed over by those that follow, nor
-- after any restarts of the server among them, each of which resets the stale rows.
pub canceled_never :
    (env : Env) (owner : String) (id : ℕ) (before : List Step) (later : List Life) (c : Conn Table)
    → IsKeyed c.tables
    → (cancel owner id (take_steps env before (idle c)).disp.conn).0 ≡ ok true
    → handed_times id (
        live env later (
          with_conn
            (take_steps env before (idle c))
            (cancel owner id (take_steps env before (idle c)).disp.conn).1))
      ≡ 0
canceled_never env owner id before later c u confirmed =
    let m = take_steps env before (idle c) in
    let s = steps-Safe env before (idle c) (idle-Safe c u) in
    let t = m.disp.conn.tables in
    let found = Triple-ok (cancel-Triple owner id t s.keyed) m.disp.conn true refl confirmed refl in
    let m' = with_conn m (cancel owner id m.disp.conn).1 in
    let none_told : waiting_times id m + handed_times id m ≡ 0 = elim (s.told id) [
      | inl e ↦ e
      | inr (e, spent) ↦ cc (spent, found.0)
    ] in
    let start : Barred id m' = record {
      keyed = cancel-Keeps IsKeyed IsKeyed-step owner id m.disp.conn s.keyed;
      settled = found.1;
      absent = unfold waiting_times handed_times in none_told;
    } in
    let end = live-Barred env id later m' start in omega (arith, end.absent)
