-- ===== src/ScheduledSend/Interleaved.antt =====
-- backend/internal/api/webmail_scheduled.go: no message is handed over twice, however the dispatcher's
-- steps and other calls interleave.
use mailfold.Prelude.{
  ℕ, ◌+◌, ◌≤◌, String, ◌≡◌, ◌⊎◌, refl, ap, ◌∙◌, false, List, [], ◌∷◌, ◌++◌, map, arith, inl, inr,
}
use mailfold.Storage.{Time}
use mailfold.Sql.{Result, ok, err, Conn}
use mailfold.Sql.Table.{first}
use mailfold.Sql.Laws.{Keeps, Keeps-statement, Keeps-bind}
use mailfold.ScheduledSend.{ScheduledSend, OutgoingMessage, Table, Env, has_id, create, claim_due}
use mailfold.ScheduledSend.Order.{IsKeyed}
use mailfold.ScheduledSend.Steps.{cancel-Keeps, claim_due-Keeps}
use mailfold.ScheduledSend.Keys.{IsKeyed-step, create-Keeps}
use mailfold.ScheduledSend.Dispatch.{Mail, Dispatcher, batch}
use mailfold.ScheduledSend.AtMostOnce.{is_spent, Spent, Spent-update, Spent-append}
use mailfold.ScheduledSend.Machine.{
  Machine, Step, claims, sends, creates, cancels, crashes, claimed_rows, send_next, take_step,
  take_steps, idle, times, handed_times, waiting_times,
}
use mailfold.ScheduledSend.Taken.{
  times-append, ids-append, dispatch_one-Keeps, dispatch_one-times, claimed_once,
}

-- An id that is claimed or handed over is so once, and its row is spent.
abbrev Told : ℕ → Machine → Type 0
Told id m =
    (waiting_times id m + handed_times id m ≡ 0)
    ⊎ ((waiting_times id m + handed_times id m ≤ 1) × Spent id m.disp.conn.tables)

pub record Safe (m : Machine) : Type 0 where
  pub keyed : IsKeyed m.disp.conn.tables
  pub told : (id : ℕ) → Told id m

module _ (env : Env) where
  table_step :
      (m : Machine) (c : Conn Table)
      → Safe m
      → IsKeyed c.tables
      → ((id : ℕ) → Spent id m.disp.conn.tables → Spent id c.tables)
      → Safe (record m { disp = record (m.disp) { conn = c } })
  unfolding waiting_times handed_times
  table_step m c s u k = record {
    keyed = u;
    told = λ id. elim (s.told id) [ inl e ↦ inl e | inr (e, spent) ↦ inr (e, k id spent) ];
  }

  claims-Safe : (now : ℕ) (m : Machine) → Safe m → Safe (take_step env (claims now) m)
  unfolding take_step waiting_times handed_times claimed_rows times
  claims-Safe now m s = record {
    keyed = claim_due-Keeps IsKeyed IsKeyed-step env now batch m.disp.conn s.keyed;
    told = λ id. go id (s.told id) (taken id (claim_due env now batch m.disp.conn).0 refl);
  }
    where
      c' : Conn Table
      c' = (claim_due env now batch m.disp.conn).1

      fresh : List ScheduledSend
      fresh = claimed_rows (claim_due env now batch m.disp.conn).0

      New : ℕ → List ScheduledSend → Type 0
      New id rows =
          (times id (map (λ (s : ScheduledSend). s.id) rows) ≡ 0)
          ⊎ ((times id (map (λ (s : ScheduledSend). s.id) rows) ≡ 1)
              × (is_spent (first (has_id id) m.disp.conn.tables) ≡ false)
              × Spent id c'.tables)

      taken :
          (id : ℕ) (r : Result (List ScheduledSend))
          → (claim_due env now batch m.disp.conn).0 ≡ r
          → New id (claimed_rows r)
      taken id (ok rows) h = claimed_once env now m.disp.conn rows id s.keyed h
      taken id (err e) h = inl refl

      go :
          (id : ℕ)
          → Told id m
          → New id fresh
          → Told id (record { disp = record (m.disp) { conn = c' }; waiting = m.waiting ++ fresh })
      go id told new =
          let more : times id (map (λ (s : ScheduledSend). s.id) (m.waiting ++ fresh))
              ≡ times id (map (λ (s : ScheduledSend). s.id) m.waiting)
                + times id (map (λ (s : ScheduledSend). s.id) fresh) =
            ap (times id) (ids-append m.waiting fresh)
            ∙ times-append id (map (λ (s : ScheduledSend). s.id) m.waiting)
                (map (λ (s : ScheduledSend). s.id) fresh) in
          elim told [
            | inl e ↦ elim new [
              | inl k ↦ inl (omega (arith, more, e, k))
              | inr (k, unspent, spent) ↦ inr (omega (arith, more, e, k), spent)
            ]
            | inr (e, was) ↦ elim new [
              | inl k ↦ inr (
                omega (arith, more, e, k),
                claim_due-Keeps (Spent id) (Spent-update id) env now batch m.disp.conn was,
              )
              | inr (k, unspent, spent) ↦ cc (was, unspent)
            ]
          ]

  sends-Safe : (mail : Mail) (m : Machine) → Safe m → Safe (take_step env (sends mail) m)
  unfolding take_step
  sends-Safe mail m s = go m.waiting m.disp s
    where
      go :
          (rows : List ScheduledSend) (d : Dispatcher)
          → Safe (record { disp = d; waiting = rows })
          → Safe (send_next mail rows d)
      go [] d s = unfold send_next in s
      go (row ∷ rows) d s =
          unfold send_next in
          record {
            keyed = dispatch_one-Keeps IsKeyed IsKeyed-step mail row d s.keyed;
            told = λ id.
                let fewer = dispatch_one-times mail row d id in
                let kept = dispatch_one-Keeps (Spent id) (Spent-update id) mail row d in
                unfold waiting_times handed_times times in
                elim (s.told id) [
                  | inl e ↦ inl (ground (arith, fewer, e))
                  | inr (e, spent) ↦ inr (ground (arith, fewer, e), kept spent)
                ];
          }

  crashes-Safe : (m : Machine) → Safe m → Safe (take_step env crashes m)
  unfolding take_step waiting_times handed_times times
  crashes-Safe m s = record {
    keyed = s.keyed;
    told = λ id. elim (s.told id) [
      | inl e ↦ inl (omega (arith, e))
      | inr (e, spent) ↦ inr (omega (arith, e), spent)
    ];
  }

  creates-Spent :
      (owner : String) (msg : OutgoingMessage) (moment : Time) (now id : ℕ)
      → Keeps (Spent id) (create env owner msg moment now)
  unfolding create
  creates-Spent owner msg moment now id =
      Keeps-bind (Spent id) _ _ (Keeps-statement (Spent id) _ (λ t. Spent-append id t _))
        (λ j. Keeps-statement (Spent id) (λ t. (j, t)) (λ t u. u))

  step-Safe : (x : Step) (m : Machine) → Safe m → Safe (take_step env x m)
  step-Safe (claims now) m s = claims-Safe now m s
  step-Safe (sends mail) m s = sends-Safe mail m s
  step-Safe (creates owner msg moment now) m s =
      unfold take_step in
      table_step m _ s (create-Keeps env owner msg moment now m.disp.conn s.keyed)
        (λ id. creates-Spent owner msg moment now id m.disp.conn)
  step-Safe (cancels owner id) m s =
      unfold take_step in
      table_step m _ s (cancel-Keeps IsKeyed IsKeyed-step owner id m.disp.conn s.keyed)
        (λ i. cancel-Keeps (Spent i) (Spent-update i) owner id m.disp.conn)
  step-Safe crashes m s = crashes-Safe m s

  pub steps-Safe : (l : List Step) (m : Machine) → Safe m → Safe (take_steps env l m)
  unfolding take_steps
  steps-Safe [] m s = s
  steps-Safe (x ∷ l) m s = steps-Safe l (take_step env x m) (step-Safe x m s)

pub idle-Safe : (c : Conn Table) → IsKeyed c.tables → Safe (idle c)
unfolding waiting_times handed_times times
idle-Safe c u = record { keyed = u; told = λ id. inl refl }

-- However claims, single hand-overs, creations, cancellations and crashes follow each other, on a table
-- with unique ids and whatever errors are reported, and until the server starts anew: no message is
-- handed to the SMTP server twice.
pub handed_once :
    (env : Env) (l : List Step) (c : Conn Table) (id : ℕ)
    → IsKeyed c.tables
    → handed_times id (take_steps env l (idle c)) ≤ 1
handed_once env l c id u = elim ((steps-Safe env l (idle c) (idle-Safe c u)).told id) [
  | inl e ↦ omega (arith, e)
  | inr (e, spent) ↦ omega (arith, e)
]
