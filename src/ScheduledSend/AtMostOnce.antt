-- ===== src/ScheduledSend/AtMostOnce.antt =====
-- backend/internal/api/webmail_scheduled.go: no message is handed to the SMTP server twice.
use mailfold.Prelude.{
  ℕ, String, ◌≡◌, Bool, true, false, not, Option, none, some, List, [], ◌∷◌, ◌++◌, map, arith, All,
}
use mailfold.Storage.{Time}
use mailfold.Sql.{Result, ok, err, Conn}
use mailfold.Sql.Table.{first, update}
use mailfold.Sql.Laws.{Keeps, Keeps-statement, Keeps-bind}
use mailfold.ScheduledSend.{
  MessageRow, ScheduledSend, OutgoingMessage, Table, Env, has_id, is_pending, create, mark_failed,
}
use mailfold.ScheduledSend.Order.{IsKeyed}
use mailfold.ScheduledSend.Claim.{is_among}
use mailfold.ScheduledSend.Steps.{Forward, mark_sent-Keeps, mark_failed-Keeps}
use mailfold.ScheduledSend.Keys.{IsKeyed-step}
use mailfold.ScheduledSend.Dispatch.{
  Mail, Handed, Dispatcher, settle, dispatch_with, dispatch_one, dispatch_all,
}

-- Under the id stands a row that no claim takes.
unfoldable pub is_spent : Option MessageRow → Bool
is_spent none = false
is_spent (some r) = not (is_pending r)

abbrev pub Spent : ℕ → Table → Type 0
Spent id t = is_spent (first (has_id id) t) ≡ true

abbrev pub AllSpent : List ℕ → Table → Type 0
AllSpent ids t = All (λ id. Spent id t) ids

-- No number stands twice.
abbrev pub IsUnique : List ℕ → Type 0
IsUnique [] = Unit
IsUnique (i ∷ is) = (is_among i is ≡ false) × IsUnique is

pub Spent-update :
    (id : ℕ) (p : MessageRow → Bool) (f : MessageRow → MessageRow)
    → Forward p f
    → (t : Table) → Spent id t
    → Spent id (update p f t)
unfolding first update has_id is_spent
Spent-update id p f g [] h = h
Spent-update id p f g (r ∷ t) h = ground (arith, g.0 r, g.1 r, Spent-update id p f g t)

pub Spent-append : (id : ℕ) (t : Table) (r : MessageRow) → Spent id t → Spent id (t ++ r ∷ [])
unfolding first has_id is_spent
Spent-append id [] r h = cc
Spent-append id (x ∷ t) r h = ground (arith, Spent-append id t r)

AllSpent-map :
    (ids : List ℕ) (t t' : Table)
    → ((id : ℕ) → Spent id t → Spent id t')
    → AllSpent ids t
    → AllSpent ids t'
AllSpent-map [] t t' k h = tt
AllSpent-map (id ∷ ids) t t' k h = (k id h.0, AllSpent-map ids t t' k h.1)

module _ (ids : List ℕ) where
  pub AllSpent-step :
      (p : MessageRow → Bool) (f : MessageRow → MessageRow)
      → Forward p f
      → (t : Table) → AllSpent ids t
      → AllSpent ids (update p f t)
  AllSpent-step p f g t = AllSpent-map ids t (update p f t) (λ id. Spent-update id p f g t)

  pub create-Spent :
      (env : Env) (owner : String) (msg : OutgoingMessage) (moment : Time) (now : ℕ)
      → Keeps (AllSpent ids) (create env owner msg moment now)
  unfolding create
  create-Spent env owner msg moment now =
      Keeps-bind (AllSpent ids) _ _
        (Keeps-statement (AllSpent ids) _ (λ t. AllSpent-map ids t _ (λ id. Spent-append id t _)))
        (λ id. Keeps-statement (AllSpent ids) (λ t. (id, t)) (λ t u. u))

  settle-Spent :
      (row : ScheduledSend) (r : Result (Unit {0})) (c : Conn Table)
      → AllSpent ids c.tables
      → AllSpent ids (settle row r c).tables
  unfolding settle
  settle-Spent row (ok u) c h = mark_sent-Keeps (AllSpent ids) AllSpent-step row.id c h
  settle-Spent row (err e) c h = mark_failed-Keeps (AllSpent ids) AllSpent-step row.id e c h

settle-IsKeyed :
    (row : ScheduledSend) (r : Result (Unit {0})) (c : Conn Table)
    → IsKeyed c.tables
    → IsKeyed (settle row r c).tables
unfolding settle
settle-IsKeyed row (ok u) c h = mark_sent-Keeps IsKeyed IsKeyed-step row.id c h
settle-IsKeyed row (err e) c h = mark_failed-Keeps IsKeyed IsKeyed-step row.id e c h

-- The ids that have been handed over, before those that must not be.
unfoldable pub done : List ℕ → Dispatcher → List ℕ
done banned d = map (λ (h : Handed). h.id) d.handed ++ banned

-- Ids are unique; what has been handed over is spent, and has been once.
pub record Sound (banned : List ℕ) (d : Dispatcher) : Type 0 where
  pub keyed : IsKeyed d.conn.tables
  pub spent : AllSpent (done banned d) d.conn.tables
  pub unique : IsUnique (done banned d)

-- Claimed rows that wait to be handed over: spent, distinct, and none handed over before.
pub record Fresh (banned : List ℕ) (rows : List ScheduledSend) (d : Dispatcher) : Type 0 where
  pub spent : AllSpent (map (λ (s : ScheduledSend). s.id) rows) d.conn.tables
  pub unique : IsUnique (map (λ (s : ScheduledSend). s.id) rows)
  pub new_ids :
      All (λ id. is_among id (done banned d) ≡ false) (map (λ (s : ScheduledSend). s.id) rows)

others_new :
    (id : ℕ) (done ids : List ℕ)
    → is_among id ids ≡ false
    → All (λ i. is_among i done ≡ false) ids
    → All (λ i. is_among i (id ∷ done) ≡ false) ids
unfolding is_among
others_new id done [] h n = tt
others_new id done (i ∷ is) h n =
    (ground (arith, n.0, h), others_new id done is (ground (arith, h)) n.1)

module _ (mail : Mail) (banned : List ℕ) where
  one-Sound :
      (row : ScheduledSend) (rows : List ScheduledSend) (r : Result String) (d : Dispatcher)
      → Sound banned d
      → Fresh banned (row ∷ rows) d
      → Sound banned (dispatch_with mail row r d) × Fresh banned rows (dispatch_with mail row r d)
  unfolding dispatch_with done
  one-Sound row rows (err e) d s f =
      let c' = (mark_failed row.id e d.conn).1 in
      let keeps =
        λ (ids : List ℕ). mark_failed-Keeps (AllSpent ids) (AllSpent-step ids) row.id e d.conn in
      (
        record {
          keyed = mark_failed-Keeps IsKeyed IsKeyed-step row.id e d.conn s.keyed;
          spent = keeps (done banned d) s.spent;
          unique = s.unique;
        },
        record {
          spent = keeps (map (λ (s : ScheduledSend). s.id) rows) f.spent.1;
          unique = f.unique.1;
          new_ids = f.new_ids.1;
        },
      )
  one-Sound row rows (ok pw) d s f =
      let ids = map (λ (s : ScheduledSend). s.id) rows in
      (
        record {
          keyed = settle-IsKeyed row (mail.send row pw) d.conn s.keyed;
          spent =
              settle-Spent (row.id ∷ done banned d) row (mail.send row pw) d.conn
                (f.spent.0, s.spent);
          unique = (f.new_ids.0, s.unique);
        },
        record {
          spent = settle-Spent ids row (mail.send row pw) d.conn f.spent.1;
          unique = f.unique.1;
          new_ids = others_new row.id (done banned d) ids f.unique.0 f.new_ids.1;
        },
      )

  pub all-Sound :
      (rows : List ScheduledSend) (d : Dispatcher)
      → Sound banned d
      → Fresh banned rows d
      → Sound banned (dispatch_all mail rows d)
  unfolding dispatch_all dispatch_one
  all-Sound [] d s f = s
  all-Sound (row ∷ rows) d s f =
      let next = one-Sound row rows (mail.credential row) d s f in
      all-Sound rows (dispatch_one mail row d) next.0 next.1
