-- ===== src/ScheduledSend/Machine.antt =====
-- backend/internal/api/webmail_scheduled.go, a step at a time: the dispatcher claims, hands over one
-- claimed message after the other, and other calls, a crash or a restart may come in between.
use mailfold.Prelude.{ℕ, ◌+◌, String, ◌≡◌, refl, List, [], ◌∷◌, ◌++◌, map, ◌==◌, if◌then◌else◌}
use mailfold.Storage.{Time}
use mailfold.Sql.{Result, ok, err, Conn}
use mailfold.ScheduledSend.{
  ScheduledSend, OutgoingMessage, Table, Env, create, cancel, claim_due, reset_stale,
}
use mailfold.ScheduledSend.Dispatch.{
  Mail, Handed, Dispatcher, dispatch_one, dispatch_all, dispatch_claimed, dispatch_scheduled_sends,
  batch,
}

-- The dispatcher with the claimed messages that it has yet to hand over.
pub record Machine : Type 0 where
  pub disp : Dispatcher
  pub waiting : List ScheduledSend

pub data Step : Type 0 where
  claims : ℕ → Step
  sends : Mail → Step
  creates : String → OutgoingMessage → Time → ℕ → Step
  cancels : String → ℕ → Step
  crashes : Step

unfoldable pub claimed_rows : Result (List ScheduledSend) → List ScheduledSend
claimed_rows (ok rows) = rows
claimed_rows (err e) = []

unfoldable pub send_next : Mail → List ScheduledSend → Dispatcher → Machine
send_next mail [] d = record { disp = d; waiting = [] }
send_next mail (row ∷ rows) d = record { disp = dispatch_one mail row d; waiting = rows }

abbrev pub with_conn : Machine → Conn Table → Machine
with_conn m c = record m { disp = record (m.disp) { conn = c } }

-- A crash loses what has been claimed and not handed over. One between a hand-over and its mark is a
-- hand-over whose mark the driver reports as an error: both leave the row as it was claimed.
unfoldable pub take_step : Env → Step → Machine → Machine
unfolding claimed_rows send_next
take_step env (claims now) m =
    let (r, c) = claim_due env now batch m.disp.conn in
    record { disp = record (m.disp) { conn = c }; waiting = m.waiting ++ claimed_rows r }
take_step env (sends mail) m = send_next mail m.waiting m.disp
take_step env (creates owner msg moment now) m =
    with_conn m (create env owner msg moment now m.disp.conn).1
take_step env (cancels owner id) m = with_conn m (cancel owner id m.disp.conn).1
take_step env crashes m = record m { waiting = [] }

unfoldable pub take_steps : Env → List Step → Machine → Machine
unfolding take_step
take_steps env [] m = m
take_steps env (s ∷ l) m = take_steps env l (take_step env s m)

-- A new start resets the rows that have been claimed long ago.
unfoldable pub restart : ℕ → Machine → Machine
restart older_than m = with_conn (record m { waiting = [] }) (reset_stale older_than m.disp.conn).1

pub data Life : Type 0 where
  step : Step → Life
  restarts : ℕ → Life

unfoldable pub live : Env → List Life → Machine → Machine
unfolding take_step restart
live env [] m = m
live env (step s ∷ l) m = live env l (take_step env s m)
live env (restarts older_than ∷ l) m = live env l (restart older_than m)

-- Nothing is claimed and nothing handed over.
abbrev pub idle : Conn Table → Machine
idle c = record { disp = record { conn = c; handed = [] }; waiting = [] }

-- How often the id stands in the list.
unfoldable pub times : ℕ → List ℕ → ℕ
times id [] = 0
times id (i ∷ l) = let rest = times id l in if i == id then 1 + rest else rest

-- How often the message of the id has been handed over.
unfoldable pub handed_times : ℕ → Machine → ℕ
unfolding times
handed_times id m = times id (map (λ (h : Handed). h.id) m.disp.handed)

unfoldable pub waiting_times : ℕ → Machine → ℕ
unfolding times
waiting_times id m = times id (map (λ (s : ScheduledSend). s.id) m.waiting)

-- As many hand-overs as there are messages.
abbrev all_sends : Mail → List ScheduledSend → List Step
all_sends mail [] = []
all_sends mail (row ∷ rows) = sends mail ∷ all_sends mail rows

send_all :
    (env : Env) (mail : Mail) (rows : List ScheduledSend) (d : Dispatcher)
    → take_steps env (all_sends mail rows) (record { disp = d; waiting = rows })
      ≡ record { disp = dispatch_all mail rows d; waiting = [] }
unfolding take_steps take_step send_next dispatch_all
send_all env mail [] d = refl
send_all env mail (row ∷ rows) d = send_all env mail rows (dispatch_one mail row d)

-- A run of `DispatchScheduledSends` that nothing interrupts is a claim, then one step for each message.
pub dispatch_steps :
    (env : Env) (mail : Mail) (now : ℕ) (d : Dispatcher)
    → take_steps env
        (claims now ∷ all_sends mail (claimed_rows (claim_due env now batch d.conn).0))
        (record { disp = d; waiting = [] })
      ≡ record { disp = dispatch_scheduled_sends env mail now d; waiting = [] }
unfolding take_steps take_step dispatch_scheduled_sends
dispatch_steps env mail now d = go (claim_due env now batch d.conn).0
  where
    go :
        (r : Result (List ScheduledSend))
        → take_steps env (all_sends mail (claimed_rows r)) (record {
          disp = record d { conn = (claim_due env now batch d.conn).1 };
          waiting = claimed_rows r;
        })
          ≡ record {
            disp = dispatch_claimed mail r (record d { conn = (claim_due env now batch d.conn).1 });
            waiting = [];
          }
    go (ok rows) =
        unfold claimed_rows dispatch_claimed in
        send_all env mail rows (record d { conn = (claim_due env now batch d.conn).1 })
    go (err e) = unfold claimed_rows dispatch_claimed in refl
