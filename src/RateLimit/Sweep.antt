-- ===== src/RateLimit/Sweep.antt =====
-- `GC` beside `Allow` of backend/internal/ratelimit/ratelimit.go: the sweep, which no later answer shows.
use mailfold.Prelude.{
  ℕ, ◌+◌, ◌≤◌, String, ◌≡◌, ◌≢◌, refl, sym, ap, ◌∙◌, Bool, true, false, Option, none, some, List,
  [], ◌∷◌, arith, not, leb, str_eq, eq_iff, if◌then◌else◌, inl, inr, Bool-cases, Option-cases,
}
use mailfold.Prelude.Assoc.{lookup, kept, IsMap, lookup-put, lookup-retain}
use mailfold.RateLimit.{
  Entry, Limiter, elapsed, fresh, allow_at, allow, gc, Event, request, sweep, step,
}
use mailfold.RateLimit.Window.{time, max-step, window-step, step-IsMap, lookup-allow_ne}
use mailfold.RateLimit.Live.{running, live, allow_at-running}

module _ (l : Limiter) (swept : ℕ) (u : IsMap l.entries) where
  live-gc : (k : String) (now : ℕ) → swept ≤ now → live (gc l swept) k now ≡ live l k now
  unfolding live gc elapsed
  live-gc k now le = ap (running l now) (lookup-retain _ k l.entries u) ∙ again (lookup k l.entries)
    where
      again :
          (o : Option Entry)
          → running l now (kept (λ _ e. not (elapsed l e swept)) k o) ≡ running l now o
      again none = refl
      again (some e) = ground arith

-- The answers to the requests among the events, in order.
pub answers : Limiter → List Event → List (Bool × ℕ)
answers l [] = []
answers l (request k now ∷ evs) = (allow l k now).0 ∷ answers (allow l k now).1 evs
answers l (sweep now ∷ evs) = answers (gc l now) evs

-- The events without the sweeps.
pub unswept : List Event → List Event
unswept [] = []
unswept (request k now ∷ evs) = request k now ∷ unswept evs
unswept (sweep now ∷ evs) = unswept evs

-- The events stand in the order of time, from `now` on.
abbrev pub InOrder : ℕ → List Event → Type 0
InOrder now [] = Unit
InOrder now (ev ∷ evs) = (now ≤ time ev) × InOrder (time ev) evs

-- Two limiters that no request from `now` on tells apart.
record SameFrom (now : ℕ) (l l' : Limiter) : Type 0 where
  same_max : l.max ≡ l'.max
  same_window : l.window ≡ l'.window
  same_live : (k : String) (t : ℕ) → now ≤ t → live l k t ≡ live l' k t

answer-live :
    (l : Limiter) (k : String) (now : ℕ)
    → (allow l k now).0 ≡ (if leb l.max 0 then (true, 0) else (allow_at l k now (live l k now)).0)
unfolding allow live
answer-live l k now = ground (arith, allow_at-running l k now (lookup k l.entries))

-- The entry that an answered request leaves at its key.
next_entry : ℕ → ℕ → Option Entry → Entry
next_entry max now none = fresh now
next_entry max now (some e) = if leb max e.count then e else record e { count = e.count + 1 }

lookup-allow-live :
    (l : Limiter) (k : String) (now : ℕ)
    → leb l.max 0 ≡ false
    → lookup k (allow l k now).1.entries ≡ some (next_entry l.max now (live l k now))
unfolding allow live next_entry
lookup-allow-live l k now on = elim (Option-cases (lookup k l.entries)) [
  | inl e ↦ rw (e, allow) (ground (arith, eq_iff k k, lookup-put k k (fresh now) l.entries))
  | inr (x, e) ↦
      rw (e, allow)
        (ground (
          arith,
          eq_iff k k,
          e,
          lookup-put k k (fresh now) l.entries,
          lookup-put k k (record x { count = x.count + 1 }) l.entries,
        ))
]

allow_off : (l : Limiter) (k : String) (now : ℕ) → leb l.max 0 ≡ true → (allow l k now).1 ≡ l
unfolding allow
allow_off l k now off = rw off

answer_eq :
    (l l' : Limiter) (k : String) (t : ℕ) (o o' : Option Entry)
    → l.max ≡ l'.max
    → l.window ≡ l'.window
    → o ≡ o'
    → (if leb l.max 0 then (true, 0) else (allow_at l k t o).0)
      ≡ (if leb l'.max 0 then (true, 0) else (allow_at l' k t o').0)
unfolding allow_at elapsed
answer_eq l l' k t o o' m w e = ground arith

running_eq :
    (l l' : Limiter) (t : ℕ) (o o' : Option Entry)
    → l.window ≡ l'.window
    → o ≡ o'
    → running l t o ≡ running l' t o'
unfolding elapsed
running_eq l l' t o o' w e = ground arith

-- The same request keeps two limiters alike.
module _ {now : ℕ} {l l' : Limiter} (same : SameFrom now l l') (k : String) (t : ℕ)
    (le : now ≤ t) where
  same_answer : (allow l k t).0 ≡ (allow l' k t).0
  same_answer =
      answer-live l k t
      ∙ answer_eq l l' k t _ _ same.same_max same.same_window (same.same_live k t le)
      ∙ sym (answer-live l' k t)

  window-allow : (allow l k t).1.window ≡ l.window
  unfolding step
  window-allow = window-step l (request k t)

  window-allow' : (allow l' k t).1.window ≡ l'.window
  unfolding step
  window-allow' = window-step l' (request k t)

  window_same : (allow l k t).1.window ≡ (allow l' k t).1.window
  window_same = cc (window-allow, window-allow', same.same_window)

  same_live_self :
      (t' : ℕ) → leb l.max 0 ≡ false → live (allow l k t).1 k t' ≡ live (allow l' k t).1 k t'
  unfolding live
  same_live_self t' on = running_eq (allow l k t).1 (allow l' k t).1 t' _ _ window_same (
      lookup-allow-live l k t on
      ∙ cc (same.same_max, same.same_live k t le)
      ∙ sym (lookup-allow-live l' k t (rw (← same.same_max) on)))

  same_live_ne :
      (j : String) (t' : ℕ)
      → t ≤ t'
      → k ≢ j
      → live (allow l k t).1 j t' ≡ live (allow l' k t).1 j t'
  unfolding live
  same_live_ne j t' le' d =
      running_eq (allow l k t).1 l t' _ _ window-allow (lookup-allow_ne l k j t d)
      ∙ same.same_live j t' (omega arith)
      ∙ sym (running_eq (allow l' k t).1 l' t' _ _ window-allow' (lookup-allow_ne l' k j t d))

  same_live_after :
      (j : String) (t' : ℕ) → t ≤ t' → live (allow l k t).1 j t' ≡ live (allow l' k t).1 j t'
  same_live_after j t' le' = elim (Bool-cases (str_eq k j)) [
    | inl hit ↦ elim (Bool-cases (leb l.max 0)) [
      | inl off ↦
          rw (allow_off l k t off, allow_off l' k t (rw (← same.same_max) off))
            (same.same_live j t' (omega arith))
      | inr on ↦ rw (sym ((eq_iff k j).0 hit)) (same_live_self t' on)
    ]
    | inr miss ↦ same_live_ne j t' le' (ground (arith, eq_iff k j))
  ]

  SameFrom-allow : SameFrom t (allow l k t).1 (allow l' k t).1
  unfolding step
  SameFrom-allow = record {
    same_max = max-step l (request k t) ∙ same.same_max ∙ sym (max-step l' (request k t));
    same_window = window_same;
    same_live = same_live_after;
  }

SameFrom-gc :
    {now : ℕ} {l l' : Limiter} (t : ℕ)
    → IsMap l.entries
    → now ≤ t
    → SameFrom now l l'
    → SameFrom t (gc l t) l'
unfolding step
SameFrom-gc {now} {l} {l'} t u le same = record {
  same_max = max-step l (sweep t) ∙ same.same_max;
  same_window = window-step l (sweep t) ∙ same.same_window;
  same_live = λ k t' le'. live-gc l t u k t' le' ∙ same.same_live k t' (omega arith);
}

answers_same :
    (evs : List Event) (now : ℕ) (l l' : Limiter)
    → IsMap l.entries
    → InOrder now evs
    → SameFrom now l l'
    → answers l evs ≡ answers l' (unswept evs)
unfolding answers unswept step
answers_same [] now l l' u o same = refl
answers_same (request k t ∷ evs) now l l' u o same = cc (
  same_answer same k t o.0,
  answers_same evs t (allow l k t).1 (allow l' k t).1 (step-IsMap l (request k t) u) o.1
      (SameFrom-allow same k t o.0),
)
answers_same (sweep t ∷ evs) now l l' u o same =
    answers_same evs t (gc l t) l' (step-IsMap l (sweep t) u) o.1 (SameFrom-gc t u o.0 same)

-- With unique map keys, sweeping at any points of a history in the order of time changes no
-- answer.
pub sweep_invisible :
    (l : Limiter) (now : ℕ) (evs : List Event)
    → IsMap l.entries
    → InOrder now evs
    → answers l evs ≡ answers l (unswept evs)
sweep_invisible l now evs u o =
    answers_same evs now l l u o
      (record { same_max = refl; same_window = refl; same_live = λ k t le. refl })
