-- ===== src/RateLimit/Live.antt =====
-- `Allow` and `GC` of backend/internal/ratelimit/ratelimit.go: the live entry of a key, and the wait
-- that a refusal reports.
use mailfold.Prelude.{
  ℕ, ◌+◌, ◌≤◌, ◌<◌, min, String, ◌≡◌, refl, true, false, Option, none, some, List, ◌∷◌, arith, leb,
  eq_iff, if◌then◌else◌, All, inl, inr, Option-cases,
}
use mailfold.Prelude.Assoc.{lookup, IsMap, lookup-put}
use mailfold.RateLimit.{Entry, Limiter, elapsed, fresh, allow_at, allow, Event, request, step}
use mailfold.RateLimit.Window.{
  time, granted, requests, granted-window, max-step, window-step, step-IsMap, grants,
}

-- The entry of a key if its window still runs.
abbrev pub running : Limiter → ℕ → Option Entry → Option Entry
running l now none = none
running l now (some e) = if elapsed l e now then none else some e

unfoldable pub live : Limiter → String → ℕ → Option Entry
live l k now = running l now (lookup k l.entries)

-- The answer is a function of the live entry.
pub allow_at-running :
    (l : Limiter) (k : String) (now : ℕ) (o : Option Entry)
    → (allow_at l k now (running l now o)).0 ≡ (allow_at l k now o).0
unfolding allow_at
allow_at-running l k now none = refl
allow_at-running l k now (some e) = ground arith

opens :
    (l : Limiter) (k : String) (start : ℕ)
    → 0 < l.max
    → live l k start ≡ none
    → ((allow l k start).0.0 ≡ true) × (lookup k (allow l k start).1.entries ≡ some (fresh start))
unfolding allow live
opens l k start m idle = elim (Option-cases (lookup k l.entries)) [
  | inl e ↦ rw (e, allow) (ground (arith, eq_iff k k, lookup-put k k (fresh start) l.entries))
  | inr (x, e) ↦
      let past : elapsed l x start ≡ true = let i = rw e at idle in ground arith in
      rw (e, allow) (ground (arith, eq_iff k k, lookup-put k k (fresh start) l.entries, past))
]

-- With a positive limit and unique map keys, from the first request of an idle key on, a history
-- inside the window lets through the first `max` requests of the key and refuses the rest,
-- whatever the other keys do and however often the map is swept.
pub window_budget :
    (l : Limiter) (k : String) (start : ℕ) (evs : List Event)
    → 0 < l.max
    → IsMap l.entries
    → live l k start ≡ none
    → All (λ ev. time ev < start + l.window) evs
    → granted l k (request k start ∷ evs) ≡ min (requests k (request k start ∷ evs)) l.max
unfolding granted requests grants step fresh
window_budget l k start evs m u idle t =
    let first : Event = request k start in
    let rest =
      granted-window evs (step l first) k (fresh start) (opens l k start m idle).1 (rw max-step m)
        (step-IsMap l first u) (rw max-step m) (rw window-step t) in
    ground (arith, rest, max-step l first, eq_iff k k, opens l k start m idle)

-- A refusal at `now` changes nothing, and its wait is exact: from `now` on the key stays refused
-- until the wait is over, and is let through when it is.
pub retry_exact :
    (l l' : Limiter) (k : String) (now wait t : ℕ)
    → allow l k now ≡ ((false, wait), l')
    → now ≤ t
    → (l' ≡ l) × ((allow l k t).0.0 ≡ leb (now + wait) t)
unfolding allow
retry_exact l l' k now wait t h le = elim (Option-cases (lookup k l.entries)) [
  | inl e ↦ let h' = rw (e, allow) at h in ground arith
  | inr (x, e) ↦ let h' = rw (e, allow) at h in rw (e, allow) (ground arith)
]
