-- ===== src/RateLimit.antt =====
-- backend/internal/ratelimit/ratelimit.go: the fixed-window limiter. Instants and durations are
-- nanoseconds; the clock reading is an argument of each call. `max` stands for the Go `int` with
-- every value below 1 read as 0, which the code treats alike. A test `now.Sub(start) >= window` is
-- written `start + window ≤ now`, which is the same on signed and on natural numbers.
mod Window
mod Live
mod Sweep
mod Tests
use mailfold.Prelude.{
  ℕ, ◌+◌, ◌-◌, String, Bool, true, false, not, Option, none, some, List, [], ◌∷◌, ltb, leb,
  if◌then◌else◌,
}
use mailfold.Prelude.Assoc.{Assoc, lookup, put, retain}

pub record Entry : Type 0 where
  pub count : ℕ
  pub window_start : ℕ

pub record Limiter : Type 0 where
  pub max : ℕ
  pub window : ℕ
  pub entries : Assoc Entry

pub new : ℕ → ℕ → Limiter
new max window = record { max = max; window = window; entries = [] }

-- now.Sub(e.windowStart) >= l.window
pub elapsed : Limiter → Entry → ℕ → Bool
elapsed l e now = leb (e.window_start + l.window) now

pub fresh : ℕ → Entry
fresh now = record { count = 1; window_start = now }

-- The body of `Allow` behind its first test, by what the map holds at the key.
pub allow_at : Limiter → String → ℕ → Option Entry → (Bool × ℕ) × Limiter
unfolding elapsed fresh
allow_at l key now none = ((true, 0), record l { entries = put key (fresh now) l.entries })
allow_at l key now (some e) =
    if elapsed l e now
    then ((true, 0), record l { entries = put key (fresh now) l.entries })
    else if leb l.max e.count
    then ((false, e.window_start + l.window - now), l)
    else ((true, 0), record l { entries = put key (record e { count = e.count + 1 }) l.entries })

-- The answer is whether the request may pass, and how long the caller should wait.
unfoldable pub allow : Limiter → String → ℕ → (Bool × ℕ) × Limiter
unfolding allow_at
allow l key now = if leb l.max 0 then ((true, 0), l) else allow_at l key now (lookup key l.entries)

pub gc : Limiter → ℕ → Limiter
unfolding elapsed
gc l now = record l { entries = retain (λ _ e. not (elapsed l e now)) l.entries }

-- What happens to a limiter: a request of a key, or a sweep.
pub data Event : Type 0 where
  request : String → ℕ → Event
  sweep : ℕ → Event

pub step : Limiter → Event → Limiter
step l (request key now) = (allow l key now).1
step l (sweep now) = gc l now
