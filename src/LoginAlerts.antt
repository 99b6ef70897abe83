-- ===== src/LoginAlerts.antt =====
-- `loginFailureTracker` of backend/internal/api/security_alerts.go: the streaks of failed logins. The
-- mutex makes each method one step.
mod Streak
mod Tests
use mailfold.Prelude.{ℕ, ◌+◌, String, Bool, Option, none, some, ◌==◌}
use mailfold.Prelude.Assoc.{Assoc, lookup, erase, put}

abbrev pub threshold : ℕ
threshold = 3

abbrev pub Tracker : Type 0
Tracker = Assoc ℕ

-- t.streaks[username]: zero for a name that the map does not hold
unfoldable pub streak : Option ℕ → ℕ
streak none = 0
streak (some n) = n

unfoldable pub fail : String → Tracker → Bool × Tracker
unfolding streak
fail username t = let n = streak (lookup username t) + 1 in (n == threshold, put username n t)

unfoldable pub reset : String → Tracker → Tracker
reset username t = erase username t

-- A failed or a successful login.
pub data Event : Type 0 where
  failed succeeded : String → Event
