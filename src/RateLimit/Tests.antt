-- ===== src/RateLimit/Tests.antt =====
-- Concrete runs of the limiter of backend/internal/ratelimit/ratelimit.go.
use mailfold.Prelude.{◌≡◌, refl, false, none, List, [], ◌∷◌, arith, min}
use mailfold.Prelude.Assoc.{lookup}
use mailfold.RateLimit.{Limiter, allow, allow_at, elapsed, Event, request, sweep}
use mailfold.RateLimit.Window.{granted, requests}
use mailfold.RateLimit.Live.{live, window_budget}
use mailfold.RateLimit.Sweep.{answers, unswept, sweep_invisible}

abbrev two_per_ten : Limiter
two_per_ten = record { max = 2; window = 10; entries = [] }

abbrev used_up : Limiter
used_up = record {
  max = 2;
  window = 10;
  entries = ("10.0.0.1", record { count = 2; window_start = 100 }) ∷ [];
}

abbrev busy : List Event
busy = request "10.0.0.1" 101 ∷ sweep 102 ∷ request "10.0.0.2" 103 ∷ request "10.0.0.1" 104 ∷ []

idle : live two_per_ten "10.0.0.1" 100 ≡ none
unfolding live lookup
idle = refl

refused : allow used_up "10.0.0.1" 104 ≡ ((false, 6), used_up)
unfolding allow allow_at elapsed lookup
refused = refl

window_budget_example :
    granted two_per_ten "10.0.0.1" (request "10.0.0.1" 100 ∷ busy)
    ≡ min (requests "10.0.0.1" (request "10.0.0.1" 100 ∷ busy)) 2
window_budget_example =
    window_budget two_per_ten "10.0.0.1" 100 busy (omega arith) tt idle
      (omega arith, (omega arith, (omega arith, (omega arith, tt))))

sweep_invisible_example : answers two_per_ten busy ≡ answers two_per_ten (unswept busy)
sweep_invisible_example =
    sweep_invisible two_per_ten 100 busy tt
      (omega arith, (omega arith, (omega arith, (omega arith, tt))))
