-- ===== src/LoginAlerts/Tests.antt =====
-- Concrete runs of the streaks of backend/internal/api/security_alerts.go.
use mailfold.Prelude.{◌≡◌, refl, List, [], ◌∷◌, leb, if◌then◌else◌}
use mailfold.LoginAlerts.{Tracker, reset, Event, failed, succeeded}
use mailfold.LoginAlerts.Streak.{alerts, failures, one_alert}

abbrev streaks : Tracker
streaks = ("ann", 2) ∷ ("bob", 1) ∷ []

abbrev burst : List Event
burst =
    failed "ann" ∷ failed "bob" ∷ failed "ann" ∷ succeeded "bob" ∷ failed "ann" ∷ failed "ann" ∷ []

one_alert_example :
    alerts "ann" burst (reset "ann" streaks) ≡ (if leb 3 (failures "ann" burst) then 1 else 0)
one_alert_example = one_alert "ann" burst streaks (refl, (refl, (refl, (refl, (refl, (refl, tt))))))
