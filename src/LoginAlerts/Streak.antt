-- ===== src/LoginAlerts/Streak.antt =====
-- `Fail` and `Reset` of backend/internal/api/security_alerts.go: one alert for each burst.
use mailfold.Prelude.{
  ℕ, ◌+◌, String, ◌≡◌, Bool, true, ◌&&◌, not, List, [], ◌∷◌, arith, str_eq, eq_iff, ltb, leb,
  if◌then◌else◌, All, inl, inr, Bool-cases,
}
use mailfold.Prelude.Assoc.{lookup, lookup-erase, lookup-put}
use mailfold.LoginAlerts.{Tracker, threshold, streak, fail, reset, Event, failed, succeeded}

-- How many of a history's failures of a name raise the alert.
unfoldable pub alerts : String → List Event → Tracker → ℕ
alerts k [] t = 0
alerts k (failed u ∷ evs) t =
    let rest = alerts k evs (fail u t).1 in (if str_eq u k && (fail u t).0 then 1 else 0) + rest
alerts k (succeeded u ∷ evs) t = alerts k evs (reset u t)

-- How many of a history's events are failures of a name.
unfoldable pub failures : String → List Event → ℕ
failures k [] = 0
failures k (failed u ∷ evs) = (if str_eq u k then 1 else 0) + failures k evs
failures k (succeeded u ∷ evs) = failures k evs

-- The event is no successful login of the name.
abbrev pub spares : String → Event → Bool
spares k (failed u) = true
spares k (succeeded u) = not (str_eq u k)

alerts_from :
    (k : String) (evs : List Event) (t : Tracker)
    → All (λ ev. spares k ev ≡ true) evs
    → alerts k evs t ≡ (
        if ltb (streak (lookup k t)) threshold
          && leb threshold (streak (lookup k t) + failures k evs)
        then 1
        else 0)
unfolding alerts failures fail reset streak
alerts_from k [] t h = ground arith
alerts_from k (failed u ∷ evs) t h =
    let t' = (fail u t).1 in
    let stored = lookup-put u k (streak (lookup u t) + 1) t in
    elim (Bool-cases (str_eq u k)) [
      | inl hit ↦ ground (arith, hit, stored, eq_iff u k, alerts_from k evs t' h.1)
      | inr miss ↦ ground (arith, miss, stored, alerts_from k evs t' h.1)
    ]
alerts_from k (succeeded u ∷ evs) t h =
    ground (arith, lookup-erase u k t, alerts_from k evs (reset u t) h.1)

-- After a reset of the name, a history without a successful login of it raises one alert if the name
-- fails three times or more, and none otherwise, whatever happens to other names.
pub one_alert :
    (k : String) (evs : List Event) (t : Tracker)
    → All (λ ev. spares k ev ≡ true) evs
    → alerts k evs (reset k t) ≡ (if leb 3 (failures k evs) then 1 else 0)
unfolding reset streak
one_alert k evs t h =
    ground (arith, alerts_from k evs (reset k t) h, lookup-erase k k t, eq_iff k k)
