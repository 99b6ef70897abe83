-- ===== src/RateLimit/Window.antt =====
-- The budget of one window (`Allow` of backend/internal/ratelimit/ratelimit.go).
use mailfold.Prelude.{
  ℕ, ◌+◌, ◌-◌, ◌≤◌, ◌<◌, min, String, ◌≡◌, refl, Bool, false, ◌&&◌, Option, none, some, List, [],
  ◌∷◌, arith, str_eq, eq_iff, ltb, leb, if◌then◌else◌, All, inl, inr, ◌≢◌, ◌∙◌, Bool-cases,
}
use mailfold.Prelude.Assoc.{
  Assoc, lookup, put, IsMap, lookup-put, lookup-retain, put-IsMap, retain-IsMap,
}
use mailfold.RateLimit.{
  Entry, Limiter, elapsed, fresh, allow_at, allow, gc, Event, request, sweep, step,
}

abbrev pub time : Event → ℕ
time (request key now) = now
time (sweep now) = now

-- The event is a request of the key.
abbrev pub concerns : String → Event → Bool
concerns k (request key now) = str_eq key k
concerns k (sweep now) = false

unfoldable pub grants : Limiter → String → Event → Bool
grants l k (request key now) = str_eq key k && (allow l key now).0.0
grants l k (sweep now) = false

-- How many requests of the key pass, and how many are made.
unfoldable pub granted : Limiter → String → List Event → ℕ
granted l k [] = 0
granted l k (ev ∷ evs) = (if grants l k ev then 1 else 0) + granted (step l ev) k evs

unfoldable pub requests : String → List Event → ℕ
requests k [] = 0
requests k (ev ∷ evs) = (if concerns k ev then 1 else 0) + requests k evs

-- No entry of the key, or one whose window has passed.
abbrev pub IsIdle : Limiter → String → ℕ → Type 0
IsIdle l k now = (e : Entry) → lookup k l.entries ≡ some e → e.window_start + l.window ≤ now

pub max-step : (l : Limiter) (ev : Event) → (step l ev).max ≡ l.max
unfolding step allow gc
max-step l (request key now) = ground arith
max-step l (sweep now) = refl

pub window-step : (l : Limiter) (ev : Event) → (step l ev).window ≡ l.window
unfolding step allow gc
window-step l (request key now) = ground arith
window-step l (sweep now) = refl

-- A call leaves the map, or writes an entry at its own key.
pub allow_cases :
    (P : Assoc Entry → Type 0) (l : Limiter) (key : String) (now : ℕ)
    → P l.entries
    → ((e : Entry) → P (put key e l.entries))
    → P (allow l key now).1.entries
unfolding allow
allow_cases P l key now same written = elim (Bool-cases (leb l.max 0)) [
  | inl off ↦ rw off same
  | inr on ↦ rw on (go (lookup key l.entries))
]
  where
    go : (o : Option Entry) → P (allow_at l key now o).1.entries
    go none = written (fresh now)
    go (some e) = elim (Bool-cases (elapsed l e now)) [
      | inl past ↦ rw past (written (fresh now))
      | inr live ↦ rw live (elim (Bool-cases (leb l.max e.count)) [
        | inl full ↦ rw full same
        | inr room ↦ rw room (written (record e { count = e.count + 1 }))
      ])
    ]

pub step-IsMap : (l : Limiter) (ev : Event) → IsMap l.entries → IsMap (step l ev).entries
unfolding step gc
step-IsMap l (request key now) u = allow_cases IsMap l key now u (λ e. put-IsMap key e l.entries u)
step-IsMap l (sweep now) u = retain-IsMap _ l.entries u

-- A request of one key leaves what the limiter holds of every other.
pub lookup-allow_ne :
    (l : Limiter) (key k : String) (now : ℕ)
    → key ≢ k
    → lookup k (allow l key now).1.entries ≡ lookup k l.entries
lookup-allow_ne l key k now d =
    allow_cases (λ m. lookup k m ≡ lookup k l.entries) l key now refl
      λ e. ground (arith, lookup-put key k e l.entries, eq_iff key k)

-- The entry of a key in its window, after one event.
abbrev counted : ℕ → String → Event → Entry → Entry
counted max k ev e =
    if concerns k ev && ltb e.count max then record e { count = e.count + 1 } else e

module _ (l : Limiter) (k : String) (e : Entry) (held : lookup k l.entries ≡ some e) where
  lookup-allow_self :
      (now : ℕ)
      → 0 < l.max
      → now < e.window_start + l.window
      → lookup k (allow l k now).1.entries ≡ some (counted l.max k (request k now) e)
  unfolding allow
  lookup-allow_self now m t =
      rw (held, allow)
        (ground
          (arith, eq_iff k k, held, lookup-put k k (record e { count = e.count + 1 }) l.entries))

  lookup-step :
      (ev : Event)
      → 0 < l.max
      → IsMap l.entries
      → time ev < e.window_start + l.window
      → lookup k (step l ev).entries ≡ some (counted l.max k ev e)
  unfolding step gc
  lookup-step (request key now) m u t = elim (Bool-cases (str_eq key k)) [
    | inl hit ↦ let same : key ≡ k = (eq_iff key k).0 hit in rw same (lookup-allow_self now m t)
    | inr miss ↦ rw miss (lookup-allow_ne l key k now (ground (arith, eq_iff key k)) ∙ held)
  ]
  lookup-step (sweep now) m u t = lookup-retain _ k l.entries u ∙ rw held (ground arith)

  grants_lem :
      (ev : Event)
      → 0 < l.max
      → time ev < e.window_start + l.window
      → grants l k ev ≡ (concerns k ev && ltb e.count l.max)
  unfolding grants allow
  grants_lem (request key now) m t = ground (arith, eq_iff key k)
  grants_lem (sweep now) m t = refl

counted_start :
    (max : ℕ) (k : String) (ev : Event) (e : Entry)
    → (counted max k ev e).window_start ≡ e.window_start
counted_start max k ev e = ground arith

counted_count :
    (max : ℕ) (k : String) (ev : Event) (e : Entry)
    → (counted max k ev e).count
      ≡ (if concerns k ev && ltb e.count max then e.count + 1 else e.count)
counted_count max k ev e = ground arith

-- While the entry's window lasts, whatever the other keys do and however often the map is swept.
pub granted-window :
    (evs : List Event) (l : Limiter) (k : String) (e : Entry)
    → lookup k l.entries ≡ some e
    → 0 < l.max
    → IsMap l.entries
    → e.count ≤ l.max
    → All (λ ev. time ev < e.window_start + l.window) evs
    → granted l k evs ≡ min (requests k evs) (l.max - e.count)
unfolding granted requests
granted-window [] l k e held m u c t = omega arith
granted-window (ev ∷ evs) l k e held m u c t =
    let e' : Entry = counted l.max k ev e in
    let ih =
      granted-window evs (step l ev) k e' (lookup-step l k e held ev m u t.0) (rw max-step m)
        (step-IsMap l ev u) (rw max-step (ground arith))
        (rw (window-step, counted_start l.max k ev e) t.1) in
    ground (arith, ih, grants_lem l k e held ev m t.0, max-step l ev, counted_count l.max k ev e)
