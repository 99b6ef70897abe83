-- ===== src/AdminStore/Attempts.antt =====
-- Attempts one after the other at what works once, over the tables of the administrator's store.
use mailfold.Prelude.{ℕ, ◌+◌, ◌≤◌, ◌≡◌, refl, Bool, false, List, [], ◌∷◌, All, arith, inl, inr, ◌⊎◌}
use mailfold.Sql.{Result, Conn, Sql}
use mailfold.Sql.Table.{update, count}
use mailfold.AdminStore.Defs.{Tables}

-- How often an action succeeds at the instants, one call after the other.
unfoldable pub successes :
    {A : Type 0} → (Result A → ℕ) → (ℕ → Sql Tables A) → List ℕ → Conn Tables → ℕ
successes score m [] c = 0
successes score m (now ∷ later) c = score (m now c).0 + successes score m later (m now c).1

-- An action that cannot succeed where `Spent` holds, keeps it, and brings it about by succeeding,
-- succeeds once at most.
module _ {A : Type 0} (score : Result A → ℕ) (m : ℕ → Sql Tables A) (Spent : Tables → Type 0)
    (fine : ℕ → Type 0)
    (refuses : (now : ℕ)
      → fine now
      → (c : Conn Tables) → Spent c.tables
      → (score (m now c).0 ≡ 0) × Spent (m now c).1.tables)
    (spends : (now : ℕ)
      → fine now
      → (c : Conn Tables)
      → (score (m now c).0 ≡ 0) ⊎ ((score (m now c).0 ≡ 1) × Spent (m now c).1.tables)) where
  never :
      (nows : List ℕ) (c : Conn Tables)
      → All fine nows
      → Spent c.tables
      → successes score m nows c ≡ 0
  unfolding successes
  never [] c f s = refl
  never (now ∷ later) c f s =
      let r = refuses now f.0 c s in
      let rest = never later (m now c).1 f.1 r.1 in ground (arith, r.0, rest)

  pub once : (nows : List ℕ) (c : Conn Tables) → All fine nows → successes score m nows c ≤ 1
  unfolding successes
  once [] c f = omega arith
  once (now ∷ later) c f = elim (spends now f.0 c) [
    | inl e ↦ (let rest = once later (m now c).1 f.1 in ground (arith, e, rest))
    | inr (e, s) ↦ (let rest = never later (m now c).1 f.1 s in ground (arith, e, rest))
  ]

pub update-count :
    {R : Type 0} (p : R → Bool) (f : R → R)
    → ((r : R) → p (f r) ≡ false)
    → (rows : List R) → count p (update p f rows) ≡ 0
unfolding update count
update-count p f k [] = refl
update-count p f k (r ∷ rows) = ground (arith, k r, update-count p f k rows)
