-- ===== src/ScheduledSend/Sort.antt =====
-- An ORDER BY and an assignment of ids for the examples, with what the store of
-- backend/internal/scheduledsend/store.go relies on.
use mathlib.Core.List.{Permᴰ}
use mathlib.Core.List.Permᴰ
use mailfold.Prelude.{
  ℕ, suc, ◌+◌, ◌≤◌, ◌≡◌, refl, false, List, [], ◌∷◌, arith, leb, ◌==◌, if◌then◌else◌, All, inl, inr,
  Bool-cases,
}
use mailfold.ScheduledSend.{MessageRow, IsOrdered}

module _ (key : MessageRow → ℕ) where
  insert : MessageRow → List MessageRow → List MessageRow
  insert r [] = r ∷ []
  insert r (x ∷ xs) = let rest = insert r xs in if leb (key r) (key x) then r ∷ x ∷ xs else x ∷ rest

  pub sort : List MessageRow → List MessageRow
  sort [] = []
  sort (r ∷ rs) = insert r (sort rs)

  insert-perm : (r : MessageRow) (xs : List MessageRow) → Permᴰ (r ∷ xs) (insert r xs)
  unfolding insert
  insert-perm r [] = Permᴰ.refl (r ∷ [])
  insert-perm r (x ∷ xs) = elim (Bool-cases (leb (key r) (key x))) [
    | inl le ↦ rw le (Permᴰ.refl (r ∷ x ∷ xs))
    | inr gt ↦ rw gt (Permᴰ.trans (Permᴰ.swap refl refl) (Permᴰ.cons refl (insert-perm r xs)))
  ]

  pub sort-perm : (rs : List MessageRow) → Permᴰ rs (sort rs)
  unfolding sort
  sort-perm [] = Permᴰ.nil
  sort-perm (r ∷ rs) = Permᴰ.trans (Permᴰ.cons refl (sort-perm rs)) (insert-perm r (sort rs))

  insert-IsOrdered :
      (r : MessageRow) (xs : List MessageRow) → IsOrdered key xs → IsOrdered key (insert r xs)
  unfolding insert
  insert-IsOrdered r [] o = tt
  insert-IsOrdered r (x ∷ []) o = elim (Bool-cases (leb (key r) (key x))) [
    | inl le ↦ rw le (ground arith, tt)
    | inr gt ↦ rw gt (ground arith, tt)
  ]
  insert-IsOrdered r (x ∷ y ∷ xs) o = elim (Bool-cases (leb (key r) (key x))) [
    | inl le ↦ rw le (ground arith, o)
    | inr gt ↦
        let rest = insert-IsOrdered r (y ∷ xs) o.1 in
        elim (Bool-cases (leb (key r) (key y))) [
          | inl le ↦ rw (gt, le) (ground arith, (ground arith, o.1))
          | inr gt' ↦ rw (gt, gt') (o.0, rw gt' at rest)
        ]
  ]

  pub sort-IsOrdered : (rs : List MessageRow) → IsOrdered key (sort rs)
  unfolding sort
  sort-IsOrdered [] = tt
  sort-IsOrdered (r ∷ rs) = insert-IsOrdered r (sort rs) (sort-IsOrdered rs)

total : List ℕ → ℕ
total [] = 0
total (i ∷ is) = i + total is

pub above : List ℕ → ℕ
unfolding total
above is = suc (total is)

above-fresh_from : (is : List ℕ) (n : ℕ) → total is ≤ n → All (λ i. (i == suc n) ≡ false) is
unfolding total
above-fresh_from [] n h = tt
above-fresh_from (i ∷ is) n h = (ground arith, above-fresh_from is n (omega arith))

pub above-fresh : (is : List ℕ) → All (λ i. (i == above is) ≡ false) is
unfolding above
above-fresh is = above-fresh_from is (total is) (omega arith)
