-- ===== src/Sql/Rows.antt =====
-- The first row that matches, after rows are deleted, changed or added.
use mailfold.Prelude.{
  ◌≡◌, refl, Bool, true, false, Option, none, some, List, [], ◌∷◌, arith, Bool-cases, inl, inr,
}
use mailfold.Sql.Table.{select, first, delete, upsert}

module _ {R : Type 0} where
  -- The row that an upsert leaves.
  abbrev pub merged : (R → R) → R → Option R → R
  merged f new none = new
  merged f new (some r) = f r

  module _ (p : R → Bool) where
    pub first-delete : (rows : List R) → first p (delete p rows) ≡ none
    unfolding first delete
    first-delete [] = refl
    first-delete (r ∷ rows) = ground (arith, first-delete rows)

    pub first-matches : (rows : List R) (r : R) → first p rows ≡ some r → p r ≡ true
    unfolding first
    first-matches [] r h = cc
    first-matches (x ∷ rows) r h = elim (Bool-cases (p x)) [
      | inl hit ↦ (let e : some x ≡ some r = rw hit at h in ground (arith, hit))
      | inr miss ↦ (let e : first p rows ≡ some r = rw miss at h in first-matches rows r e)
    ]

    pub first-upsert :
        (f : R → R) (new : R)
        → p new ≡ true
        → ((r : R) → p r ≡ true → p (f r) ≡ true)
        → (rows : List R) → first p (upsert p f new rows) ≡ some (merged f new (first p rows))
    unfolding first upsert
    first-upsert f new fits keep [] = ground (arith, fits)
    first-upsert f new fits keep (r ∷ rows) =
        ground (arith, first-upsert f new fits keep rows, keep r)

    module _ (q : R → Bool) (apart : (r : R) → q r ≡ true → p r ≡ false) where
      pub first-delete-other : (rows : List R) → first q (delete p rows) ≡ first q rows
      unfolding first delete
      first-delete-other [] = refl
      first-delete-other (r ∷ rows) = ground (arith, first-delete-other rows, apart r)

    -- An upsert shows in no query for rows of other keys.
    pub first-upsert-other :
        (q : R → Bool) (f : R → R) (new : R)
        → ((r : R) → p r ≡ true → q r ≡ false)
        → ((r : R) → q (f r) ≡ q r)
        → q new ≡ false
        → (rows : List R) → first q (upsert p f new rows) ≡ first q rows
    unfolding first upsert
    first-upsert-other q f new apart keep other [] = ground (arith, other)
    first-upsert-other q f new apart keep other (r ∷ rows) = elim (Bool-cases (p r)) [
      | inl hit ↦ rw (hit, keep r, apart r hit) refl
      | inr miss ↦
          (let rest = first-upsert-other q f new apart keep other rows in rw (miss, rest) refl)
    ]

    pub select-delete : (rows : List R) → select p (delete p rows) ≡ []
    unfolding select delete
    select-delete [] = refl
    select-delete (r ∷ rows) = ground (arith, select-delete rows)
