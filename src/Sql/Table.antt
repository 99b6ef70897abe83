-- ===== src/Sql/Table.antt =====
-- A table is the list of its rows.
use mailfold.Prelude.{ℕ, ◌+◌, Bool, Option, none, some, List, [], ◌∷◌, if◌then◌else◌}

module _ {R : Type 0} where
  -- SELECT … WHERE
  unfoldable pub select : (R → Bool) → List R → List R
  select p [] = []
  select p (r ∷ rs) = let rest = select p rs in if p r then r ∷ rest else rest

  -- the first row of such a query, as QueryRow reads it
  unfoldable pub first : (R → Bool) → List R → Option R
  first p [] = none
  first p (r ∷ rs) = if p r then some r else first p rs

  -- UPDATE … SET … WHERE
  unfoldable pub update : (R → Bool) → (R → R) → List R → List R
  update p f [] = []
  update p f (r ∷ rs) = (if p r then f r else r) ∷ update p f rs

  -- DELETE … WHERE
  unfoldable pub delete : (R → Bool) → List R → List R
  delete p [] = []
  delete p (r ∷ rs) = let rest = delete p rs in if p r then rest else r ∷ rest

  -- the rows that a WHERE matches
  unfoldable pub count : (R → Bool) → List R → ℕ
  count p [] = 0
  count p (r ∷ rs) = (if p r then 1 else 0) + count p rs

  -- INSERT … ON CONFLICT … DO UPDATE: the row in conflict is changed, or the new one added.
  unfoldable pub upsert : (R → Bool) → (R → R) → R → List R → List R
  upsert p f new [] = new ∷ []
  upsert p f new (r ∷ rs) = let rest = upsert p f new rs in if p r then f r ∷ rs else r ∷ rest
