-- ===== src/Sql/Defs.antt =====
-- Statements, their sequence, and transactions.
use mailfold.Prelude.{ℕ, suc, String, Option, none, some}

pub data Result {ℓ} (A : Type ℓ) : Type ℓ where
  ok : A → Result A
  err : String → Result A

-- `outcome n` is the error that the driver reports for statement `n`, if it reports one.
pub record Conn (T : Type 0) : Type 0 where
  pub tables : T
  pub outcome : ℕ → Option String
  pub used : ℕ

abbrev pub Sql : Type 0 → Type 0 → Type 0
Sql T A = Conn T → Result A × Conn T

module _ {T A : Type 0} where
  abbrev pub pure : A → Sql T A
  pure a c = (ok a, c)

  unfoldable pub attempt : Option String → (T → A × T) → Conn T → Result A × Conn T
  attempt none f c = let (a, t) = f c.tables in (ok a, record c { tables = t; used = suc c.used })
  attempt (some e) f c = (err e, record c { used = suc c.used })

  -- One statement: it has its effect, or reports an error and has none.
  unfoldable pub statement : (T → A × T) → Sql T A
  unfolding attempt
  statement f c = attempt (c.outcome c.used) f c

  -- `_ = f()`
  abbrev pub ignore : A → Sql T A → Sql T A
  ignore a m c = (ok a, (m c).1)

  -- What is not committed leaves no trace in the tables.
  unfoldable pub roll_back : T → Result A × Conn T → Result A × Conn T
  roll_back t (ok a, c) = (ok a, c)
  roll_back t (err e, c) = (err e, record c { tables = t })

module _ {T A B : Type 0} where
  unfoldable pub continue : Result A → (A → Sql T B) → Sql T B
  continue (ok a) f c = f a c
  continue (err e) f c = (err e, c)

  infixl 5 ◌>>=◌ ◌>>◌
  unfoldable pub ◌>>=◌ : Sql T A → (A → Sql T B) → Sql T B
  unfolding continue
  ◌>>=◌ m f c = let (r, c') = m c in continue r f c'

  unfoldable pub ◌>>◌ : Sql T A → Sql T B → Sql T B
  unfolding ◌>>=◌
  m >> k = m >>= λ _. k

module _ {T A : Type 0} where
  -- Begin, the body, Commit.
  unfoldable pub committed : Sql T A → Sql T A
  unfolding statement ◌>>=◌ ◌>>◌
  committed body = do statement (λ t. (tt, t)); a ← body; statement (λ t. (a, t))

  -- The same with the deferred Rollback.
  unfoldable pub transaction : Sql T A → Sql T A
  unfolding committed roll_back
  transaction body c = roll_back c.tables (committed body c)
