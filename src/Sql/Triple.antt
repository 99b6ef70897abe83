-- ===== src/Sql/Triple.antt =====
-- What holds of the tables after a sequence of statements, in success and after an error.
use mailfold.Prelude.{String, ◌≡◌, none, some, subst, sym, ap, ◌⊎◌, inl, inr, Option-cases}
use mailfold.Sql.Defs.{Result, ok, err, Conn, Sql, attempt, statement, continue, ◌>>=◌}

module _ {T A : Type 0} where
  -- `Q` of the answer and the tables after a success, `E` of the tables after an error.
  abbrev pub After : (A → T → Type 0) → (T → Type 0) → Result A → T → Type 0
  After Q E (ok a) t = Q a t
  After Q E (err e) t = E t

  -- From tables with `P` the run ends so, whatever the driver reports.
  pub record Triple (P : T → Type 0) (m : Sql T A) (Q : A → T → Type 0) (E : T → Type 0)
      : Type 0 where
    pub runs : (c : Conn T) → P c.tables → After Q E (m c).0 (m c).1.tables

  module _ {P : T → Type 0} {m : Sql T A} {Q : A → T → Type 0} {E : T → Type 0}
      (h : Triple P m Q E) where
    pub Triple-ok : (c : Conn T) (a : A) → P c.tables → (m c).0 ≡ ok a → Q a (m c).1.tables
    Triple-ok c a p e = subst (λ r. After Q E r (m c).1.tables) e (h.runs c p)

    pub Triple-err : (c : Conn T) (e : String) → P c.tables → (m c).0 ≡ err e → E (m c).1.tables
    Triple-err c e p q = subst (λ r. After Q E r (m c).1.tables) q (h.runs c p)

  pub statement-Triple :
      (P : T → Type 0) (f : T → A × T) (Q : A → T → Type 0) (E : T → Type 0)
      → ((t : T) → P t → Q (f t).0 (f t).1)
      → ((t : T) → P t → E t)
      → Triple P (statement f) Q E
  unfolding statement
  statement-Triple P f Q E good bad = record {
    runs = λ c p. both c p (Option-cases (c.outcome c.used));
  }
    where
      both :
          (c : Conn T)
          → P c.tables
          → (c.outcome c.used ≡ none) ⊎ ((e : String) × (c.outcome c.used ≡ some e))
          → After Q E (statement f c).0 (statement f c).1.tables
      both c p (inl e) = rw (e, attempt) (good c.tables p)
      both c p (inr (x, e)) = rw (e, attempt) (bad c.tables p)

  -- A query, of tables that stay as they are.
  pub query-Triple :
      (before : T) (f : T → A) (E : T → Type 0)
      → E before
      → Triple
          (λ t. t ≡ before)
          (statement (λ t. (f t, t)))
          (λ a t. (a ≡ f before) × (t ≡ before))
          E
  query-Triple before f E bad =
      statement-Triple (λ t. t ≡ before) (λ t. (f t, t)) (λ a t. (a ≡ f before) × (t ≡ before)) E
        (λ t e. (ap f e, e)) (λ t e. subst E (sym e) bad)

  -- A statement on tables that are known.
  pub known-Triple :
      (before : T) (f : T → A × T) (Q : A → T → Type 0) (E : T → Type 0)
      → Q (f before).0 (f before).1
      → E before
      → Triple (λ t. t ≡ before) (statement f) Q E
  known-Triple before f Q E good bad =
      statement-Triple (λ t. t ≡ before) f Q E (λ t e. rw e good) (λ t e. rw e bad)

  -- An answer that uses no statement.
  pub lift-Triple :
      (P : T → Type 0) (r : Result A) (Q : A → T → Type 0) (E : T → Type 0)
      → ((t : T) → P t → After Q E r t)
      → Triple P (λ c. (r, c)) Q E
  lift-Triple P r Q E h = record { runs = λ c p. h c.tables p }

module _ {T A B : Type 0} where
  pub bind-Triple :
      {P : T → Type 0} {m : Sql T A} {k : A → Sql T B} (Q : A → T → Type 0) {R : B → T → Type 0}
      {E : T → Type 0}
      → Triple P m Q E
      → ((a : A) → Triple (Q a) (k a) R E)
      → Triple P (m >>= k) R E
  unfolding ◌>>=◌ continue
  bind-Triple {P} {m} {k} Q {R} {E} h next = record {
    runs = λ c p. step (m c).0 (m c).1 (h.runs c p);
  }
    where
      step :
          (r : Result A) (c : Conn T)
          → After Q E r c.tables
          → After R E (continue r k c).0 (continue r k c).1.tables
      step (ok a) c q = (next a).runs c q
      step (err e) c q = q
