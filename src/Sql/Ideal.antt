-- ===== src/Sql/Ideal.antt =====
-- What a sequence of statements does when the driver reports no error, and that this is all it can do
-- when it succeeds.
use mailfold.Prelude.{◌≡◌, refl, sym, ap, ◌∙◌, subst, inl, inr, Option-cases}
use mathlib.Core.Path.{fun_ext}
use mailfold.Sql.Defs.{
  Result, ok, err, Conn, Sql, attempt, statement, continue, ◌>>=◌, ◌>>◌, committed, transaction,
  roll_back,
}
use mailfold.Sql.Laws.{IsReliable, statement_reliable, statement-KeepsOutcome}

-- A run without errors of the driver, on the tables alone.
abbrev pub Ideal : Type 0 → Type 0 → Type 0
Ideal T A = T → Result A × T

unfoldable pub then_ideal : {T A B : Type 0} → Result A → T → (A → Ideal T B) → Result B × T
then_ideal (ok a) t k = k a t
then_ideal (err e) t k = (err e, t)

-- `m` succeeds only as `f` does, and is `f` where the driver reports no error.
pub record Implements {T A : Type 0} (m : Sql T A) (f : Ideal T A) : Type 0 where
  pub when_ok :
      (c : Conn T) (a : A)
      → (m c).0 ≡ ok a
      → ((f c.tables).0 ≡ ok a) × ((m c).1.tables ≡ (f c.tables).1)
  pub reliable :
      (c : Conn T)
      → IsReliable c
      → ((m c).0 ≡ (f c.tables).0) × ((m c).1.tables ≡ (f c.tables).1) × IsReliable (m c).1

module _ {T A : Type 0} where
  statement_when_ok :
      (f : T → A × T) (c : Conn T) (a : A)
      → (statement f c).0 ≡ ok a
      → (ok (f c.tables).0 ≡ ok a) × ((statement f c).1.tables ≡ (f c.tables).1)
  unfolding statement
  statement_when_ok f c a h = elim (Option-cases (c.outcome c.used)) [
    | inl e ↦ rw (e, attempt) ((rw (e, attempt) at h), refl)
    | inr (x, e) ↦ let h' : err x ≡ ok a = rw (e, attempt) at h in cc
  ]

  pub statement-Implements : (f : T → A × T) → Implements (statement f) (λ t. (ok (f t).0, (f t).1))
  statement-Implements f = record {
    when_ok = statement_when_ok f;
    reliable = λ c r. (
      ap (λ x. x.0) (statement_reliable f c r),
      ap (λ x. x.1.tables) (statement_reliable f c r),
      λ n. ap (λ o. o n) (statement-KeepsOutcome f c) ∙ r n,
    );
  }

  -- A step that uses no statement.
  pub lift-Implements : (r : Result A) → Implements {T = T} (λ c. (r, c)) (λ t. (r, t))
  lift-Implements r = record { when_ok = λ c a h. (h, refl); reliable = λ c rel. (refl, refl, rel) }

module _ {T A B : Type 0} {m : Sql T A} {f : Ideal T A} {k : A → Sql T B} {g : A → Ideal T B} where
  bind_when_ok :
      Implements m f
      → ((a : A) → Implements (k a) (g a))
      → (c : Conn T) (b : B) (r : Result A) → (m c).0 ≡ r
      → (continue r k (m c).1).0 ≡ ok b
      → ((then_ideal (f c.tables).0 (f c.tables).1 g).0 ≡ ok b)
        × ((continue r k (m c).1).1.tables ≡ (then_ideal (f c.tables).0 (f c.tables).1 g).1)
  unfolding continue then_ideal
  bind_when_ok im ik c b (err e) q h = cc
  bind_when_ok im ik c b (ok a) q h =
      let first = im.when_ok c a q in
      let next = (ik a).when_ok (m c).1 b h in
      rw (first.0, then_ideal)
        (ap (λ t. (g a t).0) (sym first.1) ∙ next.0, next.1 ∙ ap (λ t. (g a t).1) first.1)

  bind-IsReliable :
      Implements m f
      → ((a : A) → Implements (k a) (g a))
      → (c : Conn T) → IsReliable c
      → (r : Result A) → (m c).0 ≡ r
      → ((continue r k (m c).1).0 ≡ (then_ideal (f c.tables).0 (f c.tables).1 g).0)
        × ((continue r k (m c).1).1.tables ≡ (then_ideal (f c.tables).0 (f c.tables).1 g).1)
        × IsReliable (continue r k (m c).1).1
  unfolding continue then_ideal
  bind-IsReliable im ik c rel (err e) q =
      let first = im.reliable c rel in rw (sym first.0 ∙ q, then_ideal) (refl, first.1, first.2)
  bind-IsReliable im ik c rel (ok a) q =
      let first = im.reliable c rel in
      let next = (ik a).reliable (m c).1 first.2 in
      rw (sym first.0 ∙ q, then_ideal)
        (next.0 ∙ ap (λ t. (g a t).0) first.1, next.1 ∙ ap (λ t. (g a t).1) first.1, next.2)

  pub bind-Implements :
      Implements m f
      → ((a : A) → Implements (k a) (g a))
      → Implements (m >>= k) (λ t. then_ideal (f t).0 (f t).1 g)
  unfolding ◌>>=◌
  bind-Implements im ik = record {
    when_ok = λ c b h. bind_when_ok im ik c b (m c).0 refl h;
    reliable = λ c rel. bind-IsReliable im ik c rel (m c).0 refl;
  }

-- What is rolled back after an error.
unfoldable pub roll_back_ideal : {T A : Type 0} → T → Result A × T → Result A × T
roll_back_ideal t (ok a, t') = (ok a, t')
roll_back_ideal t (err e, t') = (err e, t)

module _ {T A : Type 0} where
  then_pure : (r : Result A) (t : T) → then_ideal r t (λ a t2. (ok a, t2)) ≡ (r, t)
  unfolding then_ideal
  then_pure (ok a) t = refl
  then_pure (err e) t = refl

  -- The ideal run may be given in another form.
  pub Implements-of_eq :
      {m : Sql T A} (f g : Ideal T A) → ((t : T) → f t ≡ g t) → Implements m f → Implements m g
  Implements-of_eq {m} f g e im = subst (Implements m) (fun_ext e) im

  committed-Implements :
      {body : Sql T A} {f : Ideal T A} → Implements body f → Implements (committed body) f
  unfolding committed ◌>>◌ then_ideal
  committed-Implements {body} {f} im =
      Implements-of_eq (λ t. then_ideal (f t).0 (f t).1 (λ a t2. (ok a, t2))) f
        (λ t. then_pure (f t).0 (f t).1)
        (bind-Implements (statement-Implements (λ t. (tt, t)))
          (λ _. bind-Implements im (λ a. statement-Implements (λ t. (a, t)))))

  roll_back_when_ok :
      (t : T) (r : Result A) (c : Conn T) (a : A) (f : Result A × T)
      → (r ≡ ok a → (f.0 ≡ ok a) × (c.tables ≡ f.1))
      → (roll_back t (r, c)).0 ≡ ok a
      → ((roll_back_ideal t f).0 ≡ ok a) × ((roll_back t (r, c)).1.tables ≡ (roll_back_ideal t f).1)
  unfolding roll_back roll_back_ideal
  roll_back_when_ok t (ok x) c a (ok y, t') k h = let p = k h in (p.0, p.1)
  roll_back_when_ok t (ok x) c a (err e, t') k h = let p = k h in cc (p.0)
  roll_back_when_ok t (err e) c a f k h = cc

  roll_back-IsReliable :
      (t : T) (r : Result A) (c : Conn T) (f : Result A × T)
      → r ≡ f.0
      → c.tables ≡ f.1
      → IsReliable c
      → ((roll_back t (r, c)).0 ≡ (roll_back_ideal t f).0)
        × ((roll_back t (r, c)).1.tables ≡ (roll_back_ideal t f).1)
        × IsReliable (roll_back t (r, c)).1
  unfolding roll_back roll_back_ideal
  roll_back-IsReliable t (ok x) c (ok y, t') e q rel = (e, q, rel)
  roll_back-IsReliable t (err x) c (err y, t') e q rel = (e, refl, rel)
  roll_back-IsReliable t (ok x) c (err y, t') e q rel = cc
  roll_back-IsReliable t (err x) c (ok y, t') e q rel = cc

  pub transaction-Implements :
      {body : Sql T A} {f : Ideal T A}
      → Implements body f
      → Implements (transaction body) (λ t. roll_back_ideal t (f t))
  unfolding transaction
  transaction-Implements {body} {f} im =
      let whole = committed-Implements im in
      record {
        when_ok = λ c a h.
            roll_back_when_ok c.tables (committed body c).0 (committed body c).1 a (f c.tables)
              (whole.when_ok c a) h;
        reliable = λ c rel.
            let w = whole.reliable c rel in
            roll_back-IsReliable c.tables (committed body c).0 (committed body c).1 (f c.tables) w.0
              w.1 w.2;
      }
