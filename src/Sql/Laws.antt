-- ===== src/Sql/Laws.antt =====
-- What holds of every statement, sequence and transaction, and of the tables after one.
use mailfold.Prelude.{
  ℕ, suc, String, ◌≡◌, refl, ◌∙◌, Bool, true, false, none, some, List, [], ◌∷◌, arith, Bool-cases,
  Option-cases, inl, inr,
}
use mailfold.Sql.Defs.{
  Result, ok, err, Conn, Sql, attempt, statement, continue, ◌>>=◌, ◌>>◌, committed, transaction,
  roll_back,
}
use mathlib.Core.Option
use mailfold.Sql.Table.{first, update, delete}

-- The driver reports no error from here on.
abbrev pub IsReliable : {T : Type 0} → Conn T → Type 0
IsReliable c = (n : ℕ) → c.outcome n ≡ none

-- An error leaves the tables as they were.
abbrev pub IsAtomic : {T A : Type 0} → Sql T A → Type 0
IsAtomic {T} m = (c : Conn T) (e : String) → (m c).0 ≡ err e → (m c).1.tables ≡ c.tables

module _ {T A : Type 0} where
  pub statement-IsAtomic : (f : T → A × T) → IsAtomic (statement f)
  unfolding statement
  statement-IsAtomic f c e h = ground arith

  pub statement_reliable :
      (f : T → A × T) (c : Conn T)
      → IsReliable c
      → statement f c ≡ (ok (f c.tables).0, record c { tables = (f c.tables).1; used = suc c.used })
  unfolding statement
  statement_reliable f c r = rw (r c.used, attempt)

  pub statement_cases :
      (P : T → Type 0) (f : T → A × T) (c : Conn T)
      → P c.tables
      → P (f c.tables).1
      → P (statement f c).1.tables
  unfolding statement
  statement_cases P f c same changed = elim (Option-cases (c.outcome c.used)) [
    | inl e ↦ rw (e, attempt) changed
    | inr (x, e) ↦ rw (e, attempt) same
  ]

  roll_back_atomic :
      (t : T) (r : Result A) (c : Conn T) (e : String)
      → (roll_back t (r, c)).0 ≡ err e
      → (roll_back t (r, c)).1.tables ≡ t
  unfolding roll_back
  roll_back_atomic t (ok a) c e h = cc
  roll_back_atomic t (err x) c e h = refl

  pub transaction-IsAtomic : (body : Sql T A) → IsAtomic (transaction body)
  unfolding transaction
  transaction-IsAtomic body c e h = roll_back_atomic c.tables _ _ e h

-- The tables keep `P`, whatever the driver reports.
abbrev pub Keeps : {T A : Type 0} → (T → Type 0) → Sql T A → Type 0
Keeps {T} P m = (c : Conn T) → P c.tables → P (m c).1.tables

pub Keeps-statement :
    {T A : Type 0} (P : T → Type 0) (f : T → A × T)
    → ((t : T) → P t → P (f t).1)
    → Keeps P (statement f)
Keeps-statement P f keep c h = statement_cases P f c h (keep c.tables h)

module _ {T A B : Type 0} (P : T → Type 0) where
  Keeps-continue :
      (r : Result A) (f : A → Sql T B)
      → ((a : A) → Keeps P (f a))
      → (c : Conn T) → P c.tables
      → P (continue r f c).1.tables
  unfolding continue
  Keeps-continue (ok a) f keep c h = keep a c h
  Keeps-continue (err e) f keep c h = h

  pub Keeps-bind :
      (m : Sql T A) (f : A → Sql T B) → Keeps P m → ((a : A) → Keeps P (f a)) → Keeps P (m >>= f)
  unfolding ◌>>=◌
  Keeps-bind m f km kf c h = Keeps-continue (m c).0 f kf (m c).1 (km c h)

module _ {T A : Type 0} (P : T → Type 0) (body : Sql T A) (keep : Keeps P body) where
  Keeps-committed : Keeps P (committed body)
  unfolding committed ◌>>◌
  Keeps-committed =
      let finish = λ (a : A). statement {T = T} (λ t. (a, t)) in
      Keeps-bind {A = Unit {0}} P (statement (λ t. (tt, t))) (λ _. body >>= finish)
        (Keeps-statement P (λ t. (tt, t)) (λ t h. h))
        (λ _. Keeps-bind P body finish keep (λ a. Keeps-statement P (λ t. (a, t)) (λ t h. h)))

  rolled_back :
      (t : T) (r : Result A) (c : Conn T) → P t → P c.tables → P (roll_back t (r, c)).1.tables
  unfolding roll_back
  rolled_back t (ok a) c p q = q
  rolled_back t (err e) c p q = p

  pub Keeps-transaction : Keeps P (transaction body)
  unfolding transaction
  Keeps-transaction c h =
      rolled_back c.tables (committed body c).0 (committed body c).1 h (Keeps-committed c h)

-- What the driver will report does not depend on the statements.
abbrev pub KeepsOutcome : {T A : Type 0} → Sql T A → Type 0
KeepsOutcome {T} m = (c : Conn T) → (m c).1.outcome ≡ c.outcome

pub statement-KeepsOutcome : {T A : Type 0} (f : T → A × T) → KeepsOutcome (statement f)
unfolding statement attempt
statement-KeepsOutcome f c = ground arith

module _ {T A B : Type 0} where
  continue-KeepsOutcome :
      (r : Result A) (f : A → Sql T B)
      → ((a : A) → KeepsOutcome (f a))
      → (c : Conn T) → (continue r f c).1.outcome ≡ c.outcome
  unfolding continue
  continue-KeepsOutcome (ok a) f keep c = keep a c
  continue-KeepsOutcome (err e) f keep c = refl

  pub bind-KeepsOutcome :
      (m : Sql T A) (f : A → Sql T B)
      → KeepsOutcome m
      → ((a : A) → KeepsOutcome (f a))
      → KeepsOutcome (m >>= f)
  unfolding ◌>>=◌
  bind-KeepsOutcome m f km kf c = continue-KeepsOutcome (m c).0 f kf (m c).1 ∙ km c

module _ {R : Type 0} where
  pub first_matches : (p : R → Bool) (rs : List R) {r : R} → first p rs ≡ some r → p r ≡ true
  unfolding first
  first_matches p [] h = cc
  first_matches p (x ∷ rs) h = elim (Bool-cases (p x)) [
    | inl hit ↦ ground arith
    | inr miss ↦ first_matches p rs (ground arith)
  ]

  pub first-delete_self : (p : R → Bool) (rs : List R) → first p (delete p rs) ≡ none
  unfolding first delete
  first-delete_self p [] = refl
  first-delete_self p (x ∷ rs) = ground (arith, first-delete_self p rs)

  pub first-delete_ne :
      (p q : R → Bool) (rs : List R)
      → ((r : R) → p r ≡ true → q r ≡ false)
      → first p (delete q rs) ≡ first p rs
  unfolding first delete
  first-delete_ne p q [] d = refl
  first-delete_ne p q (x ∷ rs) d = ground (arith, d x, first-delete_ne p q rs d)

  pub first-update_self :
      (p : R → Bool) (f : R → R) (rs : List R)
      → ((r : R) → p (f r) ≡ p r)
      → first p (update p f rs) ≡ Option.map f (first p rs)
  unfolding first update
  first-update_self p f [] k = refl
  first-update_self p f (x ∷ rs) k = ground (arith, k x, first-update_self p f rs k)

  pub first-update_ne :
      (p q : R → Bool) (f : R → R) (rs : List R)
      → ((r : R) → p (f r) ≡ p r)
      → ((r : R) → p r ≡ true → q r ≡ false)
      → first p (update q f rs) ≡ first p rs
  unfolding first update
  first-update_ne p q f [] k d = refl
  first-update_ne p q f (x ∷ rs) k d = ground (arith, k x, d x, first-update_ne p q f rs k d)
