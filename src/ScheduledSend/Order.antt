-- ===== src/ScheduledSend/Order.antt =====
-- Rows under unique ids (id … PRIMARY KEY in backend/internal/scheduledsend/store.go), through the
-- selections and the ordering of a query.
use mathlib.Core.List.{Permᴰ}
use mailfold.Prelude.{
  ℕ, zero, suc, ◌≡◌, refl, subst, Bool, true, false, none, some, [], ◌∷◌, arith, All, inl, inr,
  Bool-cases,
}
use mailfold.Prelude.Text.{take}
use mailfold.Sql.Table.{select, first}
use mailfold.ScheduledSend.{MessageRow, Table, has_id, is_due, due_rows, Env}

-- No two rows have the same id.
abbrev pub IsKeyed : Table → Type 0
IsKeyed [] = Unit
IsKeyed (r ∷ rs) = (first (has_id r.id) rs ≡ none) × IsKeyed rs

module _ {P Q R : MessageRow → Type 0} where
  pub All-zip : (rs : Table) → ((r : MessageRow) → P r → Q r → R r) → All P rs → All Q rs → All R rs
  All-zip [] f p q = tt
  All-zip (r ∷ rs) f p q = (f r p.0 q.0, All-zip rs f p.1 q.1)

module _ (P : MessageRow → Type 0) where
  All-perm : {xs ys : Table} → Permᴰ xs ys → All P xs → All P ys
  All-perm Permᴰ.nil h = tt
  All-perm (Permᴰ.cons e p) h = (subst P e h.0, All-perm p h.1)
  All-perm (Permᴰ.swap e f) h = (subst P f h.1.0, (subst P e h.0, h.1.1))
  All-perm (Permᴰ.trans p q) h = All-perm q (All-perm p h)

  All-select :
      (p : MessageRow → Bool) (rs : Table) → All P rs → All (λ r. P r × (p r ≡ true)) (select p rs)
  unfolding select
  All-select p [] h = tt
  All-select p (r ∷ rs) h = elim (Bool-cases (p r)) [
    | inl in_it ↦ rw in_it ((h.0, in_it), All-select p rs h.1)
    | inr out ↦ rw out (All-select p rs h.1)
  ]

  All-take : (n : ℕ) (rs : Table) → All P rs → All P (take n rs)
  unfolding take
  All-take zero rs h = tt
  All-take (suc n) [] h = tt
  All-take (suc n) (r ∷ rs) h = (h.0, All-take n rs h.1)

module _ (p : MessageRow → Bool) where
  first-none : (rs : Table) → first p rs ≡ none → All (λ r. p r ≡ false) rs
  unfolding first
  first-none [] h = tt
  first-none (r ∷ rs) h = (ground arith, first-none rs (ground arith))

  none_of_All : (rs : Table) → All (λ r. p r ≡ false) rs → first p rs ≡ none
  unfolding first
  none_of_All [] h = refl
  none_of_All (r ∷ rs) h = ground (arith, h.0, none_of_All rs h.1)

has_id_sym : (a b : MessageRow) → has_id a.id b ≡ false → has_id b.id a ≡ false
unfolding has_id
has_id_sym a b h = ground arith

first-none-perm :
    (p : MessageRow → Bool) {xs ys : Table} → Permᴰ xs ys → first p xs ≡ none → first p ys ≡ none
first-none-perm p {xs} {ys} q h =
    none_of_All p ys (All-perm (λ r. p r ≡ false) q (first-none p xs h))

IsKeyed-perm : {xs ys : Table} → Permᴰ xs ys → IsKeyed xs → IsKeyed ys
unfolding first
IsKeyed-perm Permᴰ.nil u = tt
IsKeyed-perm (Permᴰ.cons {a = a} {l₂ = l₂} e p) u = (
  subst (λ r. first (has_id r.id) l₂ ≡ none) e (first-none-perm (has_id a.id) p u.0),
  IsKeyed-perm p u.1,
)
IsKeyed-perm (Permᴰ.swap {a = a} {b = b} {b' = b'} {l = l} e f) u =
    subst (λ x. IsKeyed (x ∷ b' ∷ l)) f
      (subst (λ y. IsKeyed (b ∷ y ∷ l)) e
        (ground (arith, u.1.0, u.0, has_id_sym a b), (ground (arith, u.0), u.1.1)))
IsKeyed-perm (Permᴰ.trans p q) u = IsKeyed-perm q (IsKeyed-perm p u)

none_of_select :
    (p q : MessageRow → Bool) (rs : Table) → first p rs ≡ none → first p (select q rs) ≡ none
unfolding first select
none_of_select p q [] h = refl
none_of_select p q (r ∷ rs) h = ground (arith, none_of_select p q rs)

IsKeyed-select : (p : MessageRow → Bool) (rs : Table) → IsKeyed rs → IsKeyed (select p rs)
unfolding select
IsKeyed-select p [] u = tt
IsKeyed-select p (r ∷ rs) u = elim (Bool-cases (p r)) [
  | inl in_it ↦ rw in_it (none_of_select (has_id r.id) p rs u.0, IsKeyed-select p rs u.1)
  | inr out ↦ rw out (IsKeyed-select p rs u.1)
]

IsKeyed-take : (n : ℕ) (rs : Table) → IsKeyed rs → IsKeyed (take n rs)
unfolding take
IsKeyed-take zero rs u = tt
IsKeyed-take (suc n) [] u = tt
IsKeyed-take (suc n) (r ∷ rs) u = (
  none_of_All (has_id r.id) (take n rs)
      (All-take (λ x. has_id r.id x ≡ false) n rs (first-none (has_id r.id) rs u.0)),
  IsKeyed-take n rs u.1,
)

-- Each row is the one found under its id.
pub All-first : (rs : Table) → IsKeyed rs → All (λ r. first (has_id r.id) rs ≡ some r) rs
unfolding first has_id
All-first [] u = tt
All-first (x ∷ rs) u = (
  ground arith,
  All-zip rs (λ r h m. ground arith) (All-first rs u.1) (first-none (has_id x.id) rs u.0),
)

module _ (env : Env) (now limit : ℕ) (t : Table) (u : IsKeyed t) where
  open env use {order_by, order_by-perm}

  -- The rows that a claim selects are on the table, due, and distinct.
  pub All-due_rows :
      All (λ r. (first (has_id r.id) t ≡ some r) × (is_due now r ≡ true)) (due_rows env now limit t)
  unfolding due_rows
  All-due_rows =
      let P = λ (r : MessageRow). (first (has_id r.id) t ≡ some r) × (is_due now r ≡ true) in
      All-take P limit _ (
        All-perm P (order_by-perm _ _)
          (All-select (λ r. first (has_id r.id) t ≡ some r) (is_due now) t (All-first t u)))

  pub IsKeyed-due_rows : IsKeyed (due_rows env now limit t)
  unfolding due_rows
  IsKeyed-due_rows =
      IsKeyed-take limit _ (IsKeyed-perm (order_by-perm _ _) (IsKeyed-select (is_due now) t u))
