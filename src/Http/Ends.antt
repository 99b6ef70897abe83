-- ===== src/Http/Ends.antt =====
-- What holds of the response and the tables after a handler, whatever the driver reports.
use mailfold.Prelude.{ℕ, String, ◌≡◌, refl, Bool, true, false, if◌then◌else◌, inl, inr, Bool-cases}
use mailfold.Sql.{Result, ok, err, Conn, Sql}
use mailfold.Sql.Triple.{After, Triple}
use mailfold.Http.{Response, answer, refuse, Handler, reply, deny, proceed, call, with_body}

module _ {T B : Type 0} where
  -- From tables with `P` the handler ends in a response and tables with `Q`.
  pub record Ends (P : T → Type 0) (h : Handler T B) (Q : Response B → T → Type 0) : Type 0 where
    pub runs : (c : Conn T) → P c.tables → Q (h c).0 (h c).1.tables

  module _ {P : T → Type 0} {Q : Response B → T → Type 0} where
    pub reply-Ends : (a : B) → ((t : T) → P t → Q (answer a) t) → Ends P (reply a) Q
    reply-Ends a h = record { runs = λ c p. h c.tables p }

    pub deny-Ends :
        (code : ℕ) (message : String)
        → ((t : T) → P t → Q (refuse code message) t)
        → Ends P (deny code message) Q
    deny-Ends code message h = record { runs = λ c p. h c.tables p }

    pub if-Ends :
        (b : Bool) {x y : Handler T B}
        → (b ≡ true → Ends P x Q)
        → (b ≡ false → Ends P y Q)
        → Ends P (if b then x else y) Q
    if-Ends b good bad = elim (Bool-cases b) [ inl e ↦ rw e (good e) | inr e ↦ rw e (bad e) ]

module _ {T A B : Type 0} {P : T → Type 0} {Q : Response B → T → Type 0} where
  pub body-Ends :
      (r : Result A) {k : A → Handler T B}
      → ((e : String) (t : T) → P t → Q (refuse 400 e) t)
      → ((a : A) → r ≡ ok a → Ends P (k a) Q)
      → Ends P (with_body r k) Q
  unfolding with_body
  body-Ends (ok a) bad good = good a refl
  body-Ends (err e) bad good = deny-Ends 400 e (bad e)

  pub call-Ends :
      {m : Sql T A} {k : A → Handler T B} (R : A → T → Type 0)
      → Triple P m R (λ t. (e : String) → Q (refuse 500 e) t)
      → ((a : A) → Ends (R a) (k a) Q)
      → Ends P (call m k) Q
  unfolding call proceed
  call-Ends {m} {k} R h next = record { runs = λ c p. step (m c).0 (m c).1 (h.runs c p) }
    where
      step :
          (r : Result A) (c : Conn T)
          → After R (λ t. (e : String) → Q (refuse 500 e) t) r c.tables
          → Q (proceed r k c).0 (proceed r k c).1.tables
      step (ok a) c q = (next a).runs c q
      step (err e) c q = q e
