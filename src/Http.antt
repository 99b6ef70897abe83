-- ===== src/Http.antt =====
-- backend/internal/api/response.go: a handler reads and writes a store and answers with a value and
-- status 2xx, or refuses with a status and a message. Bodies and parameters arrive decoded: the result
-- of encoding/json and strconv is an argument of a handler.
pub mod Ends
use mailfold.Prelude.{ℕ, String}
use mailfold.Sql.{Result, ok, err, Conn, Sql}

pub data Response (A : Type 0) : Type 0 where
  answer : A → Response A
  refuse : ℕ → String → Response A

abbrev pub Handler : Type 0 → Type 0 → Type 0
Handler T A = Conn T → Response A × Conn T

module _ {T A : Type 0} where
  abbrev pub reply : A → Handler T A
  reply a c = (answer a, c)

  abbrev pub deny : ℕ → String → Handler T A
  deny code message c = (refuse code message, c)

module _ {T A B : Type 0} where
  -- if err := decodeJSON(r, &req); err != nil { s.writeError(w, http.StatusBadRequest, err); return }
  unfoldable pub with_body : Result A → (A → Handler T B) → Handler T B
  with_body (ok a) k = k a
  with_body (err e) k = deny 400 e

  -- if err != nil { s.writeError(w, http.StatusInternalServerError, err); return }
  unfoldable pub proceed : Result A → (A → Handler T B) → Handler T B
  proceed (ok a) k = k a
  proceed (err e) k = deny 500 e

  unfoldable pub call : Sql T A → (A → Handler T B) → Handler T B
  unfolding proceed
  call m k c = let (r, c') = m c in proceed r k c'
