-- ===== src/Sql.antt =====
-- A database connection as the stores use it through database/sql. What a statement does to the
-- tables is given by the code that issues it; whether the driver reports an error instead is the
-- environment's choice, one for each statement in the order of issue.
mod Defs
pub mod Table
pub mod Laws
pub mod Ideal
pub mod Triple
pub mod Rows
pub use Defs.{Result, ok, err, Conn, Sql, pure, ignore}
unfoldable pub use Defs.{
  attempt, statement, continue, ◌>>=◌, ◌>>◌, committed, transaction, roll_back,
}
