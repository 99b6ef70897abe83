-- ===== src/Storage.antt =====
-- `Unix` and `FromUnix` of backend/storage/storage.go, over instants as the other parts use them:
-- nanoseconds since 1970, or Go's zero time. Instants before 1970 are left out.
use mailfold.Prelude.{ℕ, ◌*◌, ◌/◌, ◌<◌, ◌≡◌, Bool, true, arith, ltb, ◌==◌, if◌then◌else◌}

pub data Time : Type 0 where
  zero_time : Time
  at : ℕ → Time

-- time.Second, in nanoseconds
abbrev pub second : ℕ
second = 1_000_000_000

unfoldable pub unix : Time → ℕ
unix zero_time = 0
unix (at t) = t / second

unfoldable pub from_unix : ℕ → Time
from_unix n = if n == 0 then zero_time else at (n * second)

-- now.After(t), for a clock reading
unfoldable pub is_after : ℕ → Time → Bool
is_after now zero_time = true
is_after now (at t) = ltb t now

-- A stored instant reads back as it was written, and a written one as the start of its second (the
-- first second of 1970 as the zero time).
pub unix-from_unix : (n : ℕ) → unix (from_unix n) ≡ n
unfolding unix from_unix
unix-from_unix n = ground arith

-- An instant read back after storage is passed at `now` exactly if its whole seconds are.
pub is_after-from_unix : (now n : ℕ) → 0 < now → is_after now (from_unix n) ≡ ltb (n * second) now
unfolding is_after from_unix
is_after-from_unix now n h = ground arith
