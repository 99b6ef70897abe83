-- ===== src/AdminStore/SingleUse.antt =====
-- backend/internal/admin/store.go: recovery codes work once. The calls come one after the other.
use mailfold.Prelude.{
  ℕ, ◌/◌, ◌≤◌, String, ◌≡◌, refl, sym, ap, subst, ◌∙◌, Bool, true, false, List, All, arith, ltb,
  ◌==◌, inl, inr, ◌⊎◌,
}
use mailfold.Storage.{second, unix, at}
use mailfold.Sql.{Result, ok, err, Conn, statement}
use mailfold.Sql.Table.{update, count}
use mailfold.Sql.Triple.{After, Triple, statement-Triple, known-Triple, bind-Triple, lift-Triple}
use mailfold.AdminStore.Defs.{Tables, CodeRow}
use mailfold.AdminStore.Codes.{
  is_code, zero_if_err, is_unused_code, rows_or_zero, consume_recovery_code,
}
use mailfold.AdminStore.Attempts.{successes, once, update-count}

-- A true answer is a success, and no error is one.
unfoldable pub is_success : Result Bool → ℕ
is_success (ok true) = 1
is_success (ok false) = 0
is_success (err e) = 0

module _ (username hash : String) where
  -- No unused code of the hash is left.
  abbrev UsedUp : Tables → Type 0
  UsedUp t = count (is_unused_code username hash) t.codes ≡ 0

  rows-Triple :
      (n : ℕ) (P : Tables → Type 0)
      → Triple P (rows_or_zero n) (λ k t. (ltb 0 n ≡ false → ltb 0 k ≡ false) × P t) P
  unfolding rows_or_zero zero_if_err
  rows-Triple n P = record {
    runs = λ c p. go (statement (λ t. (n, t)) c).0 (statement (λ t. (n, t)) c).1 (
        (statement-Triple P (λ t. (n, t)) (λ k t. (k ≡ n) × P t) P (λ t p. (refl, p))
            (λ t p. p)).runs
          c p);
  }
    where
      go :
          (r : Result ℕ) (c : Conn Tables)
          → After (λ k t. (k ≡ n) × P t) P r c.tables
          → (ltb 0 n ≡ false → ltb 0 (zero_if_err r) ≡ false) × P c.tables
      go (ok k) c q = (λ h. ap (ltb 0) q.0 ∙ h, q.1)
      go (err e) c q = (λ h. refl, q)

  used_row :
      (now : ℕ)
      → second ≤ now
      → (r : CodeRow) → is_unused_code username hash (record r { used_at = unix (at now) }) ≡ false
  unfolding is_unused_code unix is_code
  used_row now le r =
      let later : (now / second == 0) ≡ false = ground arith in rw later (ground arith)

  consume-Triple :
      (now : ℕ) (before : Tables)
      → second ≤ now
      → Triple
          (λ t. t ≡ before)
          (consume_recovery_code username hash now)
          (λ b t.
            (ltb 0 (count (is_unused_code username hash) before.codes) ≡ false → b ≡ false)
            × UsedUp t)
          (λ t. (t ≡ before) ⊎ UsedUp t)
  unfolding consume_recovery_code
  consume-Triple now before le =
      let n = count (is_unused_code username hash) before.codes in
      let mark = λ (r : CodeRow). record r { used_at = unix (at now) } in
      bind-Triple (λ k t. (k ≡ n) × UsedUp t)
        (known-Triple before
          (λ t. (
            count (is_unused_code username hash) t.codes,
            record t { codes = update (is_unused_code username hash) mark t.codes },
          ))
          (λ k t. (k ≡ n) × UsedUp t) (λ t. (t ≡ before) ⊎ UsedUp t)
          (refl, update-count (is_unused_code username hash) mark (used_row now le) before.codes)
          (inl refl))
        (λ k.
          bind-Triple (λ j t. (ltb 0 n ≡ false → ltb 0 j ≡ false) × UsedUp t)
            (record {
              runs = λ c p.
                  weaken (rows_or_zero k c).0 (rows_or_zero k c).1 p.0
                    ((rows-Triple k UsedUp).runs c p.1);
            })
            (λ j.
              lift-Triple _ (ok (ltb 0 j)) (λ b t. (ltb 0 n ≡ false → b ≡ false) × UsedUp t)
                (λ t. (t ≡ before) ⊎ UsedUp t) (λ t q. q)))
    where
      weaken :
          {k : ℕ} (r : Result ℕ) (c : Conn Tables)
          → k ≡ count (is_unused_code username hash) before.codes
          → After (λ j t. (ltb 0 k ≡ false → ltb 0 j ≡ false) × UsedUp t) UsedUp r c.tables
          → After
              (λ j t.
                (ltb 0 (count (is_unused_code username hash) before.codes) ≡ false
                  → ltb 0 j ≡ false)
                × UsedUp t)
              (λ t. (t ≡ before) ⊎ UsedUp t)
              r
              c.tables
      weaken (ok j) c e q = (λ h. q.0 (ap (ltb 0) e ∙ h), q.1)
      weaken (err x) c e q = inr q

  refused_code :
      (now : ℕ)
      → second ≤ now
      → (c : Conn Tables) → UsedUp c.tables
      → (is_success (consume_recovery_code username hash now c).0 ≡ 0)
        × UsedUp (consume_recovery_code username hash now c).1.tables
  unfolding is_success
  refused_code now le c s =
      go (consume_recovery_code username hash now c).0 (consume_recovery_code username hash now c).1
        ((consume-Triple now c.tables le).runs c refl)
    where
      go :
          (r : Result Bool) (c' : Conn Tables)
          → After
              (λ b t.
                (ltb 0 (count (is_unused_code username hash) c.tables.codes) ≡ false → b ≡ false)
                × UsedUp t)
              (λ t. (t ≡ c.tables) ⊎ UsedUp t)
              r
              c'.tables
          → (is_success r ≡ 0) × UsedUp c'.tables
      go (ok true) c' q = let e : true ≡ false = q.0 (ap (ltb 0) s) in cc
      go (ok false) c' q = (refl, q.1)
      go (err e) c' (inl same) = (refl, subst UsedUp (sym same) s)
      go (err e) c' (inr used) = (refl, used)

  spent_code :
      (now : ℕ)
      → second ≤ now
      → (c : Conn Tables)
      → (is_success (consume_recovery_code username hash now c).0 ≡ 0)
        ⊎ ((is_success (consume_recovery_code username hash now c).0 ≡ 1)
            × UsedUp (consume_recovery_code username hash now c).1.tables)
  unfolding is_success
  spent_code now le c =
      go (consume_recovery_code username hash now c).0 (consume_recovery_code username hash now c).1
        ((consume-Triple now c.tables le).runs c refl)
    where
      go :
          (r : Result Bool) (c' : Conn Tables)
          → After
              (λ b t.
                (ltb 0 (count (is_unused_code username hash) c.tables.codes) ≡ false → b ≡ false)
                × UsedUp t)
              (λ t. (t ≡ c.tables) ⊎ UsedUp t)
              r
              c'.tables
          → (is_success r ≡ 0) ⊎ ((is_success r ≡ 1) × UsedUp c'.tables)
      go (ok true) c' q = inr (refl, q.1)
      go (ok false) c' q = inl refl
      go (err e) c' q = inl refl

  -- Of any number of attempts with a recovery code, one after the other and each dated a second or more
  -- after 1970, one succeeds at most, whatever errors the driver reports.
  pub code_once :
      (nows : List ℕ) (c : Conn Tables)
      → All (λ now. second ≤ now) nows
      → successes is_success (consume_recovery_code username hash) nows c ≤ 1
  code_once =
      once is_success (consume_recovery_code username hash) UsedUp (λ now. second ≤ now)
        refused_code spent_code
