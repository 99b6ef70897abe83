-- ===== src/AdminStore/Tokens.antt =====
-- backend/internal/admin/store.go: reset tokens work once. The calls come one after the other; the update
-- that redeems a token is a statement of its own behind the query that finds it.
use mailfold.Prelude.{
  ℕ, ◌/◌, ◌≤◌, String, ◌≡◌, refl, sym, subst, Bool, true, false, not, ◌&&◌, ◌||◌, Option, none,
  some, List, [], ◌∷◌, All, arith, ◌==◌, inl, inr, Bool-cases, ◌⊎◌,
}
use mailfold.Storage.{second, unix, from_unix, at, is_after}
use mailfold.Sql.{Result, ok, err, Conn, ◌>>◌}
use mailfold.Sql.Table.{first, update, count}
use mailfold.Sql.Triple.{After, Triple, statement-Triple, query-Triple, bind-Triple, lift-Triple}
use mailfold.AdminStore.Defs.{Tables, TokenRow}
use mailfold.AdminStore.Codes.{is_token, redeem, consume_reset_token}
use mailfold.AdminStore.Attempts.{successes, once}

unfoldable pub is_redeemed : Result (Option String) → ℕ
is_redeemed (ok none) = 0
is_redeemed (ok (some username)) = 1
is_redeemed (err e) = 0

module _ (hash : String) where
  unfoldable pub is_unused_token : TokenRow → Bool
  is_unused_token r = is_token hash r && (r.used_at == 0)

  -- No row of the hash is unused.
  abbrev TokenUsed : Tables → Type 0
  TokenUsed t = count is_unused_token t.tokens ≡ 0

  marked_tokens :
      (now : ℕ)
      → second ≤ now
      → (rows : List TokenRow)
      → count is_unused_token
          (update (is_token hash) (λ r. record r { used_at = unix (at now) }) rows)
        ≡ 0
  unfolding update count is_unused_token is_token unix
  marked_tokens now le [] = refl
  marked_tokens now le (r ∷ rows) =
      let later : (now / second == 0) ≡ false = ground arith in
      ground (arith, later, marked_tokens now le rows)

  found_used :
      (rows : List TokenRow) (r : TokenRow)
      → count is_unused_token rows ≡ 0
      → first (is_token hash) rows ≡ some r
      → (r.used_at == 0) ≡ false
  unfolding count first is_unused_token
  found_used [] r h f = cc
  found_used (x ∷ rows) r h f = ground (arith, found_used rows r)

  -- Nothing is redeemed and nothing changes, or an unused token is and none is left.
  abbrev Redeems : Tables → Option String → Tables → Type 0
  Redeems before o t =
      ((o ≡ none) × (t ≡ before))
      ⊎ ((r : TokenRow) × (first (is_token hash) before.tokens ≡ some r)
          × ((r.used_at == 0) ≡ true)
          × TokenUsed t)

  module _ (now : ℕ) (before : Tables) (le : second ≤ now) where
    found-Triple :
        (o : Option TokenRow)
        → Triple
            (λ t. (o ≡ first (is_token hash) before.tokens) × (t ≡ before))
            (redeem hash now o)
            (Redeems before)
            (λ t. t ≡ before)
    unfolding redeem ◌>>◌
    found-Triple none =
        lift-Triple _ (ok none) (Redeems before) (λ t. t ≡ before) (λ t p. inl (refl, p.1))
    found-Triple (some r) =
        elim (Bool-cases (not (r.used_at == 0) || is_after now (from_unix r.expires_at))) [
          | inl bad ↦
              rw bad (
                lift-Triple _ (ok none) (Redeems before) (λ t. t ≡ before) (λ t p. inl (refl, p.1)))
          | inr good ↦ rw good (
              bind-Triple (λ a t. Redeems before (some r.username) t)
                (statement-Triple
                  (λ t. (some r ≡ first (is_token hash) before.tokens) × (t ≡ before))
                  (λ t. (
                    tt,
                    record t {
                      tokens =
                          update (is_token hash) (λ r. record r { used_at = unix (at now) })
                            t.tokens;
                    },
                  ))
                  (λ a t. Redeems before (some r.username) t) (λ t. t ≡ before)
                  (λ t p. inr (r, sym (p.0), ground (arith, good), marked_tokens now le t.tokens))
                  (λ t p. p.1))
                (λ a.
                  lift-Triple (Redeems before (some r.username)) (ok (some r.username))
                    (Redeems before) (λ t. t ≡ before) (λ t p. p)))
        ]

    redeem-Triple :
        Triple (λ t. t ≡ before) (consume_reset_token hash now) (Redeems before) (λ t. t ≡ before)
    unfolding consume_reset_token
    redeem-Triple =
        bind-Triple (λ o t. (o ≡ first (is_token hash) before.tokens) × (t ≡ before))
          (query-Triple before (λ t. first (is_token hash) t.tokens) (λ t. t ≡ before) refl)
          found-Triple

  refused_token :
      (now : ℕ)
      → second ≤ now
      → (c : Conn Tables) → TokenUsed c.tables
      → (is_redeemed (consume_reset_token hash now c).0 ≡ 0)
        × TokenUsed (consume_reset_token hash now c).1.tables
  unfolding is_redeemed
  refused_token now le c s =
      go (consume_reset_token hash now c).0 (consume_reset_token hash now c).1
        ((redeem-Triple now c.tables le).runs c refl)
    where
      go :
          (r : Result (Option String)) (c' : Conn Tables)
          → After (Redeems c.tables) (λ t. t ≡ c.tables) r c'.tables
          → (is_redeemed r ≡ 0) × TokenUsed c'.tables
      go (ok none) c' (inl same) = (refl, subst TokenUsed (sym same.1) s)
      go (ok (some u)) c' (inl same) = cc (same.0)
      go (ok o) c' (inr (r, here, unused, used)) =
          (let off = found_used c.tables.tokens r s here in cc (off, unused))
      go (err e) c' same = (refl, subst TokenUsed (sym same) s)

  spent_token :
      (now : ℕ)
      → second ≤ now
      → (c : Conn Tables)
      → (is_redeemed (consume_reset_token hash now c).0 ≡ 0)
        ⊎ ((is_redeemed (consume_reset_token hash now c).0 ≡ 1)
            × TokenUsed (consume_reset_token hash now c).1.tables)
  unfolding is_redeemed
  spent_token now le c =
      go (consume_reset_token hash now c).0 (consume_reset_token hash now c).1
        ((redeem-Triple now c.tables le).runs c refl)
    where
      go :
          (r : Result (Option String)) (c' : Conn Tables)
          → After (Redeems c.tables) (λ t. t ≡ c.tables) r c'.tables
          → (is_redeemed r ≡ 0) ⊎ ((is_redeemed r ≡ 1) × TokenUsed c'.tables)
      go (ok none) c' q = inl refl
      go (ok (some u)) c' (inl same) = cc (same.0)
      go (ok (some u)) c' (inr (r, here, unused, used)) = inr (refl, used)
      go (err e) c' q = inl refl

  -- Of any number of attempts with a reset token, one after the other and each dated a second or more
  -- after 1970, one succeeds at most, whatever errors the driver reports.
  pub token_once :
      (nows : List ℕ) (c : Conn Tables)
      → All (λ now. second ≤ now) nows
      → successes is_redeemed (consume_reset_token hash) nows c ≤ 1
  token_once =
      once is_redeemed (consume_reset_token hash) TokenUsed (λ now. second ≤ now) refused_token
        spent_token
