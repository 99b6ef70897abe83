-- ===== src/SessionStore/Isolation.antt =====
-- The operations of backend/internal/sessionstore/store.go on one token, and beside one another.
use mailfold.Prelude.{
  ℕ, String, ◌≡◌, ◌≢◌, refl, sym, ◌∙◌, Bool, true, false, Option, none, some, List, [], ◌∷◌, arith,
  eq_iff, inl, inr, ◌⊎◌, Bool-cases,
}
use mailfold.Prelude.Text.{Text, text_eq_iff, text_eq_refl, hex_inj}
use mailfold.Storage.{from_unix, is_after}
use mailfold.Sql.{Conn, ◌>>=◌, ◌>>◌}
use mailfold.Sql.Table.{first}
use mailfold.Sql.Laws.{Keeps, Keeps-statement, Keeps-bind, first-delete_ne, first-update_ne}
use mailfold.SessionStore.{
  TokenRow, PutParams, Table, has_key, hash_token, put_row, upsert, put, get, unexpired,
  delete_token, bump, still_open, increment_attempts,
}

-- Two keys that differ are on different rows.
has_key_ne :
    (h h' : Text) (k k' : String)
    → (h ≢ h') ⊎ (k ≢ k')
    → (r : TokenRow) → has_key h k r ≡ true
    → has_key h' k' r ≡ false
unfolding has_key
has_key_ne h h' k k' d r m = ground (
  arith,
  text_eq_iff r.token_hash h,
  text_eq_iff r.token_hash h',
  eq_iff r.kind k,
  eq_iff r.kind k',
)

pub has_key_self : (r : TokenRow) → has_key r.token_hash r.kind r ≡ true
unfolding has_key
has_key_self r = ground (arith, text_eq_refl r.token_hash, eq_iff r.kind r.kind)

flip {ℓ κ} :
    {A : Type ℓ} {B : Type κ} {a a' : A} {b b' : B} → (a ≢ a') ⊎ (b ≢ b') → (a' ≢ a) ⊎ (b' ≢ b)
flip (inl d) = inl (λ e. d (sym e))
flip (inr d) = inr (λ e. d (sym e))

pub has_key-bump : (h : Text) (k : String) (r : TokenRow) → has_key h k (bump r) ≡ has_key h k r
unfolding has_key bump
has_key-bump h k r = refl

pub first-upsert_self :
    (r : TokenRow) (t : Table) → first (has_key r.token_hash r.kind) (upsert r t) ≡ some r
unfolding first upsert has_key
first-upsert_self r [] = ground (arith, text_eq_refl r.token_hash, eq_iff r.kind r.kind)
first-upsert_self r (x ∷ t) =
    ground (arith, text_eq_refl r.token_hash, eq_iff r.kind r.kind, first-upsert_self r t)

pub first-upsert_ne :
    (p : TokenRow → Bool) (r : TokenRow) (t : Table)
    → p r ≡ false
    → ((x : TokenRow) → has_key r.token_hash r.kind x ≡ true → p x ≡ false)
    → first p (upsert r t) ≡ first p t
unfolding first upsert
first-upsert_ne p r [] m d = ground arith
first-upsert_ne p r (x ∷ t) m d = ground (arith, d x, first-upsert_ne p r t m d)

-- One call for one token, as a session manager makes it.
pub data Call : Type 0 where
  puts : PutParams → Call
  gets deletes increments : String → String → ℕ → Call

abbrev pub call_token : Call → String
call_token (puts p) = p.token
call_token (gets token k now) = token
call_token (deletes token k now) = token
call_token (increments token k now) = token

abbrev pub call_kind : Call → String
call_kind (puts p) = p.kind
call_kind (gets token k now) = k
call_kind (deletes token k now) = k
call_kind (increments token k now) = k

module _ (digest : String → List ℕ) where
  -- The table after the call.
  unfoldable pub after_call : Call → Conn Table → Conn Table
  after_call (puts p) c = (put digest p c).1
  after_call (gets token k now) c = (get digest token k now c).1
  after_call (deletes token k now) c = (delete_token digest token k c).1
  after_call (increments token k now) c = (increment_attempts digest token k now c).1

  -- What the table holds for a token.
  unfoldable pub held : String → String → Table → Option TokenRow
  held token k t = first (has_key (hash_token digest token) k) t

module _ (digest : String → List ℕ) where
  keys_differ :
      (token token' k k' : String)
      → (digest token ≢ digest token') ⊎ (k ≢ k')
      → (hash_token digest token ≢ hash_token digest token') ⊎ (k ≢ k')
  unfolding hash_token
  keys_differ token token' k k' (inl d) = inl (λ e. d (hex_inj _ _ e))
  keys_differ token token' k k' (inr d) = inr d

  module _ (token token' k k' : String) (d : (digest token' ≢ digest token) ⊎ (k' ≢ k))
      (o : Option TokenRow) where
    delete-Keeps : Keeps (λ t. held digest token' k' t ≡ o) (delete_token digest token k)
    unfolding held delete_token
    delete-Keeps =
        Keeps-statement (λ t. held digest token' k' t ≡ o) _
          λ t h. first-delete_ne _ _ t (has_key_ne _ _ k' k (keys_differ token' token k' k d)) ∙ h

    unexpired-Keeps :
        (now : ℕ) (r : Option TokenRow)
        → Keeps (λ t. held digest token' k' t ≡ o) (unexpired digest token k now r)
    unfolding unexpired ◌>>◌ ◌>>=◌
    unexpired-Keeps now none c h = h
    unexpired-Keeps now (some r) c h = elim (Bool-cases (is_after now (from_unix r.expires_at))) [
      | inl past ↦ rw past (delete-Keeps c h)
      | inr live ↦ rw live h
    ]

    still_open-Keeps :
        (now : ℕ) (r : Option TokenRow)
        → Keeps (λ t. held digest token' k' t ≡ o) (still_open digest token k now r)
    unfolding still_open ◌>>◌ ◌>>=◌
    still_open-Keeps now none c h = h
    still_open-Keeps now (some r) c h = elim (Bool-cases (is_after now (from_unix r.expires_at))) [
      | inl past ↦ rw past (delete-Keeps c h)
      | inr live ↦ rw live h
    ]

    get-Keeps : (now : ℕ) → Keeps (λ t. held digest token' k' t ≡ o) (get digest token k now)
    unfolding get
    get-Keeps now =
        Keeps-bind (λ t. held digest token' k' t ≡ o) _ _
          (Keeps-statement (λ t. held digest token' k' t ≡ o) _ (λ t h. h)) (unexpired-Keeps now)

    increment-Keeps :
        (now : ℕ) → Keeps (λ t. held digest token' k' t ≡ o) (increment_attempts digest token k now)
    unfolding increment_attempts held
    increment-Keeps now =
        Keeps-bind (λ t. held digest token' k' t ≡ o) _ _
          (Keeps-statement (λ t. held digest token' k' t ≡ o) _
            (λ t h.
              first-update_ne _ _ bump t (has_key-bump _ k')
                (has_key_ne _ _ k' k (keys_differ token' token k' k d))
              ∙ h))
          (still_open-Keeps now)

  put-Keeps :
      (p : PutParams) (token' k' : String)
      → (digest token' ≢ digest p.token) ⊎ (k' ≢ p.kind)
      → (o : Option TokenRow) → Keeps (λ t. held digest token' k' t ≡ o) (put digest p)
  unfolding put held put_row
  put-Keeps p token' k' d o =
      let other = has_key_ne _ _ p.kind k' (keys_differ p.token token' p.kind k' (flip d)) in
      Keeps-statement (λ t. held digest token' k' t ≡ o) _
        λ t h.
          first-upsert_ne _ (put_row digest p) t
            (other (put_row digest p) (has_key_self (put_row digest p))) other
          ∙ h

  -- A call for one token leaves what the table holds for every token of another digest, and for the
  -- same token under another kind, whatever errors the driver reports.
  pub held-after_call :
      (call : Call) (token k : String) (c : Conn Table)
      → (digest token ≢ digest (call_token call)) ⊎ (k ≢ call_kind call)
      → held digest token k (after_call digest call c).tables ≡ held digest token k c.tables
  unfolding after_call
  held-after_call (puts p) token k c d = put-Keeps p token k d _ c refl
  held-after_call (gets t k' now) token k c d = get-Keeps t token k' k d _ now c refl
  held-after_call (deletes t k' now) token k c d = delete-Keeps t token k' k d _ c refl
  held-after_call (increments t k' now) token k c d = increment-Keeps t token k' k d _ now c refl
