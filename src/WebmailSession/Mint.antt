-- ===== src/WebmailSession/Mint.antt =====
-- backend/internal/webmail/session.go: what `Create` and `CreateActingAs` leave behind a token.
use mathlib.Core.Option
use mailfold.Prelude.{
  ℕ, ◌+◌, ◌≤◌, ◌<◌, min, String, ◌≡◌, ◌≢◌, refl, sym, ap, ◌∙◌, Bool, true, false, some, List, [],
  ◌∷◌, All, length, is_some, arith, eq_iff, inl, inr, Bool-cases,
}
use mailfold.Prelude.Assoc.{put}
use mailfold.Storage.{at, second, unix, from_unix, is_after}
use mailfold.Sql.{ok}
use mailfold.SessionStore
use mailfold.SessionStore.{scan}
use mailfold.SessionStore.Cell.{put_reliable, put-KeepsOutcome}
use mailfold.WebmailSession.{
  Credentials, Sessions, Env, is_backed, minted_params, mint_backed, mint_session, decrypt_row,
  decrypted, acting_as_of,
}
use mailfold.WebmailSession.Contract.{
  Login, account, opened, of_memory, of_row, unexpired, CanAnswer, gets, on_login, login_of, visit,
  login_on, login_off,
}
use mailfold.WebmailSession.Visits.{visit-Answers, lookup-put_self}
use mailfold.WebmailSession.Pending.{peeked, peeked-le, peeked-eq}

-- The login that is kept, in memory and in the table, which cuts the expiry to whole seconds.
unfoldable pub minted : String → String → String → ℕ → Bool → Login
minted email password acting_as expires_at true = record {
  opens_as = some (record { email = email; password = password; acting_as = acting_as });
  expires_at = from_unix (unix (at expires_at));
  attempts = 0;
}
minted email password acting_as expires_at false = record {
  opens_as = some (record { email = email; password = password; acting_as = acting_as });
  expires_at = at expires_at;
  attempts = 0;
}

module _ (env : Env) (email password acting_as token nonce : String) (now : ℕ) (s : Sessions) where
  open env use {digest, seal, open_sealed, encode_meta, decode_meta}

  abbrev after_mint : Sessions
  after_mint = (mint_session env email password acting_as (ok token) (ok nonce) now s).1

  -- AES-GCM opens what it has sealed, and encoding/json reads back what it has written.
  abbrev pub Codec : Type 0
  Codec =
      (open_sealed (seal password nonce) nonce ≡ some password)
      × (decode_meta (encode_meta acting_as) ≡ some acting_as)
      × (encode_meta acting_as ≢ "")

  mint_on :
      is_backed s ≡ true
      → after_mint ≡ record s {
        conn =
            (SessionStore.put digest
              (minted_params env email password acting_as token nonce now s)
              s.conn).1;
      }
  unfolding mint_session mint_backed
  mint_on on = ground arith

  abbrev kept_credentials : Credentials
  kept_credentials = record {
    email = email;
    password = password;
    expires_at = at (now + s.ttl);
    attempts = 0;
    acting_as = acting_as;
  }

  mint_off : is_backed s ≡ false → after_mint ≡ record s { m = put token kept_credentials s.m }
  unfolding mint_session
  mint_off off = ground arith

  of_minted_row :
      Codec
      → of_row env (
          SessionStore.put_row digest
            (minted_params env email password acting_as token nonce now s))
        ≡ minted email password acting_as (now + s.ttl) true
  unfolding minted scan SessionStore.put_row minted_params decrypt_row decrypted acting_as_of
  of_minted_row k = ground (arith, k.0, k.1, k.2, eq_iff (encode_meta acting_as) "")

  attempts_minted : (b : Bool) → (minted email password acting_as (now + s.ttl) b).attempts ≡ 0
  unfolding minted
  attempts_minted true = refl
  attempts_minted false = refl

  opens_minted :
      (b : Bool) → is_some (minted email password acting_as (now + s.ttl) b).opens_as ≡ true
  unfolding minted
  opens_minted true = refl
  opens_minted false = refl

  live_minted :
      (b : Bool) (ts : List ℕ)
      → 0 < now
      → All (λ t. (now ≤ t) × (t + second ≤ now + s.ttl)) ts
      → All
          (λ t. is_after t (minted email password acting_as (now + s.ttl) b).expires_at ≡ false)
          ts
  unfolding minted unix from_unix is_after
  live_minted b [] pos h = tt
  live_minted true (t ∷ ts) pos h = (ground arith, live_minted true ts pos h.1)
  live_minted false (t ∷ ts) pos h = (ground arith, live_minted false ts pos h.1)

  login_of-mint :
      Codec
      → CanAnswer s
      → (login_of env token after_mint
          ≡ some (minted email password acting_as (now + s.ttl) (is_backed s)))
        × CanAnswer after_mint
  unfolding minted minted_params is_backed
  login_of-mint k r = elim (Bool-cases (is_backed s)) [
    | inl on ↦
        let p = minted_params env email password acting_as token nonce now s in
        let s' : Sessions = record s { conn = (SessionStore.put digest p s.conn).1 } in
        rw (mint_on on) (
          login_on env token s' on
              ∙ ap (Option.map (of_row env)) (put_reliable digest p s.conn (r on)).1
              ∙ ap some (of_minted_row k)
              ∙ ap (λ b. some (minted email password acting_as (now + s.ttl) b)) (sym on),
          λ _ n. ap (λ o. o n) (put-KeepsOutcome digest p s.conn) ∙ r on n,
        )
    | inr off ↦
        let s' : Sessions = record s { m = put token kept_credentials s.m } in
        rw (mint_off off) (
          login_off env token s' off
              ∙ ap (Option.map of_memory) (lookup-put_self token s kept_credentials)
              ∙ ap (λ b. some (minted email password acting_as (now + s.ttl) b)) (sym off),
          λ on. r on,
        )
  ]

  -- While AES-GCM and encoding/json read back what they have written and an attached table answers,
  -- `Get` of a freshly minted non-empty token shows the login's address, password and operator until
  -- the expiry, which the table cuts to whole seconds.
  pub get-mint :
      (t : ℕ)
      → token ≢ ""
      → Codec
      → CanAnswer s
      → Option.map account (visit env token (gets t) after_mint).0
        ≡ opened (unexpired t (some (minted email password acting_as (now + s.ttl) (is_backed s))))
  unfolding on_login
  get-mint t named k r =
      let l = login_of-mint k r in
      (visit-Answers env token (gets t) after_mint named l.1).0
      ∙ ap (λ l. opened (unexpired t l)) l.0

  -- While AES-GCM and encoding/json read back what they have written and an attached table answers, a
  -- freshly minted non-empty token gets past `Peek` at most five times, at any instants.
  pub peek_bounded :
      (ts : List ℕ) → token ≢ "" → Codec → CanAnswer s → peeked env token ts after_mint ≤ 5
  peek_bounded ts named k r =
      let l = login_of-mint k r in
      let p = minted email password acting_as (now + s.ttl) (is_backed s) in
      omega (
        arith,
        peeked-le env token named ts after_mint p l.1 l.0
            (omega (arith, attempts_minted (is_backed s))),
      )

  -- While AES-GCM and encoding/json read back what they have written and an attached table answers,
  -- the first five peeks at a freshly minted non-empty token get past it, and no other, if all are
  -- made up to a second before the expiry and the token was not minted at the instant zero.
  pub peek_budget :
      (ts : List ℕ)
      → token ≢ ""
      → Codec
      → CanAnswer s
      → 0 < now
      → All (λ t. (now ≤ t) × (t + second ≤ now + s.ttl)) ts
      → peeked env token ts after_mint ≡ min (length ts) 5
  peek_budget ts named k r pos h =
      let l = login_of-mint k r in
      let p = minted email password acting_as (now + s.ttl) (is_backed s) in
      let none_yet = attempts_minted (is_backed s) in
      peeked-eq env token named ts after_mint p l.1 l.0 (omega (arith, none_yet))
        (opens_minted (is_backed s)) (live_minted (is_backed s) ts pos h)
      ∙ omega (arith, none_yet)
