-- ===== src/WebmailSession/Pending.antt =====
-- backend/internal/webmail/session.go: a minted token, how often a pending one can be tried, and that a
-- taken one is spent.
use mathlib.Core.Option
use mailfold.Prelude.{
  ℕ, ◌+◌, ◌-◌, ◌≤◌, min, String, ◌≡◌, ◌≢◌, refl, ap, ◌∙◌, true, false, Option, none, some, List, [],
  ◌∷◌, All, length, is_some, arith, if◌then◌else◌,
}
use mailfold.Storage.{is_after}
use mailfold.WebmailSession.{Credentials, Sessions, Env}
use mailfold.WebmailSession.Contract.{
  Account, Login, account, opened, unexpired, charged, CanAnswer, Visit, gets, peeks, takes,
  deletes, on_login, login_of, visit,
}
use mailfold.WebmailSession.Visits.{visit-Answers}

module _ (env : Env) (token : String) where
  -- What a history of visits shows, in order.
  pub shown : List Visit → Sessions → List (Option Account)
  shown [] s = []
  shown (v ∷ vs) s = Option.map account (visit env token v s).0 ∷ shown vs (visit env token v s).1

  -- How many of the peeks, one at each instant, get past the token.
  pub peeked : List ℕ → Sessions → ℕ
  peeked [] s = 0
  peeked (t ∷ ts) s =
      (if is_some (visit env token (peeks t) s).0 then 1 else 0)
      + peeked ts (visit env token (peeks t) s).1

on_login-none : (v : Visit) → ((on_login v none).0 ≡ none) × ((on_login v none).1 ≡ none)
unfolding on_login unexpired charged
on_login-none (gets now) = (refl, refl)
on_login-none (peeks now) = (refl, refl)
on_login-none (takes now) = (refl, refl)
on_login-none deletes = (refl, refl)

is_some-account :
    (o : Option Credentials) (p : Option Account) → Option.map account o ≡ p → is_some o ≡ is_some p
is_some-account none none h = refl
is_some-account (some c) (some a) h = refl
is_some-account none (some a) h = cc
is_some-account (some c) none h = cc

module _ (env : Env) (token : String) (named : token ≢ "") where
  shown-none :
      (vs : List Visit) (s : Sessions)
      → CanAnswer s
      → login_of env token s ≡ none
      → All (λ o. o ≡ none) (shown env token vs s)
  unfolding shown
  shown-none [] s r h = tt
  shown-none (v ∷ vs) s r h =
      let a = visit-Answers env token v s named r in
      let gone = on_login-none v in
      (
        a.0 ∙ ap (λ l. opened (on_login v l).0) h ∙ ap opened gone.0,
        shown-none vs (visit env token v s).1 a.2 (a.1 ∙ ap (λ l. (on_login v l).1) h ∙ gone.1),
      )

  -- A non-empty token can be redeemed once: after `Take`, at whatever instant and with whatever
  -- answer, no later visit of it shows an account, so long as an attached table answers.
  pub take_once :
      (now : ℕ) (vs : List Visit) (s : Sessions)
      → CanAnswer s
      → All (λ o. o ≡ none) (shown env token vs (visit env token (takes now) s).1)
  unfolding on_login
  take_once now vs s r =
      let a = visit-Answers env token (takes now) s named r in
      shown-none vs (visit env token (takes now) s).1 a.2 a.1

  peeked-none :
      (ts : List ℕ) (s : Sessions)
      → CanAnswer s
      → login_of env token s ≡ none
      → peeked env token ts s ≡ 0
  unfolding peeked on_login charged
  peeked-none [] s r h = refl
  peeked-none (t ∷ ts) s r h =
      let a = visit-Answers env token (peeks t) s named r in
      let s' = (visit env token (peeks t) s).1 in
      let seen =
        is_some-account (visit env token (peeks t) s).0 _
          (a.0 ∙ ap (λ l. opened (charged t l)) h) in
      ground (arith, seen, peeked-none ts s' a.2 (a.1 ∙ ap (charged t) h))

  -- At most the attempts that are left, at any instants.
  pub peeked-le :
      (ts : List ℕ) (s : Sessions) (l : Login)
      → CanAnswer s
      → login_of env token s ≡ some l
      → l.attempts ≤ 5
      → peeked env token ts s + l.attempts ≤ 5
  unfolding peeked on_login charged
  peeked-le [] s l r h le = omega arith
  peeked-le (t ∷ ts) s l r h le =
      let a = visit-Answers env token (peeks t) s named r in
      let s' = (visit env token (peeks t) s).1 in
      let seen =
        is_some-account (visit env token (peeks t) s).0 _
          (a.0 ∙ ap (λ l. opened (charged t l)) h) in
      let kept = a.1 ∙ ap (charged t) h in
      ground (
        arith,
        seen,
        kept,
        peeked-none ts s' a.2,
        peeked-le ts s' (record l { attempts = l.attempts + 1 }) a.2,
      )

  -- Exactly those, while the login has not expired and can be decrypted.
  pub peeked-eq :
      (ts : List ℕ) (s : Sessions) (l : Login)
      → CanAnswer s
      → login_of env token s ≡ some l
      → l.attempts ≤ 5
      → is_some l.opens_as ≡ true
      → All (λ t. is_after t l.expires_at ≡ false) ts
      → peeked env token ts s ≡ min (length ts) (5 - l.attempts)
  unfolding peeked on_login charged
  peeked-eq [] s l r h le clear live = omega arith
  peeked-eq (t ∷ ts) s l r h le clear live =
      let a = visit-Answers env token (peeks t) s named r in
      let s' = (visit env token (peeks t) s).1 in
      let seen =
        is_some-account (visit env token (peeks t) s).0 _
          (a.0 ∙ ap (λ l. opened (charged t l)) h) in
      let kept = a.1 ∙ ap (charged t) h in
      ground (
        arith,
        seen,
        kept,
        live.0,
        peeked-none ts s' a.2,
        peeked-eq ts s' (record l { attempts = l.attempts + 1 }) a.2,
      )
