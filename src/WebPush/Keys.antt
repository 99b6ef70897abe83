-- ===== src/WebPush/Keys.antt =====
-- backend/internal/webpush/store.go: every caller is given the same key pair.
use mathlib.Core.Option
use mailfold.Prelude.{ℕ, String, ◌≡◌, refl, sym, ap, ◌∙◌, true, Option, none, some, List, [], ◌∷◌}
use mailfold.Sql.{Result, ok, err, Conn, Sql, statement, ◌>>◌}
use mailfold.Sql.Table.{first}
use mailfold.Sql.Rows.{merged, first-upsert}
use mailfold.Sql.Triple.{After, Triple, Triple-ok, statement-Triple, bind-Triple, lift-Triple}
use mailfold.WebPush.Store.{
  VapidRow, Tables, Env, Registration, is_own, key_pair, find_keys, insert_keys, reread,
  store_generated, found_or_generated, get_or_create_vapid_keys, remove_subscription,
  update_last_uid, add_subscription,
}

-- The tables hold this pair.
abbrev Holds : String × String → Tables → Type 0
Holds k t = find_keys t ≡ some k

-- What an insertion leaves that does nothing on a conflict.
unfoldable or_new : String × String → Option (String × String) → String × String
or_new new none = new
or_new new (some k) = k

insert-find :
    (public private : String) (t : Tables)
    → find_keys (insert_keys public private t) ≡ some (or_new (public, private) (find_keys t))
unfolding find_keys insert_keys is_own or_new key_pair
insert-find public private t =
    let new : VapidRow = record { id = 1; public_key = public; private_key = private } in
    ap (Option.map key_pair) (first-upsert is_own (λ r. r) new (own new) (λ r h. h) t.keys)
    ∙ kept (first is_own t.keys)
  where
    own : (r : VapidRow) → is_own (record r { id = 1 }) ≡ true
    own r = refl

    kept :
        (o : Option VapidRow)
        → Option.map key_pair (
            some
              (merged (λ r. r) (record { id = 1; public_key = public; private_key = private }) o))
          ≡ some (or_new (public, private) (Option.map key_pair o))
    kept none = refl
    kept (some r) = refl

-- `Q` is what is asked of the answer and the tables, `E` of the tables after an error.
module _ (P : Tables → Type 0) (Q : String × String → Tables → Type 0) (E : Tables → Type 0)
    (read : (k : String × String) (t : Tables) → Holds k t → P t → Q k t)
    (drop : (t : Tables) → P t → E t)
    (insert : (public private : String) (t : Tables) → P t → P (insert_keys public private t)) where
  abbrev Found : Option (String × String) → Tables → Type 0
  Found o t = (o ≡ find_keys t) × P t

  read-Triple : (o : Option (String × String)) → Triple (Found o) (reread o) Q E
  unfolding reread
  read-Triple none =
      lift-Triple (Found none) (err "sql: no rows in result set") Q E (λ t p. drop t p.1)
  read-Triple (some k) = lift-Triple (Found (some k)) (ok k) Q E (λ t p. read k t (sym p.0) p.1)

  find-Triple : Triple P (statement (λ t. (find_keys t, t))) Found E
  find-Triple = statement-Triple P (λ t. (find_keys t, t)) Found E (λ t p. (refl, p)) drop

  generated-Triple :
      (g : Result (String × String)) (o : Option (String × String))
      → Triple (Found o) (found_or_generated g o) Q E
  unfolding found_or_generated store_generated ◌>>◌
  generated-Triple g (some k) =
      lift-Triple (Found (some k)) (ok k) Q E (λ t p. read k t (sym p.0) p.1)
  generated-Triple (err e) none = lift-Triple (Found none) (err e) Q E (λ t p. drop t p.1)
  generated-Triple (ok (private, public)) none =
      bind-Triple (λ a t. P t)
        (statement-Triple (Found none) (λ t. (tt, insert_keys public private t)) (λ a t. P t) E
          (λ t p. insert public private t p.1) (λ t p. drop t p.1))
        (λ a. bind-Triple Found find-Triple read-Triple)

  call-Triple : (g : Result (String × String)) → Triple P (get_or_create_vapid_keys g) Q E
  unfolding get_or_create_vapid_keys
  call-Triple g = bind-Triple Found find-Triple (generated-Triple g)

-- A call that answers leaves the tables holding its answer.
answered-Triple :
    (g : Result (String × String))
    → Triple (λ t. Unit {0}) (get_or_create_vapid_keys g) Holds (λ t. Unit {0})
answered-Triple =
    call-Triple (λ t. Unit {0}) Holds (λ t. Unit {0}) (λ k t h p. h) (λ t p. tt)
      (λ public private t p. tt)

-- While the tables hold a pair, a call answers it or fails, and they hold it still.
held-Triple :
    (k : String × String) (g : Result (String × String))
    → Triple (Holds k) (get_or_create_vapid_keys g) (λ a t. (a ≡ k) × Holds k t) (Holds k)
unfolding or_new
held-Triple k =
    call-Triple (Holds k) (λ a t. (a ≡ k) × Holds k t) (Holds k) (λ a t h p. (same a t h p, p))
      (λ t p. p)
      (λ public private t p.
        insert-find public private t
        ∙ ap (λ o. some (or_new (public, private) o)) p
        ∙ kept public private)
  where
    same : (a : String × String) (t : Tables) → Holds a t → Holds k t → a ≡ k
    same a t h p = let e : some a ≡ some k = sym h ∙ p in cc

    kept : (public private : String) → some (or_new (public, private) (some k)) ≡ some k
    kept public private = refl

-- What a server does with the store.
pub data Call : Type 0 where
  keys : Result (String × String) → Call
  subscribe : Registration → ℕ → Call
  unsubscribe : String → Call
  notified : String → ℕ → Call

module _ (env : Env) where
  unfoldable pub after_call : Call → Conn Tables → Conn Tables
  after_call (keys g) c = (get_or_create_vapid_keys g c).1
  after_call (subscribe g now) c = (add_subscription env g now c).1
  after_call (unsubscribe endpoint) c = (remove_subscription endpoint c).1
  after_call (notified endpoint uid) c = (update_last_uid endpoint uid c).1

  unfoldable pub after_calls : List Call → Conn Tables → Conn Tables
  after_calls [] c = c
  after_calls (x ∷ l) c = after_calls l (after_call x c)

  module _ (k : String × String) where
    forget :
        {A : Type 0} {m : Sql Tables A} {Q : A → Tables → Type 0} (c : Conn Tables)
        → ((a : A) (t : Tables) → Q a t → Holds k t)
        → Triple (Holds k) m Q (Holds k)
        → Holds k c.tables
        → Holds k (m c).1.tables
    forget {A} {m} {Q} c weak h p = go (m c).0 (m c).1 (h.runs c p)
      where
        go : (r : Result A) (d : Conn Tables) → After Q (Holds k) r d.tables → Holds k d.tables
        go (ok a) d q = weak a d.tables q
        go (err e) d q = q

    elsewhere-Triple :
        (f : Tables → Tables)
        → ((t : Tables) → find_keys (f t) ≡ find_keys t)
        → Triple (Holds k) (statement (λ t. (tt, f t))) (λ a t. Holds k t) (Holds k)
    elsewhere-Triple f same =
        statement-Triple (Holds k) (λ t. (tt, f t)) (λ a t. Holds k t) (Holds k) (λ t p. same t ∙ p)
          (λ t p. p)

    after_call-Holds :
        (x : Call) (c : Conn Tables) → Holds k c.tables → Holds k (after_call x c).tables
    unfolding after_call add_subscription remove_subscription update_last_uid find_keys
    after_call-Holds (keys g) c p = forget c (λ a t q. q.1) (held-Triple k g) p
    after_call-Holds (subscribe g now) c p =
        forget c (λ a t q. q) (elsewhere-Triple _ (λ t. refl)) p
    after_call-Holds (unsubscribe endpoint) c p =
        forget c (λ a t q. q) (elsewhere-Triple _ (λ t. refl)) p
    after_call-Holds (notified endpoint uid) c p =
        forget c (λ a t q. q) (elsewhere-Triple _ (λ t. refl)) p

    after_calls-Holds :
        (l : List Call) (c : Conn Tables) → Holds k c.tables → Holds k (after_calls l c).tables
    unfolding after_calls
    after_calls-Holds [] c p = p
    after_calls-Holds (x ∷ l) c p = after_calls-Holds l (after_call x c) (after_call-Holds x c p)

  -- Two calls of `GetOrCreateVAPIDKeys` that both answer, with any calls of the store's methods that
  -- write in between, answer the same pair, whatever their generators hand out and whatever errors the
  -- driver reports.
  pub keys_stable :
      (g g' : Result (String × String)) (l : List Call) (c : Conn Tables) (k k' : String × String)
      → (get_or_create_vapid_keys g c).0 ≡ ok k
      → (get_or_create_vapid_keys g' (after_calls l (get_or_create_vapid_keys g c).1)).0 ≡ ok k'
      → k' ≡ k
  keys_stable g g' l c k k' one two =
      let held = Triple-ok (answered-Triple g) c k tt one in
      let later = after_calls l (get_or_create_vapid_keys g c).1 in
      (Triple-ok (held-Triple k g') later k'
        (after_calls-Holds k l (get_or_create_vapid_keys g c).1 held) two).0
