-- ===== src/DomainAdmin/Offers.antt =====
-- `UpdateProvider` and `ProvidersForDomain` of backend/internal/domainadmin/store.go: to which domains a
-- provider is offered.
use mathlib.Core.Option
use mailfold.Prelude.{
  ℕ, String, ◌≡◌, refl, sym, ap, subst, ◌∙◌, Bool, true, false, not, ◌&&◌, ◌||◌, Option, none, some,
  List, [], ◌∷◌, ◌++◌, map, str_eq, ◌==◌, arith, if◌then◌else◌, inl, inr, Bool-cases,
}
use mailfold.Sql.{Result, ok, Conn, statement, ◌>>=◌, ◌>>◌}
use mailfold.Sql.Table.{first, update, delete}
use mailfold.Sql.Rows.{first-matches}
use mailfold.Sql.Triple.{After, Triple, Triple-ok, known-Triple, bind-Triple, lift-Triple}
use mailfold.DomainAdmin.Store.{
  Tables, ProviderRow, ScopeRow, Provider, is_provider, is_scope, insert_scope_if, insert_scope,
  insert_scopes, replace_provider_domains, provider_set, update_provider, serves, is_listed,
  bool_int,
}

-- The domain is in the list.
unfoldable pub lists : String → List String → Bool
lists domain [] = false
lists domain (d ∷ ds) = let rest = lists domain ds in if str_eq d domain then true else rest

unfoldable pub scope_rows : ℕ → List String → List ScopeRow
scope_rows id ds = map (λ d. record { provider_id = id; domain_name = d }) ds

append_assoc : (a b : List ScopeRow) (r : ScopeRow) → (a ++ r ∷ []) ++ b ≡ a ++ r ∷ b
append_assoc [] b r = refl
append_assoc (x ∷ a) b r = ap (λ l. x ∷ l) (append_assoc a b r)

append-nil : (a : List ScopeRow) → a ++ [] ≡ a
append-nil [] = refl
append-nil (x ∷ a) = ap (λ l. x ∷ l) (append-nil a)

module _ (id : ℕ) where
  inserted : ScopeRow → Tables → Tables
  inserted r t = record t { scopes = t.scopes ++ r ∷ [] }

  one-Triple :
      (r : ScopeRow) (before : Tables)
      → Triple
          (λ t. t ≡ before)
          (statement (insert_scope r) >>= (λ done c. (done, c)))
          (λ a t. t ≡ inserted r before)
          (λ t. Unit {0})
  unfolding insert_scope insert_scope_if inserted
  one-Triple r before =
      let Q = λ (done : Result (Unit {0})) (t : Tables).
        After (λ a t. t ≡ inserted r before) (λ t. Unit {0}) done t in
      bind-Triple Q
        (known-Triple before (insert_scope r) Q (λ t. Unit {0})
          (into (first (is_scope r.provider_id r.domain_name) before.scopes)) tt)
        (λ done.
          lift-Triple (Q done) done (λ a t. t ≡ inserted r before) (λ t. Unit {0}) (λ t p. p))
    where
      into :
          (o : Option ScopeRow)
          → After
              (λ a t. t ≡ inserted r before)
              (λ t. Unit {0})
              (insert_scope_if o r before).0
              (insert_scope_if o r before).1
      into none = refl
      into (some x) = tt

  insert-Triple :
      (ds : List String) (before : Tables)
      → Triple
          (λ t. t ≡ before)
          (insert_scopes id ds)
          (λ a t. t ≡ record before { scopes = before.scopes ++ scope_rows id ds })
          (λ t. Unit {0})
  unfolding insert_scopes scope_rows ◌>>◌ inserted
  insert-Triple [] before =
      lift-Triple (λ t. t ≡ before) (ok tt)
        (λ a t. t ≡ record before { scopes = before.scopes ++ [] }) (λ t. Unit {0})
        (λ t e. e ∙ ap (λ l. record before { scopes = l }) (sym (append-nil before.scopes)))
  insert-Triple (d ∷ ds) before =
      let r : ScopeRow = record { provider_id = id; domain_name = d } in
      bind-Triple (λ a t. t ≡ inserted r before) (one-Triple r before)
        (λ a. record {
          runs = λ c e.
              subst
                (λ l.
                  After (λ a t. t ≡ record before { scopes = l }) (λ t. Unit {0})
                    (insert_scopes id ds c).0 (insert_scopes id ds c).1.tables)
                (append_assoc before.scopes (scope_rows id ds) r)
                ((insert-Triple ds (inserted r before)).runs c e);
        })

  replace-Triple :
      (ds : List String) (before : Tables)
      → Triple
          (λ t. t ≡ before)
          (replace_provider_domains id ds)
          (λ a t. t ≡ record before {
            scopes = delete (λ r. r.provider_id == id) before.scopes ++ scope_rows id ds;
          })
          (λ t. Unit {0})
  unfolding replace_provider_domains ◌>>◌
  replace-Triple ds before =
      let t1 : Tables = record before {
        scopes = delete (λ r. r.provider_id == id) before.scopes;
      } in
      bind-Triple (λ a t. t ≡ t1)
        (known-Triple before
          (λ t. (tt, record t { scopes = delete (λ r. r.provider_id == id) t.scopes }))
          (λ a t. t ≡ t1) (λ t. Unit {0}) refl tt)
        (λ a. insert-Triple ds t1)

  listed-rows :
      (domain : String) (ds : List String)
      → is_listed (first (is_scope id domain) (scope_rows id ds)) ≡ lists domain ds
  unfolding first is_scope scope_rows lists is_listed
  listed-rows domain [] = refl
  listed-rows domain (d ∷ ds) = ground (arith, listed-rows domain ds)

  -- The old scope counts no longer.
  listed-replaced :
      (domain : String) (rows : List ScopeRow) (new : List ScopeRow)
      → is_listed (first (is_scope id domain) (delete (λ r. r.provider_id == id) rows ++ new))
        ≡ is_listed (first (is_scope id domain) new)
  unfolding first is_scope delete
  listed-replaced domain [] new = refl
  listed-replaced domain (r ∷ rows) new = elim (Bool-cases (r.provider_id == id)) [
    | inl hit ↦ rw hit (listed-replaced domain rows new)
    | inr miss ↦ rw (miss, miss) (listed-replaced domain rows new)
  ]

first-set :
    (p : Provider) (now : ℕ) (rows : List ProviderRow)
    → first (is_provider p.id) (update (is_provider p.id) (provider_set p now) rows)
      ≡ Option.map (provider_set p now) (first (is_provider p.id) rows)
unfolding first update is_provider provider_set
first-set p now [] = refl
first-set p now (r ∷ rows) = elim (Bool-cases (r.id == p.id)) [
  | inl hit ↦ rw (hit, hit) refl
  | inr miss ↦ rw (miss, miss) (first-set p now rows)
]

flag : (b : Bool) → (bool_int b == 1) ≡ b
unfolding bool_int
flag true = refl
flag false = refl

served :
    (p : Provider) (now : ℕ) (r : ProviderRow) (domain : String) (rows : List ScopeRow)
    → r.id ≡ p.id
    → serves domain
        (delete (λ r. r.provider_id == p.id) rows
          ++ scope_rows p.id (if not p.all_domains then p.domains else []))
        (provider_set p now r)
      ≡ p.active && (p.all_domains || lists domain p.domains)
unfolding serves provider_set
served p now r domain rows same =
    rw (same, flag p.active, flag p.all_domains)
      (ap (λ b. p.active && (p.all_domains || b))
          (listed-replaced p.id domain rows
              (scope_rows p.id (if not p.all_domains then p.domains else []))
            ∙ listed-rows p.id domain (if not p.all_domains then p.domains else []))
        ∙ ap (λ b. p.active && b) (scoped p.all_domains))
  where
    scoped :
        (all : Bool)
        → (all || lists domain (if not all then p.domains else []))
          ≡ (all || lists domain p.domains)
    scoped true = refl
    scoped false = refl

-- An update of a provider that reports no error leaves the provider offered to exactly the domains that
-- the update names, or to all of them, if it is active, and to none otherwise, whatever domains it
-- served before.
pub serves-update_provider :
    (p : Provider) (now : ℕ) (c : Conn Tables) (r : ProviderRow) (domain : String)
    → first (is_provider p.id) c.tables.providers ≡ some r
    → (update_provider p now c).0 ≡ ok tt
    → Option.map
        (serves domain (update_provider p now c).1.tables.scopes)
        (first (is_provider p.id) (update_provider p now c).1.tables.providers)
      ≡ some (p.active && (p.all_domains || lists domain p.domains))
unfolding update_provider ◌>>◌
serves-update_provider p now c r domain here done =
    let ds = if not p.all_domains then p.domains else [] in
    let t1 : Tables = record c.tables {
      providers = update (is_provider p.id) (provider_set p now) c.tables.providers;
    } in
    let whole =
      bind-Triple (λ a t. t ≡ t1)
        (known-Triple c.tables
          (λ t. (
            tt,
            record t { providers = update (is_provider p.id) (provider_set p now) t.providers },
          ))
          (λ a t. t ≡ t1) (λ t. Unit {0}) refl tt)
        (λ a. replace-Triple p.id ds t1) in
    let tables = Triple-ok whole c tt refl done in
    let old = delete (λ (r : ScopeRow). r.provider_id == p.id) c.tables.scopes in
    ap (λ (t : Tables). Option.map (serves domain t.scopes) (first (is_provider p.id) t.providers))
      tables
    ∙ ap (Option.map (serves domain (old ++ scope_rows p.id ds)))
        (first-set p now c.tables.providers ∙ ap (Option.map (provider_set p now)) here)
    ∙ ap some (
        served p now r domain c.tables.scopes
          (same_id r (first-matches (is_provider p.id) c.tables.providers r here)))
  where
    same_id : (r : ProviderRow) → is_provider p.id r ≡ true → r.id ≡ p.id
    same_id r h = unfold is_provider in ground (arith, h)
