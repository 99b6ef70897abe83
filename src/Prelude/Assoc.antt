-- ===== src/Prelude/Assoc.antt =====
-- A Go map with string keys: an association list with at most one entry for a key.
use Prim.Native.String.{String}
use mathlib.Core.Path.{◌≡◌, refl}
use mathlib.Core.Bool.{Bool}
use mathlib.Core.Option.{Option, none, some}
use mathlib.Core.List.{List, [], ◌∷◌}
use native.Mathlib.Omega.{arith}
use text.Mathlib.Text.{◌==◌ as str_eq}
use text.Mathlib.TextEquality.{eq_iff}
use mathlib.Core.Logic.{inl, inr}
use mailfold.Prelude.Tests.{if◌then◌else◌, Bool-cases}

abbrev pub Assoc {ℓ} : Type ℓ → Type ℓ
Assoc V = List (String × V)

module _ {ℓ} {V : Type ℓ} where
  -- m[k], with its `ok`
  unfoldable pub lookup : String → Assoc V → Option V
  lookup k [] = none
  lookup k ((j, v) ∷ m) = if str_eq j k then some v else lookup k m

  -- delete(m, k)
  unfoldable pub erase : String → Assoc V → Assoc V
  erase k [] = []
  erase k ((j, v) ∷ m) = let rest = erase k m in if str_eq j k then rest else (j, v) ∷ rest

  -- m[k] = v
  unfoldable pub put : String → V → Assoc V → Assoc V
  put k v m = (k, v) ∷ erase k m

  -- for k, v := range m { if !keep(k, v) { delete(m, k) } }
  unfoldable pub retain : (String → V → Bool) → Assoc V → Assoc V
  retain keep [] = []
  retain keep ((j, v) ∷ m) = let rest = retain keep m in if keep j v then (j, v) ∷ rest else rest

  -- No key stands twice.
  abbrev pub IsMap : Assoc V → Type ℓ
  IsMap [] = Unit
  IsMap ((k, v) ∷ m) = (lookup k m ≡ none) × IsMap m

  -- What a sweep by `keep` leaves at a key.
  abbrev pub kept : (String → V → Bool) → String → Option V → Option V
  kept keep k none = none
  kept keep k (some v) = if keep k v then some v else none

  pub lookup-erase :
      (k j : String) (m : Assoc V)
      → lookup j (erase k m) ≡ (if str_eq k j then none else lookup j m)
  unfolding lookup erase
  lookup-erase k j [] = ground arith
  lookup-erase k j ((i, v) ∷ m) =
      ground (arith, lookup-erase k j m, eq_iff i k, eq_iff i j, eq_iff k j)

  pub lookup-put :
      (k j : String) (v : V) (m : Assoc V)
      → lookup j (put k v m) ≡ (if str_eq k j then some v else lookup j m)
  unfolding lookup put
  lookup-put k j v m = ground (arith, lookup-erase k j m)

  lookup-erase-none : (k j : String) (m : Assoc V) → lookup j m ≡ none → lookup j (erase k m) ≡ none
  lookup-erase-none k j m h = ground (arith, lookup-erase k j m)

  pub erase-IsMap : (k : String) (m : Assoc V) → IsMap m → IsMap (erase k m)
  unfolding erase
  erase-IsMap k [] u = tt
  erase-IsMap k ((j, v) ∷ m) u = elim (Bool-cases (str_eq j k)) [
    | inl hit ↦ rw hit (erase-IsMap k m u.1)
    | inr miss ↦ rw miss (lookup-erase-none k j m u.0, erase-IsMap k m u.1)
  ]

  pub put-IsMap : (k : String) (v : V) (m : Assoc V) → IsMap m → IsMap (put k v m)
  unfolding put
  put-IsMap k v m u = (ground (arith, lookup-erase k k m, eq_iff k k), erase-IsMap k m u)

  lookup-retain-none :
      (keep : String → V → Bool) (j : String) (m : Assoc V)
      → lookup j m ≡ none
      → lookup j (retain keep m) ≡ none
  unfolding lookup retain
  lookup-retain-none keep j [] h = refl
  lookup-retain-none keep j ((i, v) ∷ m) h = ground (arith, lookup-retain-none keep j m)

  pub retain-IsMap : (keep : String → V → Bool) (m : Assoc V) → IsMap m → IsMap (retain keep m)
  unfolding retain
  retain-IsMap keep [] u = tt
  retain-IsMap keep ((j, v) ∷ m) u = elim (Bool-cases (keep j v)) [
    | inl stays ↦ rw stays (lookup-retain-none keep j m u.0, retain-IsMap keep m u.1)
    | inr goes ↦ rw goes (retain-IsMap keep m u.1)
  ]

  pub lookup-retain :
      (keep : String → V → Bool) (j : String) (m : Assoc V)
      → IsMap m
      → lookup j (retain keep m) ≡ kept keep j (lookup j m)
  unfolding lookup retain
  lookup-retain keep j [] u = refl
  lookup-retain keep j ((i, v) ∷ m) u =
      ground (arith, lookup-retain keep j m u.1, eq_iff i j, lookup-retain-none keep j m, u.0)
