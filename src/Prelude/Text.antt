-- ===== src/Prelude/Text.antt =====
-- Texts as lists of bytes, where the code cuts them up: equality, prefixes, and the hexadecimal form
-- of encoding/hex.
use Prim.Native.Nat.{ℕ, zero, suc, ◌+◌, ◌*◌, ◌/◌, ◌%◌}
use mathlib.Core.Path.{◌≡◌, refl}
use mathlib.Core.Logic.{◌↔◌}
use mathlib.Core.Bool.{Bool, true, false, ◌&&◌}
use mathlib.Core.List.{List, [], ◌∷◌}
use native.Mathlib.Omega.{arith}
use mailfold.Prelude.Tests.{◌==◌, ltb, if◌then◌else◌}

abbrev pub Text : Type 0
Text = List ℕ

unfoldable pub text_eq : Text → Text → Bool
text_eq [] [] = true
text_eq (a ∷ s) (b ∷ t) = (a == b) && text_eq s t
text_eq _ _ = false

text_eq_sound : (s t : Text) → text_eq s t ≡ true → s ≡ t
unfolding text_eq
text_eq_sound [] [] h = refl
text_eq_sound (a ∷ s) (b ∷ t) h = ground (arith, text_eq_sound s t)
text_eq_sound [] (b ∷ t) h = cc
text_eq_sound (a ∷ s) [] h = cc

pub text_eq_refl : (s : Text) → text_eq s s ≡ true
unfolding text_eq
text_eq_refl [] = refl
text_eq_refl (a ∷ s) = ground (arith, text_eq_refl s)

pub text_eq_iff : (s t : Text) → (text_eq s t ≡ true) ↔ (s ≡ t)
text_eq_iff s t = (text_eq_sound s t, λ e. rw e (text_eq_refl t))

module _ {ℓ} {A : Type ℓ} where
  -- xs[:n]
  unfoldable pub take : ℕ → List A → List A
  take zero xs = []
  take (suc n) [] = []
  take (suc n) (x ∷ xs) = x ∷ take n xs

-- The character of a digit below 16.
unfoldable pub hex_digit : ℕ → ℕ
hex_digit n = if ltb n 10 then n + 48 else n + 87

-- hex.EncodeToString
unfoldable pub hex : List ℕ → Text
unfolding hex_digit
hex [] = []
hex (b ∷ bs) = hex_digit (b / 16) ∷ hex_digit (b % 16) ∷ hex bs

twice_suc : (n : ℕ) → suc n * 2 ≡ suc (suc (n * 2))
twice_suc n = omega arith

pub take-hex : (n : ℕ) (bs : List ℕ) → take (n * 2) (hex bs) ≡ hex (take n bs)
unfolding take hex
take-hex zero bs = refl
take-hex (suc n) [] = rw (twice_suc n)
take-hex (suc n) (b ∷ bs) = rw (twice_suc n) (cc (take-hex n bs))

pub hex_inj : (s t : List ℕ) → hex s ≡ hex t → s ≡ t
unfolding hex
hex_inj [] [] h = refl
hex_inj [] (b ∷ t) h = cc
hex_inj (a ∷ s) [] h = cc
hex_inj (a ∷ s) (b ∷ t) h = ground (arith, hex_inj s t)
