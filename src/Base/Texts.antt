-- ===== src/Base/Texts.antt =====
-- Account ids and names as lists of their bytes, which is what the code compares and measures.
use Prim.Native.Nat.{ℕ, suc, ◌+◌}
use Prim.Native.Char.{code}
use Prim.Native.String.{String}
use mathlib.Core.Path.{◌≡◌, refl}
use mathlib.Core.Logic.{◌↔◌}
use mathlib.Core.Bool.{Bool, true, false, ◌&&◌}
use mathlib.Core.List.{List, [], ◌∷◌, ◌++◌}
use native.Mathlib.Omega.{arith}
use hos_tla.Base.Tests.{nat_eq}

abbrev pub Text : Type 0
Text = List ℕ

-- The bytes of an ASCII literal.
abbrev pub text : String → Text
text String.[] = []
text (String.◌∷◌ c s) = code c ∷ text s

unfoldable pub text_eq : Text → Text → Bool
text_eq [] [] = true
text_eq (a ∷ s) (b ∷ t) = nat_eq a b && text_eq s t
text_eq _ _ = false

infix 50 ◌==◌
abbrev pub ◌==◌ : Text → Text → Bool
s == t = text_eq s t

pub eq_refl : (s : Text) → (s == s) ≡ true
unfolding text_eq
eq_refl [] = refl
eq_refl (a ∷ s) = ground (arith, eq_refl s)

pub eq→≡ : (s t : Text) → (s == t) ≡ true → s ≡ t
unfolding text_eq
eq→≡ [] [] h = refl
eq→≡ [] (b ∷ t) h = cc
eq→≡ (a ∷ s) [] h = cc
eq→≡ (a ∷ s) (b ∷ t) h = ground (arith, eq→≡ s t)

-- The equality test of texts decides equality.
pub eq_iff : (s t : Text) → ((s == t) ≡ true) ↔ (s ≡ t)
eq_iff s t = (eq→≡ s t, λ e. (rw e (eq_refl t)))

module _ {ℓ} {A : Type ℓ} where
  abbrev pub length : List A → ℕ
  length [] = 0
  length (_ ∷ xs) = suc (length xs)

  pub length-append : (xs ys : List A) → length (xs ++ ys) ≡ length xs + length ys
  length-append [] ys = omega arith
  length-append (x ∷ xs) ys = omega (arith, length-append xs ys)
