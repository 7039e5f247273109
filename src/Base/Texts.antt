-- ===== src/Base/Texts.antt =====
-- Texts as lists of code points, with the tests and the methods of `str` that the program uses.
use Prim.Native.Nat.{ℕ}
use Prim.Native.Char.{code}
use Prim.Native.String.{String}
use mathlib.Core.Path.{◌≡◌, refl, subst}
use mathlib.Core.Logic.{◌↔◌, inl, inr, ◌≢◌}
use mathlib.Core.Bool.{Bool, true, false, ◌&&◌, ◌||◌}
use mathlib.Core.List.{List, [], ◌∷◌}
use native.Mathlib.Omega.{arith}
use alderpoint_dns.Base.Tests.{◌==◌, ltb, Bool-cases}

abbrev pub Text : Type 0
Text = List ℕ

abbrev pub codes : String → Text
codes String.[] = []
codes (String.◌∷◌ c s) = code c ∷ codes s

-- `==` of two texts.
unfoldable pub teq : Text → Text → Bool
teq [] [] = true
teq [] (_ ∷ _) = false
teq (_ ∷ _) [] = false
teq (a ∷ s) (b ∷ t) = a == b && teq s t

pub teq→eq : (s t : Text) → teq s t ≡ true → s ≡ t
unfolding teq
teq→eq [] [] h = refl
teq→eq [] (b ∷ t) h = ground arith
teq→eq (a ∷ s) [] h = ground arith
teq→eq (a ∷ s) (b ∷ t) h = ground (arith, teq→eq s t)

pub teq_refl : (s : Text) → teq s s ≡ true
unfolding teq
teq_refl [] = refl
teq_refl (a ∷ s) = ground (arith, teq_refl s)

pub teq_iff : (s t : Text) → (teq s t ≡ true) ↔ (s ≡ t)
teq_iff s t = (teq→eq s t, λ e. subst (λ u. teq s u ≡ true) e (teq_refl s))

pub teq_ne : (s t : Text) → s ≢ t → teq s t ≡ false
teq_ne s t h = elim (Bool-cases (teq s t)) [ inl e ↦ absurd (h (teq→eq s t e)) | inr e ↦ e ]

-- The order of `sorted` on texts: lexicographic by code point.
unfoldable pub tle : Text → Text → Bool
tle [] t = true
tle (a ∷ s) [] = false
tle (a ∷ s) (b ∷ t) = ltb a b || (a == b && tle s t)

pub tle_refl : (s : Text) → tle s s ≡ true
unfolding tle
tle_refl [] = refl
tle_refl (a ∷ s) = ground (arith, tle_refl s)
