-- ===== src/Base/SortedSet.antt =====
-- `sorted` of a set of texts.
use mathlib.Core.Path.{◌≡◌, refl, ◌∙◌}
use mathlib.Core.Logic.{inl, inr}
use mathlib.Core.Bool.{Bool, ◌||◌}
use mathlib.Core.List.{List, [], ◌∷◌}
use native.Mathlib.Omega.{arith}
use alderpoint_dns.Base.Tests.{if◌then◌else◌, if_ind, Bool-cases}
use alderpoint_dns.Base.Texts.{Text, teq, teq→eq, tle}
use alderpoint_dns.Base.Lists.{any, All}

-- `sorted(set(…))`: each text before the first that is not smaller, unless it is there.
unfoldable pub place : Text → List Text → List Text
place s [] = s ∷ []
place s (t ∷ ts) =
    let rest = place s ts in if teq s t then t ∷ ts else if tle s t then s ∷ t ∷ ts else t ∷ rest

unfoldable pub sorted_set : List Text → List Text
unfolding place
sorted_set [] = []
sorted_set (s ∷ ss) = place s (sorted_set ss)

any-place : (p : Text → Bool) (s : Text) (ts : List Text) → any p (place s ts) ≡ (p s || any p ts)
unfolding place any
any-place p s [] = refl
any-place p s (t ∷ ts) = elim (Bool-cases (teq s t)) [
  | inl e ↦ rw (e, teq→eq s t e) (ground arith)
  | inr e ↦ rw e (ground (arith, any-place p s ts))
]

pub any-sorted_set : (p : Text → Bool) (ss : List Text) → any p (sorted_set ss) ≡ any p ss
unfolding sorted_set any
any-sorted_set p [] = refl
any-sorted_set p (s ∷ ss) = any-place p s (sorted_set ss) ∙ rw (any-sorted_set p ss) refl

All-place {κ} :
    (P : Text → Type κ) (s : Text) (ts : List Text) → P s → All P ts → All P (place s ts)
unfolding place
All-place P s [] p h = (p, tt)
All-place P s (t ∷ ts) p h =
    if_ind (All P) (teq s t) (λ _. h)
      (λ _. if_ind (All P) (tle s t) (λ _. (p, h)) (λ _. (h.0, All-place P s ts p h.1)))

pub All-sorted_set {κ} : (P : Text → Type κ) (ss : List Text) → All P ss → All P (sorted_set ss)
unfolding sorted_set
All-sorted_set P [] h = tt
All-sorted_set P (s ∷ ss) h = All-place P s (sorted_set ss) h.0 (All-sorted_set P ss h.1)
