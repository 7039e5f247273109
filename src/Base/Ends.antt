-- ===== src/Base/Ends.antt =====
-- The names above a name: what follows each of its dots. They are the names that, after a dot, a text
-- ends with.
use Prim.Native.Nat.{ℕ, ◌+◌}
use mathlib.Core.Path.{◌≡◌, refl, sym, ap, ◌∙◌}
use mathlib.Core.Logic.{inl, inr}
use mathlib.Core.Bool.{Bool, false, ◌||◌}
use mathlib.Core.List.{List, [], ◌∷◌, ◌++◌, reverse, reverse-cons, reverse-reverse}
use native.Mathlib.Omega.{arith}
use alderpoint_dns.Base.Lists.{any}
use alderpoint_dns.Base.Tests.{◌==◌, if◌then◌else◌, Bool-cases}
use alderpoint_dns.Base.Texts.{Text, codes, teq, teq→eq, teq_iff, teq_refl}
use alderpoint_dns.Base.Str.{starts_with, ends_with}

-- `".".join(labels[i:])` for i from 1 on, the longest first.
unfoldable pub parents : Text → List Text
parents [] = []
parents (c ∷ s) = let rest = parents s in if c == b'.' then s ∷ rest else rest

-- `s.count(".")`
unfoldable pub count_dots : Text → ℕ
count_dots [] = 0
count_dots (c ∷ s) = let rest = count_dots s in if c == b'.' then rest + 1 else rest

starts_with-nil : (q : Text) → starts_with q [] ≡ teq q []
unfolding starts_with teq
starts_with-nil [] = refl
starts_with-nil (p ∷ q) = refl

starts_with-snoc :
    (q r : Text) (c : ℕ) → starts_with q (r ++ c ∷ []) ≡ (starts_with q r || teq q (r ++ c ∷ []))
unfolding starts_with teq
starts_with-snoc [] r c = refl
starts_with-snoc (p ∷ q) [] c = rw (starts_with-nil q) refl
starts_with-snoc (p ∷ q) (d ∷ r) c = ground (arith, starts_with-snoc q r c)

teq-reverse : (s t : Text) → teq (reverse s) (reverse t) ≡ teq s t
teq-reverse s t = elim (Bool-cases (teq s t)) [
  | inl e ↦
      ap (λ u. teq (reverse s) (reverse u)) (sym (teq→eq s t e)) ∙ teq_refl (reverse s) ∙ sym e
  | inr e ↦ elim (Bool-cases (teq (reverse s) (reverse t))) [
    | inl f ↦
        f
        ∙ sym (teq_refl s)
        ∙ ap (teq s) (
            sym (reverse-reverse s)
            ∙ ap reverse (teq→eq (reverse s) (reverse t) f)
            ∙ reverse-reverse t)
    | inr f ↦ f ∙ sym e
  ]
]

ends_with-cons : (p s : Text) (c : ℕ) → ends_with p (c ∷ s) ≡ (ends_with p s || teq p (c ∷ s))
unfolding ends_with
ends_with-cons p s c =
    ap (starts_with (reverse p)) (reverse-cons c s)
    ∙ starts_with-snoc (reverse p) (reverse s) c
    ∙ ap (λ u. starts_with (reverse p) (reverse s) || teq (reverse p) u) (sym (reverse-cons c s))
    ∙ ap (λ b. starts_with (reverse p) (reverse s) || b) (teq-reverse p (c ∷ s))

-- A text that is not empty is no end of the empty text.
ends_with-nil : (c : ℕ) (p : Text) → ends_with (c ∷ p) [] ≡ false
unfolding ends_with teq
ends_with-nil c p = starts_with-nil (reverse (c ∷ p)) ∙ teq-reverse (c ∷ p) [] ∙ unequal
  where
    unequal : teq (c ∷ p) [] ≡ false
    unequal = refl

-- A name stands above a domain exactly if the domain ends with a dot and the name.
pub ends_with-parents :
    (name domain : Text)
    → ends_with (codes "." ++ name) domain ≡ any (λ p. teq p name) (parents domain)
unfolding any parents teq
ends_with-parents name [] = ends_with-nil b'.' name
ends_with-parents name (c ∷ s) =
    ends_with-cons (b'.' ∷ name) s c ∙ above (ends_with (b'.' ∷ name) s) (ends_with-parents name s)
  where
    above :
        (b : Bool)
        → b ≡ any (λ p. teq p name) (parents s)
        → (b || teq (b'.' ∷ name) (c ∷ s))
          ≡ any (λ p. teq p name) (if c == b'.' then s ∷ parents s else parents s)
    above b e = ground (arith, e, teq_iff s name, teq_iff name s)
