-- ===== src/Base/Strip.antt =====
-- Texts that stripping and mapping leave as they are.
use Prim.Native.Nat.{ℕ}
use mathlib.Core.Path.{◌≡◌, refl, ap, ◌∙◌}
use mathlib.Core.Bool.{Bool, true, not, ◌&&◌}
use mathlib.Core.List.{[], ◌∷◌, ◌++◌, map, reverse, reverse_aux, reverse-reverse}
use native.Mathlib.Omega.{arith}
use alderpoint_dns.Base.Texts.{Text}
use alderpoint_dns.Base.Lists.{all}
use alderpoint_dns.Base.Str.{is_space, strip_left, strip_right, strip_by, strip}

pub all_weaken :
    (p q : ℕ → Bool)
    → ((c : ℕ) → p c ≡ true → q c ≡ true)
    → (s : Text) → all p s ≡ true
    → all q s ≡ true
unfolding all
all_weaken p q f [] h = refl
all_weaken p q f (c ∷ s) h = ground (arith, h, f c, all_weaken p q f s)

pub all-append : (p : ℕ → Bool) (s t : Text) → all p (s ++ t) ≡ (all p s && all p t)
unfolding all
all-append p [] t = refl
all-append p (c ∷ s) t = ground (arith, all-append p s t)

all-reverse_aux : (p : ℕ → Bool) (s t : Text) → all p (reverse_aux s t) ≡ (all p s && all p t)
unfolding all
all-reverse_aux p [] t = refl
all-reverse_aux p (c ∷ s) t = all-reverse_aux p s (c ∷ t) ∙ ground arith

pub all-reverse : (p : ℕ → Bool) (s : Text) → all p (reverse s) ≡ all p s
unfolding all
all-reverse p s = all-reverse_aux p s [] ∙ ground arith

pub map_self :
    (p : ℕ → Bool) (f : ℕ → ℕ)
    → ((c : ℕ) → p c ≡ true → f c ≡ c)
    → (s : Text) → all p s ≡ true
    → map f s ≡ s
unfolding all
map_self p f e [] h = refl
map_self p f e (c ∷ s) h = ground (arith, h, e c, map_self p f e s)

strip_left_self : (p : ℕ → Bool) (s : Text) → all (λ c. not (p c)) s ≡ true → strip_left p s ≡ s
unfolding all strip_left
strip_left_self p [] h = refl
strip_left_self p (c ∷ s) h = ground (arith, h)

pub strip_right_self :
    (p : ℕ → Bool) (s : Text) → all (λ c. not (p c)) s ≡ true → strip_right p s ≡ s
unfolding strip_right
strip_right_self p s h =
    ap reverse (strip_left_self p (reverse s) (all-reverse (λ c. not (p c)) s ∙ h))
    ∙ reverse-reverse s

pub strip_by_self : (p : ℕ → Bool) (s : Text) → all (λ c. not (p c)) s ≡ true → strip_by p s ≡ s
unfolding strip_by
strip_by_self p s h = ap (strip_right p) (strip_left_self p s h) ∙ strip_right_self p s h

pub strip_self : (s : Text) → all (λ c. not (is_space c)) s ≡ true → strip s ≡ s
unfolding strip
strip_self s h = strip_by_self is_space s h
