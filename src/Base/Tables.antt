-- ===== src/Base/Tables.antt =====
-- Tables as lists of rows: rows that differ under a test, and changes that keep them apart.
use Prim.Native.Nat.{ℕ, suc, ◌<◌, max}
use mathlib.Core.Path.{◌≡◌, refl, ◌∙◌}
use mathlib.Core.Logic.{inl, inr}
use mathlib.Core.Bool.{Bool, true, false, ◌&&◌}
use mathlib.Core.List.{List, [], ◌∷◌, ◌++◌, map}
use native.Mathlib.Omega.{arith}
use alderpoint_dns.Base.Tests.{◌==◌, Bool-cases}
use alderpoint_dns.Base.Lists.{keep, any, All}

module _ {ℓ} {A : Type ℓ} where
  -- No row is the same as a later one.
  abbrev pub IsApart : (A → A → Bool) → List A → Type 0
  IsApart same [] = Unit
  IsApart same (x ∷ xs) = All (λ y. same x y ≡ false) xs × IsApart same xs

  pub All-keep {κ} : (P : A → Type κ) (p : A → Bool) (xs : List A) → All P xs → All P (keep p xs)
  unfolding keep
  All-keep P p [] h = tt
  All-keep P p (x ∷ xs) h = elim (Bool-cases (p x)) [
    | inl e ↦ rw e (h.0, All-keep P p xs h.1)
    | inr e ↦ rw e (All-keep P p xs h.1)
  ]

  -- The rows that are kept may use the test.
  pub All-keep_if {κ μ} :
      (P : A → Type κ) (Q : A → Type μ) (p : A → Bool)
      → ((x : A) → p x ≡ true → P x → Q x)
      → (xs : List A) → All P xs
      → All Q (keep p xs)
  unfolding keep
  All-keep_if P Q p f [] h = tt
  All-keep_if P Q p f (x ∷ xs) h = elim (Bool-cases (p x)) [
    | inl e ↦ rw e (f x e h.0, All-keep_if P Q p f xs h.1)
    | inr e ↦ rw e (All-keep_if P Q p f xs h.1)
  ]

  pub keep-IsApart :
      (same : A → A → Bool) (p : A → Bool) (xs : List A)
      → IsApart same xs
      → IsApart same (keep p xs)
  unfolding keep
  keep-IsApart same p [] h = tt
  keep-IsApart same p (x ∷ xs) h = elim (Bool-cases (p x)) [
    | inl e ↦ rw e (All-keep (λ y. same x y ≡ false) p xs h.0, keep-IsApart same p xs h.1)
    | inr e ↦ rw e (keep-IsApart same p xs h.1)
  ]

  pub All-snoc {κ} : (P : A → Type κ) (xs : List A) (x : A) → All P xs → P x → All P (xs ++ x ∷ [])
  All-snoc P [] x h p = (p, tt)
  All-snoc P (y ∷ xs) x h p = (h.0, All-snoc P xs x h.1 p)

  pub snoc-IsApart :
      (same : A → A → Bool) (xs : List A) (x : A)
      → IsApart same xs
      → All (λ y. same y x ≡ false) xs
      → IsApart same (xs ++ x ∷ [])
  snoc-IsApart same [] x h k = (tt, tt)
  snoc-IsApart same (y ∷ xs) x h k =
      (All-snoc (λ z. same y z ≡ false) xs x h.0 k.0, snoc-IsApart same xs x h.1 k.1)

  pub All-map_same :
      (P Q : A → Type 0) (f : A → A)
      → ((y : A) → P y → Q (f y))
      → (xs : List A) → All P xs
      → All Q (map f xs)
  All-map_same P Q f k [] h = tt
  All-map_same P Q f k (x ∷ xs) h = (k x h.0, All-map_same P Q f k xs h.1)

  pub All-map_keeps :
      (P : A → Type 0) (f : A → A)
      → ((y : A) → P y → P (f y))
      → (xs : List A) → All P xs
      → All P (map f xs)
  All-map_keeps P f k xs h = All-map_same P P f k xs h

  pub map-IsApart :
      (same : A → A → Bool) (f : A → A)
      → ((x y : A) → same (f x) (f y) ≡ same x y)
      → (xs : List A) → IsApart same xs
      → IsApart same (map f xs)
  map-IsApart same f e [] h = tt
  map-IsApart same f e (x ∷ xs) h = (
    All-map_same (λ y. same x y ≡ false) (λ y. same (f x) y ≡ false) f (λ y k. e x y ∙ k) xs h.0,
    map-IsApart same f e xs h.1,
  )

  pub any-none : (p : A → Bool) (xs : List A) → any p xs ≡ false → All (λ x. p x ≡ false) xs
  unfolding any
  any-none p [] h = tt
  any-none p (x ∷ xs) h = (ground (arith, h), any-none p xs (ground (arith, h)))

  pub any-map :
      (p : A → Bool) (f : A → A)
      → ((x : A) → p (f x) ≡ p x)
      → (xs : List A) → any p (map f xs) ≡ any p xs
  unfolding any
  any-map p f e [] = refl
  any-map p f e (x ∷ xs) = rw (e x, any-map p f e xs) refl

  pub any-keep :
      (p q : A → Bool)
      → ((x : A) → p x ≡ true → q x ≡ true)
      → (xs : List A) → any p (keep q xs) ≡ any p xs
  unfolding any keep
  any-keep p q f [] = refl
  any-keep p q f (x ∷ xs) = elim (Bool-cases (q x)) [
    | inl e ↦ rw e (rw (any-keep p q f xs) refl)
    | inr e ↦ ground (arith, e, f x, any-keep p q f xs)
  ]

  -- A change that turns a row of one kind into one of another keeps such a row there.
  pub any-map_to :
      (p q : A → Bool) (f : A → A)
      → ((x : A) → p x ≡ true → q (f x) ≡ true)
      → (xs : List A) → any p xs ≡ true
      → any q (map f xs) ≡ true
  unfolding any
  any-map_to p q f k [] h = ground (arith, h)
  any-map_to p q f k (x ∷ xs) h = ground (arith, h, k x, any-map_to p q f k xs)

  pub any-keep_to :
      (p q r : A → Bool)
      → ((x : A) → p x ≡ true → (r x && q x) ≡ true)
      → (xs : List A) → any p xs ≡ true
      → any q (keep r xs) ≡ true
  unfolding any keep
  any-keep_to p q r k [] h = ground (arith, h)
  any-keep_to p q r k (x ∷ xs) h = ground (arith, h, k x, any-keep_to p q r k xs)

  -- The id of a new row: one more than the greatest.
  unfoldable pub fresh_id : (A → ℕ) → List A → ℕ
  fresh_id id [] = 1
  fresh_id id (x ∷ xs) = max (suc (id x)) (fresh_id id xs)

  pub fresh_id_above :
      (id : A → ℕ) (n : ℕ) (xs : List A) → (fresh_id id xs ≡ n) → All (λ x. id x < n) xs
  unfolding fresh_id
  fresh_id_above id n [] h = tt
  fresh_id_above id n (x ∷ xs) h = go (x ∷ xs) (omega (arith, h))
    where
      go : (xs : List A) → (fresh_id id xs < suc n) → All (λ x. id x < n) xs
      go [] k = tt
      go (x ∷ xs) k = (omega (arith, k), go xs (omega (arith, k)))

  All_weaken : (P Q : A → Type 0) (f : (x : A) → P x → Q x) (xs : List A) → All P xs → All Q xs
  All_weaken P Q f [] h = tt
  All_weaken P Q f (x ∷ xs) h = (f x h.0, All_weaken P Q f xs h.1)

  pub fresh_id_ne : (id : A → ℕ) (xs : List A) → All (λ x. (id x == fresh_id id xs) ≡ false) xs
  fresh_id_ne id xs =
      All_weaken (λ x. id x < fresh_id id xs) (λ x. (id x == fresh_id id xs) ≡ false)
        (λ x h. ground (arith, h)) xs (fresh_id_above id (fresh_id id xs) xs refl)
