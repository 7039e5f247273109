-- ===== src/Rules/Active/Order.antt =====
-- The order of the rows does not change what they hold.
use alderpoint_dns.Base.{
  Bool, ◌||◌, List, [], ◌∷◌, ◌≡◌, refl, ◌∙◌, any, keep, All, arith, Bool-cases, inl, inr,
}
use alderpoint_dns.Rules.Types.{Row}
use alderpoint_dns.Rules.Evaluate.{max_priority}
use alderpoint_dns.Rules.Active.{precedes, place_row, ordered}

module _ (p : Row → Bool) where
  any-place_row : (r : Row) (rows : List Row) → any p (place_row r rows) ≡ (p r || any p rows)
  unfolding place_row any
  any-place_row r [] = refl
  any-place_row r (s ∷ rows) = ground (arith, any-place_row r rows)

  pub any-ordered : (rows : List Row) → any p (ordered rows) ≡ any p rows
  unfolding ordered any
  any-ordered [] = refl
  any-ordered (r ∷ rows) = any-place_row r (ordered rows) ∙ ground (arith, any-ordered rows)

  max-place_row :
      (r : Row) (rows : List Row)
      → max_priority (keep p (place_row r rows)) ≡ max_priority (keep p (r ∷ rows))
  unfolding place_row keep max_priority
  max-place_row r [] = refl
  max-place_row r (s ∷ rows) = ground (arith, max-place_row r rows)

  max-keep_cons :
      (r : Row) (xs ys : List Row)
      → max_priority (keep p xs) ≡ max_priority (keep p ys)
      → max_priority (keep p (r ∷ xs)) ≡ max_priority (keep p (r ∷ ys))
  unfolding keep max_priority
  max-keep_cons r xs ys h = ground arith

  pub max-ordered :
      (rows : List Row) → max_priority (keep p (ordered rows)) ≡ max_priority (keep p rows)
  unfolding ordered
  max-ordered [] = refl
  max-ordered (r ∷ rows) =
      max-place_row r (ordered rows) ∙ max-keep_cons r (ordered rows) rows (max-ordered rows)

module _ {ℓ} (P : Row → Type ℓ) where
  All-place_row : (r : Row) (rows : List Row) → P r → All P rows → All P (place_row r rows)
  unfolding place_row
  All-place_row r [] p h = (p, tt)
  All-place_row r (s ∷ rows) p h = elim (Bool-cases (precedes r s)) [
    | inl e ↦ rw e (p, h)
    | inr e ↦ rw e (h.0, All-place_row r rows p h.1)
  ]

  pub All-ordered : (rows : List Row) → All P rows → All P (ordered rows)
  unfolding ordered
  All-ordered [] h = tt
  All-ordered (r ∷ rows) h = All-place_row r (ordered rows) h.0 (All-ordered rows h.1)

  pub All-keep : (p : Row → Bool) (rows : List Row) → All P rows → All P (keep p rows)
  unfolding keep
  All-keep p [] h = tt
  All-keep p (r ∷ rows) h = elim (Bool-cases (p r)) [
    | inl e ↦ rw e (h.0, All-keep p rows h.1)
    | inr e ↦ rw e (All-keep p rows h.1)
  ]
