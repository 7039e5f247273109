-- ===== src/Rules/Store/Rows.antt =====
-- Rows of a table by their ids, which are distinct, and predicates that hold at every row.
use alderpoint_dns.Base.{
  ℕ, ◌<◌, Bool, false, some, List, [], ◌∷◌, ◌++◌, map, keep, All, All-map, ◌≡◌, refl, ap, sym, ◌==◌,
  subst, Bool-cases, inl, inr, arith,
}
use alderpoint_dns.Rules.Types.{Row}
use alderpoint_dns.Rules.Store.{next_id, get_rule, change_row}

abbrev pub ids : List Row → List ℕ
ids = map (λ (row : Row). row.id)

abbrev pub IsOther : ℕ → ℕ → Type 0
IsOther k i = (i == k) ≡ false

abbrev pub IsDistinct : List ℕ → Type 0
IsDistinct [] = Unit
IsDistinct (i ∷ is) = All (IsOther i) is × IsDistinct is

All-ids :
    (Q : ℕ → Type 0) (p : Row → Bool) (rows : List Row)
    → All Q (ids rows)
    → All Q (ids (keep p rows))
unfolding keep
All-ids Q p [] h = tt
All-ids Q p (r ∷ rows) h = elim (Bool-cases (p r)) [
  | inl e ↦ rw e (h.0, All-ids Q p rows h.1)
  | inr e ↦ rw e (All-ids Q p rows h.1)
]

pub keep-IsDistinct :
    (p : Row → Bool) (rows : List Row) → IsDistinct (ids rows) → IsDistinct (ids (keep p rows))
unfolding keep
keep-IsDistinct p [] h = tt
keep-IsDistinct p (r ∷ rows) h = elim (Bool-cases (p r)) [
  | inl e ↦ rw e (All-ids (IsOther r.id) p rows h.0, keep-IsDistinct p rows h.1)
  | inr e ↦ rw e (keep-IsDistinct p rows h.1)
]

pub next_id_above : (rows : List Row) → All (λ i. i < next_id rows) (ids rows)
unfolding next_id
next_id_above [] = tt
next_id_above (r ∷ rows) =
    (omega arith, All-map (λ i h. omega (arith, h)) (ids rows) (next_id_above rows))

pub append-IsDistinct :
    (rows : List Row) (new : Row)
    → IsDistinct (ids rows)
    → All (λ i. i < new.id) (ids rows)
    → IsDistinct (ids (rows ++ new ∷ []))
append-IsDistinct [] new h above = (tt, tt)
append-IsDistinct (r ∷ rows) new h above = (others rows h.0, append-IsDistinct rows new h.1 above.1)
  where
    others :
        (rows : List Row)
        → All (IsOther r.id) (ids rows)
        → All (IsOther r.id) (ids (rows ++ new ∷ []))
    others [] h = (ground (arith, above.0), tt)
    others (s ∷ rows) h = (h.0, others rows h.1)

pub ids-change_row :
    (k : ℕ) (change : Row → Row) (keeps : (r : Row) → (change r).id ≡ r.id) (rows : List Row)
    → ids (change_row k change rows) ≡ ids rows
unfolding change_row
ids-change_row k change keeps [] = refl
ids-change_row k change keeps (r ∷ rows) = elim (Bool-cases (r.id == k)) [
  | inl e ↦ rw (e, keeps r) (ap (λ is. r.id ∷ is) (ids-change_row k change keeps rows))
  | inr e ↦ rw e (ap (λ is. r.id ∷ is) (ids-change_row k change keeps rows))
]

module _ (P : Row → Type 0) where
  pub All-keep : (p : Row → Bool) (rows : List Row) → All P rows → All P (keep p rows)
  unfolding keep
  All-keep p [] h = tt
  All-keep p (r ∷ rows) h = elim (Bool-cases (p r)) [
    | inl e ↦ rw e (h.0, All-keep p rows h.1)
    | inr e ↦ rw e (All-keep p rows h.1)
  ]

  pub All-change_row :
      (k : ℕ) (change : Row → Row) (keeps : (r : Row) → P r → P (change r)) (rows : List Row)
      → All P rows
      → All P (change_row k change rows)
  unfolding change_row
  All-change_row k change keeps [] h = tt
  All-change_row k change keeps (r ∷ rows) h = elim (Bool-cases (r.id == k)) [
    | inl e ↦ rw e (keeps r h.0, All-change_row k change keeps rows h.1)
    | inr e ↦ rw e (h.0, All-change_row k change keeps rows h.1)
  ]

  change_row_absent :
      (k : ℕ) (change : Row → Row) (rows : List Row)
      → All (IsOther k) (ids rows)
      → All P rows
      → All P (change_row k change rows)
  unfolding change_row
  change_row_absent k change [] o h = tt
  change_row_absent k change (r ∷ rows) o h = rw o.0 (h.0, change_row_absent k change rows o.1 h.1)

  -- With distinct ids, only the row that `get_rule` finds is changed.
  pub All-change_found :
      (k : ℕ) (change : Row → Row) (row : Row) (rows : List Row)
      → get_rule k rows ≡ some row
      → IsDistinct (ids rows)
      → All P rows
      → (P row → P (change row))
      → All P (change_row k change rows)
  unfolding change_row get_rule keep
  All-change_found k change row [] e d h keeps = tt
  All-change_found k change row (r ∷ rows) e d h keeps = elim (Bool-cases (r.id == k)) [
    | inl t ↦
        let same : r ≡ row = ground (arith, e, t) in
        let here : r.id ≡ k = ground (arith, t) in
        rw t (
          subst (λ (x : Row). P x → P (change x)) (sym same) keeps h.0,
          change_row_absent k change rows (subst (λ i. All (IsOther i) (ids rows)) here d.0) h.1,
        )
    | inr f ↦
        let later : get_rule k rows ≡ some row = ground (arith, e, f) in
        rw f (h.0, All-change_found k change row rows later d.1 h.1 keeps)
  ]
