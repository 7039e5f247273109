-- ===== src/Upstream/Table/Invariant.antt =====
-- The invariant of the table of resolvers, and how the changes of rows keep it.
use alderpoint_dns.Base.{
  ℕ, suc, Bool, true, false, not, ◌&&◌, ◌||◌, List, [], ◌∷◌, ◌++◌, keep, any, any-append, All, ltb,
  leb, ◌==◌, if◌then◌else◌, ◌≡◌, refl, subst, sym, ◌∙◌, Bool-cases, inl, inr, arith, ◌≢◌,
}
use alderpoint_dns.Base.Tables.{
  IsApart, All-keep, All-map_same, All-map_keeps, keep-IsApart, map-IsApart, All-snoc, snoc-IsApart,
  any-map_to, fresh_id, fresh_id_ne,
}
use alderpoint_dns.Upstream.Types.{checking, disabled, healthy, failed, Probe, Row}
use alderpoint_dns.Upstream.Table.{
  change_row, reset_probe_state, set_positions, resolvers, is_other, would_leave_zero_enabled,
  first_of, is_enabled, place, enabled_resolvers, set_probe, threshold,
}

abbrev pub same_id : Row → Row → Bool
same_id r s = r.id == s.id

-- A probe's status fits the row: disabled with the row, failed from three failures on.
unfoldable pub agrees : Bool → Probe → Bool
agrees enabled p = elim p.status [
  | checking ↦ enabled && ltb p.failures threshold
  | disabled ↦ not enabled && p.failures == 0
  | healthy ↦ enabled && p.failures == 0
  | failed ↦ enabled && leb threshold p.failures
]

pub record IsGood (rows : List Row) : Type 0 where
  pub ids : IsApart same_id rows
  pub probes : All (λ (r : Row). agrees r.enabled r.probe ≡ true) rows

abbrev pub has_enabled : List Row → Bool
has_enabled = any (λ (r : Row). r.enabled)

module _ (k : ℕ) (change : Row → Row) (keeps : (r : Row) → (change r).id ≡ r.id) where
  abbrev changed : Row → Row
  changed r = if r.id == k then change r else r

  changed_id : (r : Row) → (changed r).id ≡ r.id
  changed_id r = elim (Bool-cases (r.id == k)) [ inl e ↦ rw e (keeps r) | inr e ↦ rw e refl ]

  changed_same : (r s : Row) → same_id (changed r) (changed s) ≡ same_id r s
  changed_same r s = rw (changed_id r, changed_id s) refl

  pub change_row-IsApart :
      (rows : List Row) → IsApart same_id rows → IsApart same_id (change_row k change rows)
  unfolding change_row
  change_row-IsApart rows h = map-IsApart same_id changed changed_same rows h

-- A change of every row's position keeps the invariant.
module _ (k pos : ℕ) where
  abbrev moved : Row → Row
  moved r = record r { position = pos }

  set_position-IsGood : (rows : List Row) → IsGood rows → IsGood (change_row k moved rows)
  unfolding change_row
  set_position-IsGood rows good = record {
    ids = change_row-IsApart k moved (λ _. refl) rows good.ids;
    probes =
        All-map_keeps (λ (r : Row). agrees r.enabled r.probe ≡ true) _
          (λ r h. elim (Bool-cases (r.id == k)) [ inl e ↦ rw e h | inr e ↦ rw e h ]) rows
          good.probes;
  }

  set_position-has_enabled :
      (rows : List Row) → has_enabled rows ≡ true → has_enabled (change_row k moved rows) ≡ true
  unfolding change_row
  set_position-has_enabled rows h =
      any-map_to (λ (r : Row). r.enabled) (λ (r : Row). r.enabled) _
        (λ r e. elim (Bool-cases (r.id == k)) [ inl c ↦ rw c e | inr c ↦ rw c e ]) rows h

pub set_positions-IsGood :
    (pos : ℕ) (ids : List ℕ) (rows : List Row) → IsGood rows → IsGood (set_positions pos ids rows)
unfolding set_positions
set_positions-IsGood pos [] rows good = good
set_positions-IsGood pos (k ∷ ids) rows good =
    set_positions-IsGood (suc pos) ids _ (set_position-IsGood k pos rows good)

pub set_positions-has_enabled :
    (pos : ℕ) (ids : List ℕ) (rows : List Row)
    → has_enabled rows ≡ true
    → has_enabled (set_positions pos ids rows) ≡ true
unfolding set_positions
set_positions-has_enabled pos [] rows h = h
set_positions-has_enabled pos (k ∷ ids) rows h =
    set_positions-has_enabled (suc pos) ids _ (set_position-has_enabled k pos rows h)

-- A change of the rows with one id that sets whether they are enabled, and a reset of their probes.
module _ (k : ℕ) (enabled : Bool) (change : Row → Row) (keeps : (r : Row) → (change r).id ≡ r.id)
    (sets : (r : Row) → (change r).enabled ≡ enabled) where
  abbrev half : Row → Bool
  half r =
      if r.id == k then (if r.enabled then enabled else not enabled) else agrees r.enabled r.probe

  pub reset-IsGood :
      (rows : List Row)
      → IsGood rows
      → IsGood (reset_probe_state k enabled (change_row k change rows))
  unfolding change_row reset_probe_state agrees
  reset-IsGood rows good = record {
    ids = change_row-IsApart k _ (λ _. refl) _ (change_row-IsApart k change keeps rows good.ids);
    probes =
        All-map_same (λ r. half r ≡ true) (λ (r : Row). agrees r.enabled r.probe ≡ true) _
          (λ r h. ground (arith, h)) (change_row k change rows)
          (All-map_same (λ (r : Row). agrees r.enabled r.probe ≡ true) (λ r. half r ≡ true) _
            (λ r h. elim (Bool-cases (r.id == k)) [
              | inl e ↦ rw e (rw (keeps r) (rw e (rw (sets r) (ground (arith)))))
              | inr e ↦ rw e (rw e h)
            ])
            rows good.probes);
  }

  reset_only :
      (rows : List Row)
      → has_enabled rows ≡ true
      → has_enabled (reset_probe_state k enabled rows) ≡ true
  unfolding change_row reset_probe_state
  reset_only rows h =
      any-map_to (λ (r : Row). r.enabled) (λ (r : Row). r.enabled) _ (λ r e. ground (arith, e)) rows
        h

  change_only :
      (rows : List Row)
      → (enabled || any (is_other k) rows) ≡ true
      → has_enabled rows ≡ true
      → has_enabled (change_row k change rows) ≡ true
  unfolding change_row
  change_only rows w h = elim (Bool-cases enabled) [
    | inl e ↦
        any-map_to (λ (r : Row). r.enabled) (λ (r : Row). r.enabled) _
          (λ r c. ground (arith, c, sets r, e)) rows h
    | inr e ↦
        any-map_to (is_other k) (λ (r : Row). r.enabled) _ (λ r c. ground (arith, c)) rows
          (ground (arith, e, w))
  ]

  pub reset-has_enabled :
      (rows : List Row)
      → would_leave_zero_enabled k (not enabled) rows ≡ false
      → has_enabled rows ≡ true
      → has_enabled (reset_probe_state k enabled (change_row k change rows)) ≡ true
  unfolding would_leave_zero_enabled
  reset-has_enabled rows w h =
      reset_only (change_row k change rows) (change_only rows (ground (arith, w)) h)

-- Rows that all have another id than `k` are others.
all_others :
    (k j : ℕ) (rows : List Row)
    → (j == k) ≡ true
    → All (λ (s : Row). (j == s.id) ≡ false) rows
    → has_enabled rows ≡ true
    → any (is_other k) rows ≡ true
unfolding any
all_others k j [] e h w = ground (arith, w)
all_others k j (r ∷ rows) e h w = ground (arith, e, h.0, w, all_others k j rows e h.1)

-- Another row is enabled, where some row is and the one with this id is not.
pub others :
    (k : ℕ) (rows : List Row)
    → IsApart same_id rows
    → is_enabled (first_of (keep (λ (r : Row). r.id == k) rows)) ≡ false
    → has_enabled rows ≡ true
    → any (is_other k) rows ≡ true
unfolding keep any
others k [] apart f h = ground (arith, h)
others k (r ∷ rows) apart f h = elim (Bool-cases (r.id == k)) [
  | inl e ↦ found e (
      subst
        (λ c. is_enabled (first_of (if c then r ∷ keep has_id rows else keep has_id rows)) ≡ false)
        e f)
  | inr e ↦ ground (
    arith,
    e,
    h,
    others k rows apart.1 (
        subst
          (λ c.
            is_enabled (first_of (if c then r ∷ keep has_id rows else keep has_id rows)) ≡ false)
          e f),
  )
]
  where
    has_id : Row → Bool
    has_id s = s.id == k

    found : (r.id == k) ≡ true → r.enabled ≡ false → any (is_other k) (r ∷ rows) ≡ true
    found e off = ground (arith, all_others k r.id rows e apart.0 (ground (arith, off, h)))

pub keep-IsGood : (p : Row → Bool) (rows : List Row) → IsGood rows → IsGood (keep p rows)
keep-IsGood p rows good = record {
  ids = keep-IsApart same_id p rows good.ids;
  probes = All-keep _ p rows good.probes;
}

-- A new row has an id of its own.
pub snoc-IsGood :
    (rows : List Row) (r : Row)
    → r.id ≡ fresh_id (λ (r : Row). r.id) rows
    → agrees r.enabled r.probe ≡ true
    → IsGood rows
    → IsGood (rows ++ r ∷ [])
snoc-IsGood rows r e a good = record {
  ids = snoc-IsApart same_id rows r good.ids (
      subst (λ n. All (λ (s : Row). (s.id == n) ≡ false) rows) (sym e)
        (fresh_id_ne (λ (r : Row). r.id) rows));
  probes = All-snoc (λ (r : Row). agrees r.enabled r.probe ≡ true) rows r good.probes a;
}

pub snoc-has_enabled :
    (rows : List Row) (r : Row) → has_enabled rows ≡ true → has_enabled (rows ++ r ∷ []) ≡ true
snoc-has_enabled rows r h = ground (arith, any-append (λ (r : Row). r.enabled) rows (r ∷ []), h)

module _ (k : ℕ) (probe : Probe) where
  pub set_probe-IsGood :
      (rows : List Row) → agrees true probe ≡ true → IsGood rows → IsGood (set_probe k probe rows)
  unfolding set_probe
  set_probe-IsGood rows a good = record {
    ids = map-IsApart same_id _ (λ r s. ground arith) rows good.ids;
    probes =
        All-map_keeps (λ (r : Row). agrees r.enabled r.probe ≡ true) _ (λ r h. ground (arith, h, a))
          rows good.probes;
  }

  pub set_probe-has_enabled :
      (rows : List Row) → has_enabled rows ≡ true → has_enabled (set_probe k probe rows) ≡ true
  unfolding set_probe
  set_probe-has_enabled rows h =
      any-map_to (λ (r : Row). r.enabled) (λ (r : Row). r.enabled) _ (λ r e. ground (arith, e)) rows
        h

has_enabled-place :
    (r : Row) (rows : List Row) → has_enabled (place r rows) ≡ (r.enabled || has_enabled rows)
unfolding place any
has_enabled-place r [] = refl
has_enabled-place r (s ∷ rows) = ground (arith, has_enabled-place r rows)

has_enabled-resolvers : (rows : List Row) → has_enabled (resolvers rows) ≡ has_enabled rows
unfolding resolvers any
has_enabled-resolvers [] = refl
has_enabled-resolvers (r ∷ rows) =
    has_enabled-place r (resolvers rows) ∙ rw (has_enabled-resolvers rows) refl

keep_some : (rows : List Row) → has_enabled rows ≡ true → keep (λ (r : Row). r.enabled) rows ≢ []
unfolding keep any
keep_some [] h e = ground (arith, h)
keep_some (r ∷ rows) h e = ground (arith, h, e, keep_some rows)

keep_none : (rows : List Row) → has_enabled rows ≡ false → keep (λ (r : Row). r.enabled) rows ≡ []
unfolding keep any
keep_none [] h = refl
keep_none (r ∷ rows) h = ground (arith, h, keep_none rows)

-- Some resolver is in the list of those enabled if and only if some row is enabled.
pub enabled_resolvers_some :
    (rows : List Row) → has_enabled rows ≡ true → enabled_resolvers rows ≢ []
unfolding enabled_resolvers
enabled_resolvers_some rows h = keep_some (resolvers rows) (has_enabled-resolvers rows ∙ h)

pub has_enabled_some : (rows : List Row) → enabled_resolvers rows ≢ [] → has_enabled rows ≡ true
unfolding enabled_resolvers
has_enabled_some rows h = elim (Bool-cases (has_enabled rows)) [
  | inl e ↦ e
  | inr e ↦ absurd (h (keep_none (resolvers rows) (has_enabled-resolvers rows ∙ e)))
]
