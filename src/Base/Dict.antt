-- ===== src/Base/Dict.antt =====
-- Python's `dict` with text keys, in insertion order.
use mathlib.Core.Path.{◌≡◌, refl, sym, subst, ap, ◌∙◌}
use mathlib.Core.Logic.{inl, inr}
use mathlib.Core.Bool.{false}
use mathlib.Core.Option.{Option, none, some}
use mathlib.Core.List.{List, [], ◌∷◌, foldl}
use native.Mathlib.Omega.{arith}
use alderpoint_dns.Base.Tests.{if◌then◌else◌, Bool-cases}
use alderpoint_dns.Base.Texts.{Text, teq, teq_iff, teq→eq}

abbrev pub Dict {ℓ} : Type ℓ → Type ℓ
Dict V = List (Text × V)

module _ {ℓ} {V : Type ℓ} where
  -- `d.get(k)`
  unfoldable pub lookup : Text → Dict V → Option V
  lookup k [] = none
  lookup k ((j, v) ∷ d) = if teq j k then some v else lookup k d

  -- `d[k] = v`: in place, or at the end.
  unfoldable pub insert : Text → V → Dict V → Dict V
  insert k v [] = (k, v) ∷ []
  insert k v ((j, w) ∷ d) = if teq j k then (j, v) ∷ d else (j, w) ∷ insert k v d

  -- `del d[k]`
  unfoldable pub erase : Text → Dict V → Dict V
  erase k [] = []
  erase k ((j, v) ∷ d) = let rest = erase k d in if teq j k then rest else (j, v) ∷ rest

  pub lookup-insert :
      (k j : Text) (v : V) (d : Dict V)
      → lookup j (insert k v d) ≡ (if teq k j then some v else lookup j d)
  unfolding lookup insert
  lookup-insert k j v [] = refl
  lookup-insert k j v ((i, w) ∷ d) =
      ground (arith, teq_iff k j, teq_iff i k, teq_iff i j, lookup-insert k j v d)

  pub lookup-erase :
      (k j : Text) (d : Dict V) → lookup j (erase k d) ≡ (if teq k j then none else lookup j d)
  unfolding lookup erase
  lookup-erase k j [] = ground arith
  lookup-erase k j ((i, v) ∷ d) =
      ground (arith, lookup-erase k j d, teq_iff i k, teq_iff i j, teq_iff k j)

  -- No key stands twice.
  abbrev pub IsUnique : Dict V → Type ℓ
  IsUnique [] = Unit
  IsUnique ((k, v) ∷ d) = (lookup k d ≡ none) × IsUnique d

  pub insert-IsUnique : (k : Text) (v : V) (d : Dict V) → IsUnique d → IsUnique (insert k v d)
  unfolding insert
  insert-IsUnique k v [] h = (unfold lookup in refl, tt)
  insert-IsUnique k v ((j, w) ∷ d) h = elim (Bool-cases (teq j k)) [
    | inl e ↦ rw e h
    | inr e ↦
        rw e (
          ground (arith, lookup-insert k j v d, teq_iff j k, teq_iff k j),
          insert-IsUnique k v d h.1,
        )
  ]

  pub erase-IsUnique : (k : Text) (d : Dict V) → IsUnique d → IsUnique (erase k d)
  unfolding erase
  erase-IsUnique k [] h = tt
  erase-IsUnique k ((j, w) ∷ d) h = elim (Bool-cases (teq j k)) [
    | inl e ↦ rw e (erase-IsUnique k d h.1)
    | inr e ↦ rw e (ground (arith, lookup-erase k j d), erase-IsUnique k d h.1)
  ]

  -- What holds of every entry of a dictionary, in a form that inserting keeps.
  abbrev pub Each {κ} : (Text → V → Type κ) → Dict V → Type κ
  Each P [] = Unit
  Each P ((k, v) ∷ d) = P k v × Each P d

  pub insert-Each {κ} :
      (P : Text → V → Type κ) (k : Text) (v : V) (d : Dict V)
      → P k v
      → Each P d
      → Each P (insert k v d)
  unfolding insert
  insert-Each P k v [] p h = (p, tt)
  insert-Each P k v ((j, w) ∷ d) p h = elim (Bool-cases (teq j k)) [
    | inl e ↦ rw e (subst (λ i. P i v) (sym (teq→eq j k e)) p, h.1)
    | inr e ↦ rw e (h.0, insert-Each P k v d p h.1)
  ]

  pub erase-Each {κ} :
      (P : Text → V → Type κ) (k : Text) (d : Dict V) → Each P d → Each P (erase k d)
  unfolding erase
  erase-Each P k [] h = tt
  erase-Each P k ((j, w) ∷ d) h = elim (Bool-cases (teq j k)) [
    | inl e ↦ rw e (erase-Each P k d h.1)
    | inr e ↦ rw e (h.0, erase-Each P k d h.1)
  ]

-- The effect of a value on what is seen under a name; no effect where there is no value.
abbrev pub on {ℓ κ} : {V : Type ℓ} {W : Type κ} → (V → W → W) → Option V → W → W
on one none w = w
on one (some v) w = one v w

-- A loop over the items of a dictionary, each of which touches its own name only, acts under a
-- name as its one item does.
module _ {ℓ κ μ ν} {V : Type ℓ} {S : Type κ} {W : Type μ} (P : Text → Type ν) (n : Text)
    (step : S → Text × V → S) (view : S → W) (one : V → W → W)
    (other : (s : S) (m : Text) (v : V) → P m → teq m n ≡ false → view (step s (m, v)) ≡ view s)
    (self : (s : S) (v : V) → view (step s (n, v)) ≡ one v (view s)) where
  view-foldl_absent :
      (d : Dict V) (s : S)
      → Each (λ m _. P m) d
      → lookup n d ≡ none
      → view (foldl step s d) ≡ view s
  unfolding lookup
  view-foldl_absent [] s p h = refl
  view-foldl_absent ((m, v) ∷ d) s p h = elim (Bool-cases (teq m n)) [
    | inl e ↦ absurd (ground arith)
    | inr e ↦ view-foldl_absent d (step s (m, v)) p.1 (ground arith) ∙ other s m v p.0 e
  ]

  pub view-foldl :
      (d : Dict V) (s : S)
      → Each (λ m _. P m) d
      → IsUnique d
      → view (foldl step s d) ≡ on one (lookup n d) (view s)
  unfolding lookup
  view-foldl [] s p u = refl
  view-foldl ((m, v) ∷ d) s p u = elim (Bool-cases (teq m n)) [
    | inl e ↦
        let same = teq→eq m n e in
        rw e (view-foldl_absent d (step s (m, v)) p.1 (rw same at u.0) ∙ rw same (self s v))
    | inr e ↦
        rw e (view-foldl d (step s (m, v)) p.1 u.1 ∙ ap (on one (lookup n d)) (other s m v p.0 e))
  ]
