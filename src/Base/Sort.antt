-- ===== src/Base/Sort.antt =====
-- `sorted`: insertion of each key before the first that is not smaller, so that equal keys keep
-- their order.
use mathlib.Core.Path.{◌≡◌, refl, ◌∙◌}
use mathlib.Core.Logic.{inl, inr}
use mathlib.Core.Option.{some, none}
use mathlib.Core.List.{[], ◌∷◌}
use native.Mathlib.Omega.{arith}
use alderpoint_dns.Base.Tests.{if◌then◌else◌, Bool-cases}
use alderpoint_dns.Base.Texts.{Text, teq, teq_iff, tle, tle_refl}
use alderpoint_dns.Base.Dict.{Dict, lookup, IsUnique, Each}

module _ {ℓ} {V : Type ℓ} where
  unfoldable pub place : Text → V → Dict V → Dict V
  place k v [] = (k, v) ∷ []
  place k v ((j, w) ∷ d) = if tle k j then (k, v) ∷ (j, w) ∷ d else (j, w) ∷ place k v d

  unfoldable pub sorted : Dict V → Dict V
  unfolding place
  sorted [] = []
  sorted ((k, v) ∷ d) = place k v (sorted d)

  lookup-place :
      (k j : Text) (v : V) (d : Dict V)
      → lookup j (place k v d) ≡ (if teq k j then some v else lookup j d)
  unfolding place lookup
  lookup-place k j v [] = refl
  lookup-place k j v ((i, w) ∷ d) =
      ground (arith, teq_iff k j, teq_iff i j, tle_refl i, lookup-place k j v d)

  -- Sorting moves the items and changes none.
  pub lookup-sorted : (j : Text) (d : Dict V) → lookup j (sorted d) ≡ lookup j d
  unfolding sorted lookup
  lookup-sorted j [] = refl
  lookup-sorted j ((k, v) ∷ d) = lookup-place k j v (sorted d) ∙ ground (arith, lookup-sorted j d)

  place-IsUnique :
      (k : Text) (v : V) (d : Dict V) → lookup k d ≡ none → IsUnique d → IsUnique (place k v d)
  unfolding place lookup
  place-IsUnique k v [] a u = (refl, tt)
  place-IsUnique k v ((j, w) ∷ d) a u = elim (Bool-cases (tle k j)) [
    | inl e ↦ rw e (a, u)
    | inr e ↦ rw e (
      ground (arith, lookup-place k j v d, teq_iff k j, teq_iff j k),
      place-IsUnique k v d (ground arith) u.1,
    )
  ]

  pub sorted-IsUnique : (d : Dict V) → IsUnique d → IsUnique (sorted d)
  unfolding sorted
  sorted-IsUnique [] u = tt
  sorted-IsUnique ((k, v) ∷ d) u =
      place-IsUnique k v (sorted d) (lookup-sorted k d ∙ u.0) (sorted-IsUnique d u.1)

  place-Each {κ} :
      (P : Text → V → Type κ) (k : Text) (v : V) (d : Dict V)
      → P k v
      → Each P d
      → Each P (place k v d)
  unfolding place
  place-Each P k v [] p h = (p, tt)
  place-Each P k v ((j, w) ∷ d) p h = elim (Bool-cases (tle k j)) [
    | inl e ↦ rw e (p, h)
    | inr e ↦ rw e (h.0, place-Each P k v d p h.1)
  ]

  pub sorted-Each {κ} : (P : Text → V → Type κ) (d : Dict V) → Each P d → Each P (sorted d)
  unfolding sorted
  sorted-Each P [] h = tt
  sorted-Each P ((k, v) ∷ d) h = place-Each P k v (sorted d) h.0 (sorted-Each P d h.1)
