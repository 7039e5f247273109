-- ===== src/Policy/Records.antt =====
-- The records at a name, in a zone with external domains.
use alderpoint_dns.Base.{
  Text, Bool, true, false, not, ◌&&◌, ◌||◌, List, [], ◌∷◌, any, any-append, All, teq, teq→eq,
  if◌then◌else◌, ◌≡◌, ◌∙◌, arith, Bool-cases, inl, inr,
}
use alderpoint_dns.Rules.Rpz.{Rdata, nxdomain, Line, Output, wild, mem, emit}
use alderpoint_dns.Rules.Rpz.Owners.{IsPlain, wild-ne, ne-wild, wild-wild}
use alderpoint_dns.Policy.{rpz_name, emit_external, emit_externals}

abbrev pub is_nxdomain : Rdata → Bool
is_nxdomain nxdomain = true
is_nxdomain _ = false

-- A record at an owner, with data of some kind.
unfoldable pub record_at : (Rdata → Bool) → Text → List Line → Bool
record_at kind owner = any (λ (l : Line). teq l.owner owner && kind l.rdata)

-- A record that makes the zone answer NXDOMAIN at an owner.
abbrev pub blocks_at : Text → List Line → Bool
blocks_at = record_at is_nxdomain

abbrev pub is_any : Rdata → Bool
is_any _ = true

-- A record of any kind.
abbrev pub has_owner : Text → List Line → Bool
has_owner = record_at is_any

-- Of each kind of data that the external records are of.
module _ (kind : Rdata → Bool) (blocking : kind nxdomain ≡ true) where
  record_at-emit :
      (o owner : Text) (out : Output)
      → record_at kind o (emit owner nxdomain out).lines
        ≡ (record_at kind o out.lines || teq owner o)
  unfolding record_at any
  record_at-emit o owner out =
      any-append (λ (l : Line). teq l.owner o && kind l.rdata) out.lines
        (record { owner = owner; rdata = nxdomain } ∷ [])
      ∙ rw blocking (ground arith)

  record_at-emit_free :
      (o owner : Text) (occupied : List Text) (out : Output)
      → record_at kind o (if mem owner occupied then out else emit owner nxdomain out).lines
        ≡ (record_at kind o out.lines || (not (mem owner occupied) && teq owner o))
  record_at-emit_free o owner occupied out = elim (Bool-cases (mem owner occupied)) [
    | inl e ↦ rw e (ground (arith))
    | inr e ↦ rw e (record_at-emit o owner out)
  ]

  -- At the name itself.
  record_here-external :
      (n : Text)
      → IsPlain n
      → (occupied : List Text) (d : Text) (out : Output)
      → record_at kind n (emit_external occupied d out).lines
        ≡ (record_at kind n out.lines || (not (mem n occupied) && teq (rpz_name d) n))
  unfolding emit_external
  record_here-external n p occupied d out =
      record_at-emit_free n (wild (rpz_name d)) occupied _
      ∙ rw (wild-ne (rpz_name d) n p, record_at-emit_free n (rpz_name d) occupied out)
          (elim (Bool-cases (teq (rpz_name d) n)) [
            | inl e ↦ rw (e, teq→eq (rpz_name d) n e) (ground arith)
            | inr e ↦ rw e (ground arith)
          ])

  -- At its wildcard.
  record_below-external :
      (n : Text) (occupied : List Text) (d : Text) (out : Output)
      → IsPlain (rpz_name d)
      → record_at kind (wild n) (emit_external occupied d out).lines
        ≡ (record_at kind (wild n) out.lines || (not (mem (wild n) occupied) && teq (rpz_name d) n))
  unfolding emit_external
  record_below-external n occupied d out p =
      record_at-emit_free (wild n) (wild (rpz_name d)) occupied _
      ∙ rw
          (
            record_at-emit_free (wild n) (rpz_name d) occupied out,
            ne-wild (rpz_name d) n p,
            wild-wild (rpz_name d) n,
          )
          (elim (Bool-cases (teq (rpz_name d) n)) [
            | inl e ↦ rw (e, teq→eq (rpz_name d) n e) (ground arith)
            | inr e ↦ rw e (ground arith)
          ])

  pub record_here-externals :
      (n : Text)
      → IsPlain n
      → (occupied ds : List Text) (out : Output)
      → record_at kind n (emit_externals occupied ds out).lines
        ≡ (record_at kind n out.lines || (not (mem n occupied) && any (λ d. teq (rpz_name d) n) ds))
  unfolding emit_externals any
  record_here-externals n p occupied [] out = ground arith
  record_here-externals n p occupied (d ∷ ds) out =
      record_here-externals n p occupied ds (emit_external occupied d out)
      ∙ rw (record_here-external n p occupied d out) (ground arith)

  pub record_below-externals :
      (n : Text) (occupied ds : List Text) (out : Output)
      → All (λ d. IsPlain (rpz_name d)) ds
      → record_at kind (wild n) (emit_externals occupied ds out).lines ≡ (
          record_at kind (wild n) out.lines
          || (not (mem (wild n) occupied) && any (λ d. teq (rpz_name d) n) ds))
  unfolding emit_externals any
  record_below-externals n occupied [] out h = ground arith
  record_below-externals n occupied (d ∷ ds) out h =
      record_below-externals n occupied ds (emit_external occupied d out) h.1
      ∙ rw (record_below-external n occupied d out h.0) (ground arith)
