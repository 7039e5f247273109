-- ===== src/Policy/Status/Walk.antt =====
-- The match that `_rpz_status` takes: the name itself, or else the longest name above it that has a
-- wildcard.
use alderpoint_dns.Base.{
  ◌+◌, Text, Bool, true, false, ◌||◌, none, some, List, [], ◌∷◌, any, keep, ltb, ◌==◌, teq,
  if◌then◌else◌, ◌≡◌, refl, ap, ◌∙◌, arith, Bool-cases, inl, inr,
}
use alderpoint_dns.Base.Ends.{parents, count_dots}
use alderpoint_dns.Rules.Rpz.{Line, wild}
use alderpoint_dns.Rules.Rpz.Owners.{answers}
use alderpoint_dns.Policy.Records.{is_nxdomain, record_at, has_owner, blocks_at}
use alderpoint_dns.Policy.Status.{
  Candidate, better, wildcard_of, best_wildcard, status_of, rpz_status,
}

answers-blocks_at :
    (owner : Text) (lines : List Line)
    → any is_nxdomain (answers owner lines) ≡ blocks_at owner lines
unfolding answers record_at any keep
answers-blocks_at owner [] = refl
answers-blocks_at owner (l ∷ lines) = elim (Bool-cases (teq l.owner owner)) [
  | inl e ↦ rw e (ground (arith, answers-blocks_at owner lines))
  | inr e ↦ rw e (ground (arith, answers-blocks_at owner lines))
]

-- The answer of the first name at which something stands.
abbrev pub first_below : (Text → Bool) → (Text → Bool) → List Text → Bool
first_below stands stops [] = false
first_below stands stops (p ∷ ps) = if stands p then stops p else first_below stands stops ps

pub first_below_ext :
    (stands stops stands' stops' : Text → Bool)
    → ((p : Text) → stands p ≡ stands' p)
    → ((p : Text) → stops p ≡ stops' p)
    → (ps : List Text) → first_below stands stops ps ≡ first_below stands' stops' ps
first_below_ext stands stops stands' stops' e f [] = refl
first_below_ext stands stops stands' stops' e f (p ∷ ps) =
    rw (e p, f p, first_below_ext stands stops stands' stops' e f ps) refl

module _ (lines : List Line) where
  -- What is taken stays: the name itself, or a wildcard with more labels than what follows.
  outranked :
      (best : Candidate) (p : Text)
      → (best.exact || ltb (count_dots p + 1) best.labels) ≡ true
      → (b : Bool) → (if b then better (some best) (wildcard_of p) else some best) ≡ some best
  outranked best p h true = ground (arith, h)
  outranked best p h false = refl

  best_wildcard-taken :
      (best : Candidate) (s : Text)
      → (best.exact || ltb (count_dots s) best.labels) ≡ true
      → best_wildcard lines (some best) (parents s) ≡ some best
  unfolding best_wildcard parents count_dots
  best_wildcard-taken best [] h = refl
  best_wildcard-taken best (c ∷ s) h = elim (Bool-cases (c == b'.')) [
    | inl e ↦ rw e (
        ap (λ b. best_wildcard lines b (parents s))
          (outranked best s (ground (arith, e, h)) (has_owner (wild s) lines))
        ∙ best_wildcard-taken best s (ground (arith, e, h)))
    | inr e ↦ rw e (best_wildcard-taken best s (ground (arith, e, h)))
  ]

  status_of-best_wildcard :
      (s : Text)
      → (status_of lines (best_wildcard lines none (parents s))).blocked
        ≡ first_below (λ p. has_owner (wild p) lines) (λ p. blocks_at (wild p) lines) (parents s)
  unfolding best_wildcard parents
  status_of-best_wildcard [] = refl
  status_of-best_wildcard (c ∷ s) = elim (Bool-cases (c == b'.')) [
    | inl e ↦ rw e (at_dot (status_of-best_wildcard s) (has_owner (wild s) lines))
    | inr e ↦ rw e (status_of-best_wildcard s)
  ]
    where
      at_dot :
          (status_of lines (best_wildcard lines none (parents s))).blocked
            ≡ first_below
                (λ p. has_owner (wild p) lines)
                (λ p. blocks_at (wild p) lines)
                (parents s)
          → (b : Bool)
          → (status_of lines
              (best_wildcard lines (if b then some (wildcard_of s) else none) (parents s))).blocked
            ≡ (if b
                then blocks_at (wild s) lines
                else first_below
                    (λ p. has_owner (wild p) lines)
                    (λ p. blocks_at (wild p) lines)
                    (parents s))
      at_dot h true =
          ap (λ c. (status_of lines c).blocked)
            (best_wildcard-taken (wildcard_of s) s (ground arith))
          ∙ answers-blocks_at (wild s) lines
      at_dot h false = h

  -- The name itself, if the zone has it, and the first wildcard above it if not.
  pub rpz_status-first_below :
      (qname : Text)
      → (rpz_status (some lines) qname).blocked ≡ (
          if has_owner qname lines
          then blocks_at qname lines
          else first_below
              (λ p. has_owner (wild p) lines)
              (λ p. blocks_at (wild p) lines)
              (parents qname))
  unfolding rpz_status
  rpz_status-first_below qname = by_owner (has_owner qname lines)
    where
      exact : Candidate
      exact = record { exact = true; labels = count_dots qname + 1; owner = qname }

      by_owner :
          (b : Bool)
          → (status_of lines
              (best_wildcard lines (if b then some exact else none) (parents qname))).blocked
            ≡ (if b
                then blocks_at qname lines
                else first_below
                    (λ p. has_owner (wild p) lines)
                    (λ p. blocks_at (wild p) lines)
                    (parents qname))
      by_owner true =
          ap (λ c. (status_of lines c).blocked) (best_wildcard-taken exact qname refl)
          ∙ answers-blocks_at qname lines
      by_owner false = status_of-best_wildcard qname
