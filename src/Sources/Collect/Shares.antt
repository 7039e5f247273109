-- ===== src/Sources/Collect/Shares.antt =====
-- The shares of the sources add up.
use alderpoint_dns.Base.{
  ℕ, ◌+◌, ◌≤◌, Text, Bool, false, not, Option, none, some, List, [], ◌∷◌, ◌++◌, All, keep, length,
  ◌≡◌, refl, ◌∙◌, arith, Bool-cases, inl, inr,
}
use alderpoint_dns.Base.Tables.{IsApart}
use alderpoint_dns.Platform.{Platform}
use alderpoint_dns.Sources.Types.{Stats, same_domain, Domains}
use alderpoint_dns.Sources.Count.{Parsed, contains}
use alderpoint_dns.Sources.Count.Sums.{
  length-snoc, same_domain_sym, IsBalanced, parse_rule_lines-IsBalanced,
}
use alderpoint_dns.Sources.Count.Members.{contains-snoc}
use alderpoint_dns.Sources.Collect.{
  Source, union, minus, parse_source, parse_sources, all_blocks, share, shares, collect_rules,
}

abbrev pub total : List (ℕ × Stats) → ℕ
total [] = 0
total ((_, s) ∷ per_source) = s.unique_active_domains + total per_source

-- A domain that `t` does not repeat may be added to `s` first.
minus-snoc :
    (s t : Domains) (d : Option Text)
    → All (λ e. same_domain d e ≡ false) t
    → minus t (s ++ d ∷ []) ≡ minus t s
unfolding minus keep
minus-snoc s [] d h = refl
minus-snoc s (e ∷ t) d h =
    rw (contains-snoc e d s, same_domain_sym e d, h.0) (ground (arith, minus-snoc s t d h.1))

length-union :
    (s t : Domains) → IsApart same_domain t → length (union s t) ≡ length s + length (minus t s)
unfolding union minus keep
length-union s [] h = ground arith
length-union s (d ∷ t) h = elim (Bool-cases (contains d s)) [
  | inl e ↦ rw e (length-union s t h.1)
  | inr e ↦
      rw e
        (length-union (s ++ d ∷ []) t h.1 ∙ ground (arith, length-snoc s d, minus-snoc s t d h.0))
]

total-shares :
    (seen : Domains) (parsed : List (ℕ × Parsed))
    → All (λ (q : ℕ × Parsed). IsApart same_domain q.1.blocks) parsed
    → length (all_blocks parsed seen) ≡ length seen + total (shares seen parsed)
unfolding all_blocks shares share
total-shares seen [] h = ground arith
total-shares seen ((id, p) ∷ parsed) h =
    total-shares (union seen p.blocks) parsed h.1 ∙ ground (arith, length-union seen p.blocks h.0)

parse_source-IsBalanced :
    (py : Platform) (lines : Option (List Text)) → IsBalanced (parse_source py lines)
unfolding parse_source
parse_source-IsBalanced py none = record {
  blocks = tt;
  allows = tt;
  unique = refl;
  exceptions = refl;
  accepted = refl;
  parsed = refl;
  samples = refl;
}
parse_source-IsBalanced py (some lines) = parse_rule_lines-IsBalanced py lines

parsed_apart :
    (py : Platform) (sources : List Source)
    → All (λ (q : ℕ × Parsed). IsApart same_domain q.1.blocks) (parse_sources py sources)
unfolding parse_sources
parsed_apart py [] = tt
parsed_apart py (s ∷ sources) =
    ((parse_source-IsBalanced py s.lines).blocks, parsed_apart py sources)

-- The unique contributions of the sources add up to the size of the set of all blocks, before the
-- allows are taken away.
pub total-collect_rules :
    (py : Platform) (sources : List Source)
    → total (collect_rules py sources).per_source
      ≡ length (all_blocks (parse_sources py sources) [])
unfolding collect_rules
total-collect_rules py sources =
    ground (arith, total-shares [] (parse_sources py sources) (parsed_apart py sources))

length-keep {ℓ} : {A : Type ℓ} (p : A → Bool) (xs : List A) → length (keep p xs) ≤ length xs
unfolding keep
length-keep p [] = omega arith
length-keep p (x ∷ xs) = ground (arith, length-keep p xs)

-- What the operator is shown of one source adds up.
abbrev pub AddsUp : ℕ × Stats → Type 0
AddsUp (_, s) = s.parsed_rules ≡ s.duplicate_domains + (s.unique_active_domains + s.exceptions)

shares-AddsUp :
    (seen : Domains) (parsed : List (ℕ × Parsed))
    → All (λ (q : ℕ × Parsed). IsBalanced q.1) parsed
    → All AddsUp (shares seen parsed)
unfolding shares share minus
shares-AddsUp seen [] h = tt
shares-AddsUp seen ((id, p) ∷ parsed) h = (adds h.0, shares-AddsUp (union seen p.blocks) parsed h.1)
  where
    adds : IsBalanced p → AddsUp (id, share seen p)
    adds b = omega (
      arith,
      b.unique,
      b.exceptions,
      b.accepted,
      b.parsed,
      length-keep (λ d. not (contains d seen)) p.blocks,
    )

parsed-IsBalanced :
    (py : Platform) (sources : List Source)
    → All (λ (q : ℕ × Parsed). IsBalanced q.1) (parse_sources py sources)
unfolding parse_sources
parsed-IsBalanced py [] = tt
parsed-IsBalanced py (s ∷ sources) =
    (parse_source-IsBalanced py s.lines, parsed-IsBalanced py sources)

-- Of each source, the parsed rules are its duplicates, its unique domains and its exceptions
-- together.
pub collect_rules-AddsUp :
    (py : Platform) (sources : List Source) → All AddsUp (collect_rules py sources).per_source
unfolding collect_rules
collect_rules-AddsUp py sources =
    shares-AddsUp [] (parse_sources py sources) (parsed-IsBalanced py sources)
