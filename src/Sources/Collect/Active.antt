-- ===== src/Sources/Collect/Active.antt =====
-- The blocks that the sources together make.
use alderpoint_dns.Base.{
  Text, Bool, true, false, not, ◌&&◌, ◌||◌, Option, none, some, List, [], ◌∷◌, ◌++◌, any, keep, ◌≡◌,
  refl, ◌∙◌, arith,
}
use alderpoint_dns.Platform.{Platform}
use alderpoint_dns.Sources.Types.{Verdict, Domains}
use alderpoint_dns.Sources.Count.{contains}
use alderpoint_dns.Sources.Count.Members.{
  some_line, puts, set_of, contains-snoc, contains_same, contains-parse_rule_lines,
}
use alderpoint_dns.Sources.Collect.{
  Source, union, minus, parse_source, parse_sources, all_blocks, all_allows, collect_rules,
}

contains-union :
    (d : Option Text) (s t : Domains) → contains d (union s t) ≡ (contains d s || contains d t)
unfolding union contains any
contains-union d s [] = ground arith
contains-union d s (e ∷ t) = ground (
  arith,
  contains-union d s t,
  contains-union d (s ++ e ∷ []) t,
  contains-snoc d e s,
  contains_same d e s,
)

contains-minus :
    (d : Option Text) (s t : Domains)
    → contains d (minus s t) ≡ (contains d s && not (contains d t))
unfolding minus contains any keep
contains-minus d [] t = refl
contains-minus d (e ∷ s) t = ground (arith, contains-minus d s t, contains_same d e t)

-- A line of some source that has lines.
unfoldable pub some_source : Platform → (Verdict → Bool) → List Source → Bool
some_source py p [] = false
some_source py p (s ∷ sources) =
    elim s.lines [ none ↦ false | some lines ↦ some_line py p lines ] || some_source py p sources

contains-parse_source :
    (py : Platform) (side : Bool) (d : Option Text) (lines : Option (List Text))
    → contains d (set_of side (parse_source py lines))
      ≡ elim lines as (λ _. Bool) [ none ↦ false | some lines ↦ some_line py (puts side d) lines ]
unfolding parse_source contains any
contains-parse_source py true d none = refl
contains-parse_source py false d none = refl
contains-parse_source py side d (some lines) = contains-parse_rule_lines py side d lines

contains-all_blocks :
    (py : Platform) (d : Option Text) (sources : List Source) (s : Domains)
    → contains d (all_blocks (parse_sources py sources) s)
      ≡ (contains d s || some_source py (puts false d) sources)
unfolding all_blocks parse_sources some_source
contains-all_blocks py d [] s = ground arith
contains-all_blocks py d (source ∷ sources) s =
    contains-all_blocks py d sources (union s (parse_source py source.lines).blocks)
    ∙ rw
        (
          contains-union d s (parse_source py source.lines).blocks,
          contains-parse_source py false d source.lines,
        )
        (ground arith)

contains-all_allows :
    (py : Platform) (d : Option Text) (sources : List Source) (s : Domains)
    → contains d (all_allows (parse_sources py sources) s)
      ≡ (contains d s || some_source py (puts true d) sources)
unfolding all_allows parse_sources some_source
contains-all_allows py d [] s = ground arith
contains-all_allows py d (source ∷ sources) s =
    contains-all_allows py d sources (union s (parse_source py source.lines).allows)
    ∙ rw
        (
          contains-union d s (parse_source py source.lines).allows,
          contains-parse_source py true d source.lines,
        )
        (ground arith)

-- A domain is among the active blocks exactly if a line of some source blocks it and no line of
-- any source allows it.
pub contains-collect_rules :
    (py : Platform) (d : Option Text) (sources : List Source)
    → contains d (collect_rules py sources).active_blocks
      ≡ (some_source py (puts false d) sources && not (some_source py (puts true d) sources))
unfolding collect_rules any
contains-collect_rules py d sources =
    contains-minus d (all_blocks (parse_sources py sources) [])
      (all_allows (parse_sources py sources) [])
    ∙ ground (
      arith,
      contains-all_blocks py d sources [],
      contains-all_allows py d sources [],
      empty_set d,
    )
  where
    empty_set : (d : Option Text) → contains d [] ≡ false
    empty_set d = refl
