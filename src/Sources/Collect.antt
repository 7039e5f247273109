-- ===== src/Sources/Collect.antt =====
-- app/alderpointdns_compiler.py: what `collect_rules` computes from the files of the enabled sources,
-- in the order of their ids. The downloads, the files and the cache of parsed
-- files are not modelled: a source comes with its lines, or with `none` where it has no file.
pub mod Shares
pub mod Active
use alderpoint_dns.Base.{
  ℕ, ◌+◌, ◌-◌, Text, Bool, true, false, not, ◌&&◌, ◌||◌, Option, none, some, List, [], ◌∷◌, ◌++◌,
  any, keep, length, ltb, ◌==◌, if◌then◌else◌,
}
use alderpoint_dns.Platform.{Platform}
use alderpoint_dns.Sources.Types.{Stats, Domains}
use alderpoint_dns.Sources.Count.{Parsed, contains, empty, parse_rule_lines}

pub record Source : Type 0 where
  pub id : ℕ
  pub lines : Option (List Text)

-- `s.update(t)`, and `s - t`
unfoldable pub union : Domains → Domains → Domains
unfolding contains
union s [] = s
union s (d ∷ t) = if contains d s then union s t else union (s ++ d ∷ []) t

unfoldable pub minus : Domains → Domains → Domains
unfolding contains
minus s t = keep (λ d. not (contains d t)) s

-- The first loop: the sets of every source, and its counts.
unfoldable pub parse_source : Platform → Option (List Text) → Parsed
parse_source py none = empty
parse_source py (some lines) = parse_rule_lines py lines

unfoldable pub parse_sources : Platform → List Source → List (ℕ × Parsed)
parse_sources py [] = []
parse_sources py (s ∷ sources) = (s.id, parse_source py s.lines) ∷ parse_sources py sources

unfoldable pub all_blocks : List (ℕ × Parsed) → Domains → Domains
all_blocks [] s = s
all_blocks ((_, p) ∷ parsed) s = all_blocks parsed (union s p.blocks)

unfoldable pub all_allows : List (ℕ × Parsed) → Domains → Domains
all_allows [] s = s
all_allows ((_, p) ∷ parsed) s = all_allows parsed (union s p.allows)

-- The second loop: a domain counts for the first source that has it.
unfoldable pub share : Domains → Parsed → Stats
unfolding minus
share seen p =
    let unique = length (minus p.blocks seen) in
    record p.stats {
      unique_active_domains = unique;
      duplicate_domains =
          (p.stats.parsed_rules - p.stats.accepted_domains) + (length p.blocks - unique);
    }

unfoldable pub shares : Domains → List (ℕ × Parsed) → List (ℕ × Stats)
unfolding share union
shares seen [] = []
shares seen ((id, p) ∷ parsed) = (id, share seen p) ∷ shares (union seen p.blocks) parsed

pub record Collected : Type 0 where
  pub active_blocks : Domains
  pub all_allowed : Domains
  pub per_source : List (ℕ × Stats)

unfoldable pub collect_rules : Platform → List Source → Collected
unfolding parse_sources all_blocks all_allows shares
collect_rules py sources =
    let parsed = parse_sources py sources in
    record {
      active_blocks = minus (all_blocks parsed []) (all_allows parsed []);
      all_allowed = all_allows parsed [];
      per_source = shares [] parsed;
    }
