-- ===== src/Sources/Count.antt =====
-- app/alderpointdns_compiler.py: `parse_rule_lines`, which counts what the lines of a source say.
pub mod Sums
pub mod Members
use alderpoint_dns.Base.{
  ℕ, suc, ◌+◌, ◌-◌, Text, codes, Bool, true, false, not, ◌&&◌, ◌||◌, Option, none, some, List, [],
  ◌∷◌, ◌++◌, any, length, ltb, if◌then◌else◌,
}
use alderpoint_dns.Base.Str.{strip, starts_with, ends_with, take, split_lines}
use alderpoint_dns.Platform.{Platform}
use alderpoint_dns.Rules.Types.{Action}
use alderpoint_dns.Sources.Types.{
  Rejection, invalid, unsupported, Verdict, skip, rejected, accepted, Sample, Stats, same_domain,
  Domains,
}
use alderpoint_dns.Sources.Line.{parse_source_line}

-- The blocks, the allows and the counts so far.
pub record Parsed : Type 0 where
  pub blocks : Domains
  pub allows : Domains
  pub stats : Stats

unfoldable pub contains : Option Text → Domains → Bool
contains domain = any (same_domain domain)

abbrev pub is_allow : Action → Bool
is_allow Action.allow = true
is_allow _ = false

abbrev kind_text : Rejection → Text
kind_text invalid = codes "invalid"
kind_text unsupported = codes "unsupported"

abbrev or_entry : Text → Rejection → Text
or_entry [] kind = kind_text kind ++ codes " entry"
or_entry (c ∷ cs) kind = c ∷ cs

abbrev pub sample_cap : ℕ
sample_cap = 20

-- The first twenty rejected entries are kept as samples.
abbrev pub add_sample : Sample → List Sample → List Sample
add_sample s samples = if ltb (length samples) sample_cap then samples ++ s ∷ [] else samples

unfoldable pub reject : ℕ → Text → Rejection → Text → Stats → Stats
reject line raw invalid reason s = record s {
  invalid_rules = suc s.invalid_rules;
  rejected_samples =
      add_sample
        (record {
          line = line;
          kind = invalid;
          reason = or_entry reason invalid;
          excerpt = take 120 raw;
        })
        s.rejected_samples;
}
reject line raw unsupported reason s = record s {
  unsupported_rules = suc s.unsupported_rules;
  rejected_samples =
      add_sample
        (record {
          line = line;
          kind = unsupported;
          reason = or_entry reason unsupported;
          excerpt = take 120 raw;
        })
        s.rejected_samples;
}

-- A domain that is new to its set.
unfoldable pub add_domain : Bool → Option Text → Parsed → Parsed
add_domain true domain p = record p {
  allows = p.allows ++ domain ∷ [];
  stats = record p.stats {
    accepted_domains = suc p.stats.accepted_domains;
    exceptions = suc p.stats.exceptions;
  };
}
add_domain false domain p = record p {
  blocks = p.blocks ++ domain ∷ [];
  stats = record p.stats { accepted_domains = suc p.stats.accepted_domains };
}

abbrev pub count_rule : Parsed → Parsed
count_rule p = record p { stats = record p.stats { parsed_rules = suc p.stats.parsed_rules } }

unfoldable pub accept : Bool → Option Text → Parsed → Parsed
unfolding add_domain contains
accept allow domain p =
    if contains domain (if allow then p.allows else p.blocks)
    then count_rule p
    else add_domain allow domain (count_rule p)

unfoldable pub count_verdict : ℕ → Text → Verdict → Parsed → Parsed
unfolding accept reject
count_verdict line raw skip p = p
count_verdict line raw (rejected kind reason) p = record p {
  stats = reject line raw kind reason p.stats;
}
count_verdict line raw (accepted action domain) p = accept (is_allow action) domain p

unfoldable pub count_verdicts : ℕ → Text → List Verdict → Parsed → Parsed
count_verdicts line raw [] p = p
count_verdicts line raw (v ∷ vs) p = count_verdicts line raw vs (count_verdict line raw v p)

abbrev is_blank : Text → Bool
is_blank [] = true
is_blank (_ ∷ _) = false

-- A blank line, a comment, or the heading of a list.
unfoldable pub is_passed_over : Text → Bool
is_passed_over raw =
    (is_blank raw
      || (starts_with (codes "#") raw
          || (starts_with (codes "!") raw || starts_with (codes "//") raw)))
    || (starts_with (codes "[") raw && ends_with (codes "]") raw)

abbrev pub count_entry : Parsed → Parsed
count_entry p = record p {
  stats = record p.stats { downloaded_entries = suc p.stats.downloaded_entries };
}

unfoldable pub count_line : Platform → ℕ → Text → Parsed → Parsed
unfolding is_passed_over
count_line py line raw p =
    if is_passed_over raw
    then p
    else count_verdicts line raw (parse_source_line py raw) (count_entry p)

unfoldable pub count_lines : Platform → ℕ → List Text → Parsed → Parsed
count_lines py line [] p = p
count_lines py line (text ∷ texts) p =
    count_lines py (suc line) texts (count_line py line (strip text) p)

abbrev pub empty : Parsed
empty = record {
  blocks = [];
  allows = [];
  stats = record {
    downloaded_entries = 0;
    parsed_rules = 0;
    accepted_domains = 0;
    duplicate_domains = 0;
    invalid_rules = 0;
    unsupported_rules = 0;
    unique_active_domains = 0;
    exceptions = 0;
    rejected_samples = [];
  };
}

-- The two counts that are made at the end.
abbrev pub finish : Parsed → Parsed
finish p = record p {
  stats = record p.stats {
    unique_active_domains = length p.blocks;
    duplicate_domains = p.stats.parsed_rules - p.stats.accepted_domains;
  };
}

unfoldable pub parse_rule_lines : Platform → List Text → Parsed
unfolding count_lines
parse_rule_lines py lines = finish (count_lines py 1 lines empty)

unfoldable pub parse_rules : Platform → Text → Parsed
unfolding parse_rule_lines
parse_rules py content = parse_rule_lines py (split_lines content)
