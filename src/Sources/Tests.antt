-- ===== src/Sources/Tests.antt =====
-- Lines of sources, and what two sources make together.
use alderpoint_dns.Base.{
  ℕ, Text, codes, true, false, not, ◌&&◌, some, List, [], ◌∷◌, length, map, All, ◌≡◌, refl,
}
use alderpoint_dns.Platform.{plain_python}
use alderpoint_dns.Rules.Types.{Action}
use alderpoint_dns.Sources.Types.{skip, accepted, Stats}
use alderpoint_dns.Sources.Line.Names.{IsNamed, parse_source_line-IsNamed}
use alderpoint_dns.Sources.Count.Sums.{IsBalanced, parse_rule_lines-IsBalanced}
use alderpoint_dns.Sources.Count.Members.{puts, HasNames, parse_rule_lines-HasNames}
use alderpoint_dns.Sources.Collect.{Source}
use alderpoint_dns.Sources.Collect.Shares.{total, AddsUp, total-collect_rules, collect_rules-AddsUp}
use alderpoint_dns.Sources.Collect.Active.{contains-collect_rules}
use alderpoint_dns.Base.{teq, tle}
use alderpoint_dns.Base.{keep, any, all}
use alderpoint_dns.Base.Str.{
  is_space, starts_with, ends_with, mem_char, has, strip_left, strip_right, strip_by, strip, drop,
  take, drop_last, char_at, partition, find, split, words, is_break, split_lines, join, is_digit,
  is_hex, is_letter, is_control, lower_ascii, upper_ascii,
}
use alderpoint_dns.Net.{value_of, parse_v4, parse_v6, ip_address, decimal, is_v4}
use alderpoint_dns.Platform.{is_ascii, lower, upper, is_alnum}
use alderpoint_dns.Domain.{
  is_edge_char, is_label_char, last_char, is_label, matches_domain_re, looks_like_ip_literal,
  accept_ascii, normalize_domain,
}
use alderpoint_dns.Rules.Regex.{
  class_body, class_members, class_end, scan_posix, posix_ere_incompatibility, scan_nested,
  nested_quantifier_risk, deployed_pattern,
}
use alderpoint_dns.Rules.Parse.Modifiers.{
  invalid, unsupported, validate_regex, parse_dnsrewrite_parts, parse_dnsrewrite, apply_modifier,
  apply_modifiers, parse_modifiers,
}
use alderpoint_dns.Rules.Parse.Line.{
  last_separator, regex_parts, is_open, parse_regex_rule, host_rule, parse_hosts_line,
  normalized_form, cut_terminator, anchored, parse_domain_rule, parse_rule,
}
use alderpoint_dns.Sources.Line.{
  is_localhost, adguard_blockpage_normalize, could_be_ip_literal, is_hosts_line, is_fast_char,
  fast_candidate, fast_of, fast_common_source_rule, host_verdict, hosts_verdicts, valid_verdict,
  rule_verdicts, parse_source_line,
}
use alderpoint_dns.Sources.Count.{
  contains, reject, add_domain, accept, count_verdict, count_verdicts, is_passed_over, count_line,
  count_lines, parse_rule_lines, parse_rules,
}
use alderpoint_dns.Sources.Count.Members.{some_line}
use alderpoint_dns.Sources.Collect.{
  union, minus, parse_source, parse_sources, all_blocks, all_allows, share, shares, collect_rules,
}
use alderpoint_dns.Sources.Collect.Active.{some_source}

program : Unit {0}
unfolding teq tle keep any all is_space starts_with ends_with mem_char has strip_left strip_right
    strip_by strip drop take drop_last char_at partition find split words is_break split_lines join
    is_digit is_hex is_letter is_control lower_ascii upper_ascii value_of parse_v4 parse_v6
    ip_address decimal is_v4 is_ascii lower upper is_alnum is_edge_char is_label_char last_char
    is_label matches_domain_re looks_like_ip_literal accept_ascii normalize_domain class_body
    class_members class_end scan_posix posix_ere_incompatibility scan_nested nested_quantifier_risk
    deployed_pattern invalid unsupported validate_regex parse_dnsrewrite_parts parse_dnsrewrite
    apply_modifier apply_modifiers parse_modifiers last_separator regex_parts is_open
    parse_regex_rule host_rule parse_hosts_line normalized_form cut_terminator anchored
    parse_domain_rule parse_rule is_localhost adguard_blockpage_normalize could_be_ip_literal
    is_hosts_line is_fast_char fast_candidate fast_of fast_common_source_rule host_verdict
    hosts_verdicts valid_verdict rule_verdicts parse_source_line contains reject add_domain accept
    count_verdict count_verdicts is_passed_over count_line count_lines parse_rule_lines parse_rules
    some_line union minus parse_source parse_sources all_blocks all_allows share shares
    collect_rules some_source
program = tt

-- The fast path takes an alias of the local host for a domain; the hosts format passes it over.
alias_lines :
    (parse_source_line plain_python (codes "||localhost.localdomain^")
      ≡ accepted Action.block (some (codes "localhost.localdomain")) ∷ [])
    × (parse_source_line plain_python (codes "0.0.0.0 localhost.localdomain") ≡ skip ∷ [])
unfolding program
alias_lines = (refl, refl)

first_lines : List Text
first_lines =
    codes "! a list"
    ∷ codes "||ads.example^"
    ∷ codes "0.0.0.0 ads.example trk.example # hosts"
    ∷ codes "bad_line^^"
    ∷ []

second_lines : List Text
second_lines = codes "trk.example" ∷ codes "@@||ads.example^" ∷ codes "" ∷ []

abbrev sources : List Source
sources =
    record { id = 1; lines = some first_lines } ∷ record { id = 2; lines = some second_lines } ∷ []

abbrev counts : ℕ × Stats → ℕ × ℕ × ℕ
counts (_, s) = (s.parsed_rules, s.unique_active_domains, s.duplicate_domains)

-- The second source allows what the first blocks, and repeats the other name.
collected :
    ((collect_rules plain_python sources).active_blocks ≡ some (codes "trk.example") ∷ [])
    × (map counts (collect_rules plain_python sources).per_source ≡ (3, 2, 1) ∷ (2, 0, 1) ∷ [])
unfolding program first_lines second_lines
collected = (refl, refl)

parse_source_line-IsNamed_example :
    All IsNamed (parse_source_line plain_python (codes "||ads.example^$important"))
parse_source_line-IsNamed_example =
    parse_source_line-IsNamed plain_python (codes "||ads.example^$important")

parse_rule_lines-IsBalanced_example : IsBalanced (parse_rule_lines plain_python first_lines)
parse_rule_lines-IsBalanced_example = parse_rule_lines-IsBalanced plain_python first_lines

parse_rule_lines-HasNames_example : HasNames (parse_rule_lines plain_python first_lines)
parse_rule_lines-HasNames_example = parse_rule_lines-HasNames plain_python first_lines

total-collect_rules_example :
    total (collect_rules plain_python sources).per_source
    ≡ length (all_blocks (parse_sources plain_python sources) [])
total-collect_rules_example = total-collect_rules plain_python sources

collect_rules-AddsUp_example : All AddsUp (collect_rules plain_python sources).per_source
collect_rules-AddsUp_example = collect_rules-AddsUp plain_python sources

contains-collect_rules_example :
    contains (some (codes "trk.example")) (collect_rules plain_python sources).active_blocks ≡ (
      some_source plain_python (puts false (some (codes "trk.example"))) sources
      && not (some_source plain_python (puts true (some (codes "trk.example"))) sources))
contains-collect_rules_example =
    contains-collect_rules plain_python (some (codes "trk.example")) sources
