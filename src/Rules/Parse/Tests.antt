-- ===== src/Rules/Parse/Tests.antt =====
-- Lines in the syntaxes that `parse_rule` reads, and what it returns.
use alderpoint_dns.Base.{Text, codes, Bool, true, Option, some, [], ◌∷◌, map, ◌≡◌, refl, All}
use alderpoint_dns.Platform.{plain_python}
use alderpoint_dns.Domain.{matches_domain_re, normalize_domain}
use alderpoint_dns.Base.Str.{
  is_space, starts_with, ends_with, mem_char, has, strip_left, strip_right, strip_by, strip, drop,
  take, drop_last, char_at, partition, find, split, words, is_break, split_lines, join, is_digit,
  is_hex, is_letter, is_control, lower_ascii, upper_ascii,
}
use alderpoint_dns.Net.{ip_address, is_v4}
use alderpoint_dns.Platform.{is_ascii, lower, upper, is_alnum}
use alderpoint_dns.Domain.{
  is_edge_char, is_label_char, last_char, is_label, matches_domain_re, looks_like_ip_literal,
  accept_ascii, normalize_domain,
}
use alderpoint_dns.Rules.Regex.{
  class_body, class_members, class_end, scan_posix, posix_ere_incompatibility, scan_nested,
  nested_quantifier_risk, deployed_pattern,
}
use alderpoint_dns.Rules.Parse.Modifiers.{
  invalid, unsupported, validate_regex, parse_dnsrewrite_parts, parse_dnsrewrite, apply_modifier,
  apply_modifiers, parse_modifiers,
}
use alderpoint_dns.Rules.Parse.Line.{
  last_separator, regex_parts, is_open, parse_regex_rule, host_rule, parse_hosts_line,
  normalized_form, cut_terminator, anchored, parse_domain_rule, parse_rule,
}
use alderpoint_dns.Base.{any, all, keep, teq}
use alderpoint_dns.Rules.Types.{ParsedRule, RuleType}
use alderpoint_dns.Rules.Parse.Line.{parse_rule}
use alderpoint_dns.Rules.Parse.Sound.{IsSound}
use alderpoint_dns.Rules.Parse.Sound.Lines.{parse_rule-IsSound}

program : Unit {0}
unfolding any all keep teq is_space starts_with ends_with mem_char has strip_left strip_right
    strip_by strip drop take drop_last char_at partition find split words is_break split_lines join
    is_digit is_hex is_letter is_control lower_ascii upper_ascii ip_address is_v4 is_ascii lower
    upper is_alnum is_edge_char is_label_char last_char is_label matches_domain_re
    looks_like_ip_literal accept_ascii normalize_domain class_body class_members class_end
    scan_posix posix_ere_incompatibility scan_nested nested_quantifier_risk deployed_pattern invalid
    unsupported validate_regex parse_dnsrewrite_parts parse_dnsrewrite apply_modifier
    apply_modifiers parse_modifiers last_separator regex_parts is_open parse_regex_rule host_rule
    parse_hosts_line normalized_form cut_terminator anchored parse_domain_rule parse_rule
program = tt

abbrev seen : ParsedRule → RuleType × Option Text × Bool × Text
seen r = (r.rule_type, r.domain, r.match_subdomains, r.normalized)

parsed_block :
    map seen (parse_rule plain_python true (codes "||Ads.Example^$important"))
    ≡ (RuleType.block, some (codes "ads.example"), true, codes "||ads.example^") ∷ []
unfolding program
parsed_block = refl

parse_rule-IsSound_example :
    All (IsSound plain_python) (parse_rule plain_python true (codes "||Ads.Example^$important"))
parse_rule-IsSound_example = parse_rule-IsSound plain_python true (codes "||Ads.Example^$important")

ads_name : normalize_domain plain_python (codes " Ads.Example. ") ≡ some (codes "ads.example")
unfolding program
ads_name = refl
