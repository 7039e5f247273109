-- ===== src/Rules/Store/Tests.antt =====
-- A small table, made by the operations, and the theorems about the table at it.
use alderpoint_dns.Base.{
  ◌+◌, Text, codes, true, false, none, some, List, [], ◌∷◌, map, ◌≡◌, refl, All, any, all, keep,
  teq, length,
}
use alderpoint_dns.Base.Str.{
  is_space, starts_with, ends_with, mem_char, has, strip_left, strip_right, strip_by, strip, drop,
  take, drop_last, char_at, partition, find, split, words, is_break, split_lines, join, is_digit,
  is_hex, is_letter, is_control, lower_ascii, upper_ascii,
}
use alderpoint_dns.Net.{ip_address, is_v4}
use alderpoint_dns.Platform.{is_ascii, lower, upper, is_alnum}
use alderpoint_dns.Domain.{
  is_edge_char, is_label_char, last_char, is_label, matches_domain_re, looks_like_ip_literal,
  accept_ascii, normalize_domain,
}
use alderpoint_dns.Rules.Regex.{
  class_body, class_members, class_end, scan_posix, posix_ere_incompatibility, scan_nested,
  nested_quantifier_risk, deployed_pattern,
}
use alderpoint_dns.Rules.Parse.Modifiers.{
  invalid, unsupported, validate_regex, parse_dnsrewrite_parts, parse_dnsrewrite, apply_modifier,
  apply_modifiers, parse_modifiers,
}
use alderpoint_dns.Rules.Parse.Line.{
  last_separator, regex_parts, is_open, parse_regex_rule, host_rule, parse_hosts_line,
  normalized_form, cut_terminator, anchored, parse_domain_rule, parse_rule,
}
use alderpoint_dns.Rules.Store.{
  find_duplicate, next_id, insert_rule, insert_rules, add_rule, count_state, count_report,
  count_reports, add_lines, add_rules_bulk, get_rule, change_row, set_enabled, toggle_rule,
  delete_rule, bulk_set_enabled, bulk_delete, replace_rule, update_rule,
}
use alderpoint_dns.Platform.{plain_python}
use alderpoint_dns.Rules.Types.{Row, is_active}
use alderpoint_dns.Rules.Evaluate.{is_rewrite, is_allow, is_block}
use alderpoint_dns.Rules.Active.{collect_active}
use alderpoint_dns.Rules.Rpz.{wild, rpz_records}
use alderpoint_dns.Rules.Rpz.Owners.{answers}
use alderpoint_dns.Rules.Rpz.Agreement.{ruling, verdict}
use alderpoint_dns.Rules.Rpz.Refinement.{rules_at, rules_above, IsLevel}
use alderpoint_dns.Rules.Store.{Insertion, duplicate, Report}
use alderpoint_dns.Rules.Store.Good.{IsGoodTable}
use alderpoint_dns.Rules.Store.Invariant.{Reachable, start, after, adds, Reachable-IsGoodTable}
use alderpoint_dns.Rules.Store.Deployed.{deployed_here-eq-verdict, deployed_below-eq-verdict}
use alderpoint_dns.Rules.Store.Adding.{stored, add_rules_bulk-stored}
use alderpoint_dns.Rules.Store.Counts.{IsBalanced, rule_counts, rule_counts-IsBalanced}
use alderpoint_dns.Rules.Store.Reimport.{add_rules_bulk_again}

program : Unit {0}
unfolding any all keep teq is_rewrite is_allow is_block is_space starts_with ends_with mem_char has
    strip_left strip_right strip_by strip drop take drop_last char_at partition find split words
    is_break split_lines join is_digit is_hex is_letter is_control lower_ascii upper_ascii
    ip_address is_v4 is_ascii lower upper is_alnum is_edge_char is_label_char last_char is_label
    matches_domain_re looks_like_ip_literal accept_ascii normalize_domain class_body class_members
    class_end scan_posix posix_ere_incompatibility scan_nested nested_quantifier_risk
    deployed_pattern invalid unsupported validate_regex parse_dnsrewrite_parts parse_dnsrewrite
    apply_modifier apply_modifiers parse_modifiers last_separator regex_parts is_open
    parse_regex_rule host_rule parse_hosts_line normalized_form cut_terminator anchored
    parse_domain_rule parse_rule find_duplicate next_id insert_rule insert_rules add_rule
    count_state count_report count_reports add_lines add_rules_bulk get_rule change_row set_enabled
    toggle_rule delete_rule bulk_set_enabled bulk_delete replace_rule update_rule
program = tt

abbrev by_hand : Insertion
by_hand = record {
  source_system = codes "manual";
  comment = [];
  enabled = true;
  import_job_id = none;
  plain = true;
  now = codes "2026-01-01";
}

abbrev imported : Insertion
imported = record by_hand {
  source_system = codes "pihole";
  enabled = false;
  import_job_id = some 1;
}

abbrev ads_rule : Text
ads_rule = codes "||ads.example^"

abbrev ads : Text
ads = codes "ads.example"

one_rule : List Row
one_rule = (add_rule plain_python by_hand ads_rule []).0

abbrev important_again : List Row × List Report
important_again = add_rule plain_python by_hand (codes "||ads.example^$important") one_rule

-- The normal form leaves the priority out: the important rule counts as a duplicate.
important_is_duplicate :
    (map (λ (r : Report). r.status) important_again.1 ≡ duplicate ∷ [])
    × (map (λ (r : Row). r.priority) important_again.0 ≡ 0 ∷ [])
unfolding program one_rule
important_is_duplicate = (refl, refl)

one_rule-Reachable : Reachable plain_python one_rule
unfolding one_rule
one_rule-Reachable = after [] one_rule start (adds by_hand ads_rule [])

Reachable-IsGoodTable_example : IsGoodTable plain_python one_rule
Reachable-IsGoodTable_example = Reachable-IsGoodTable plain_python one_rule one_rule-Reachable

deployed_here-eq-verdict_example :
    ruling (answers ads (rpz_records (collect_active one_rule)).lines)
    ≡ verdict (rules_at ads one_rule)
deployed_here-eq-verdict_example =
    deployed_here-eq-verdict plain_python ads one_rule refl one_rule-Reachable

one_rule-IsLevel : All (IsLevel ads 0) (keep is_active one_rule)
unfolding program one_rule
one_rule-IsLevel = ((λ e. refl, λ e. refl), tt)

deployed_below-eq-verdict_example :
    ruling (answers (wild ads) (rpz_records (collect_active one_rule)).lines)
    ≡ verdict (rules_above ads one_rule)
deployed_below-eq-verdict_example =
    deployed_below-eq-verdict plain_python ads 0 one_rule refl one_rule-IsLevel one_rule-Reachable

add_rules_bulk-stored_example :
    length (add_rules_bulk plain_python by_hand ads_rule one_rule).0
    ≡ length one_rule + stored (add_rules_bulk plain_python by_hand ads_rule one_rule).1
add_rules_bulk-stored_example = add_rules_bulk-stored plain_python by_hand ads_rule one_rule

add_rules_bulk_again_example :
    (add_rules_bulk plain_python imported ads_rule
      (add_rules_bulk plain_python by_hand ads_rule []).0).0
    ≡ (add_rules_bulk plain_python by_hand ads_rule []).0
add_rules_bulk_again_example = add_rules_bulk_again plain_python by_hand imported ads_rule [] refl

rule_counts-IsBalanced_example : IsBalanced (rule_counts one_rule)
rule_counts-IsBalanced_example = rule_counts-IsBalanced plain_python one_rule one_rule-Reachable
