-- ===== src/Rules/Parse/Line.antt =====
-- app/custom_rules.py: `parse_rule` and the kinds of line that it tells apart.
use alderpoint_dns.Base.{
  ℕ, ◌+◌, Text, codes, Bool, true, false, not, ◌&&◌, ◌||◌, Option, none, some, List, [], ◌∷◌, ◌++◌,
  map, length, any, ltb, ◌==◌, teq, if◌then◌else◌,
}
use alderpoint_dns.Base.Str.{
  starts_with, ends_with, has, strip, strip_left, drop, take, drop_last, partition, find, words,
  split_lines, mem_char,
}
use alderpoint_dns.Net.{Address, ip_address, show_address, is_v4}
use alderpoint_dns.Platform.{Platform}
use alderpoint_dns.Domain.{normalize_domain}
use alderpoint_dns.Rules.Types.{RuleType, Action, ipv4, ipv6, ParsedRule, is_valid}
use alderpoint_dns.Rules.Parse.Modifiers.{
  new_rule, invalid, unsupported, validate_regex, parse_modifiers, blocking_sentinels,
  is_allow_action,
}

abbrev pub quoted : Text → Text → Text
quoted name rest = codes "'" ++ name ++ codes "'" ++ rest

abbrev pub is_rewrite_type : RuleType → Bool
is_rewrite_type RuleType.rewrite = true
is_rewrite_type _ = false

-- The texts before and after the last `/$`, where `rfind` is positive.
unfoldable pub last_separator : Text → Option (Text × Text)
unfolding starts_with
last_separator [] = none
last_separator (c ∷ s) = elim (last_separator s) [
  | some (before, after) ↦ some (c ∷ before, after)
  | none ↦ if starts_with (codes "/$") (c ∷ s) then some ([], drop 2 (c ∷ s)) else none
]

abbrev pub strip_allow : Text → Text
strip_allow raw = if starts_with (codes "@@") raw then drop 2 raw else raw

-- The body of a regex rule and its modifiers.
unfoldable pub regex_parts : Text → Text × Text
unfolding last_separator
regex_parts body = if ends_with (codes "/") body then (body, []) else elim (last_separator body) [
  | some (c ∷ before, after) ↦ (c ∷ before ++ codes "/", after)
  | _ ↦ (body, [])
]

abbrev pub regex_rule : Text → Bool → Text → ParsedRule
regex_rule raw is_allow pattern = record (new_rule raw) {
  normalized = (if is_allow then codes "@@" else []) ++ codes "/" ++ pattern ++ codes "/";
  rule_type = if is_allow then RuleType.regex_allow else RuleType.regex_block;
  action = if is_allow then Action.allow else Action.block;
  pattern = some pattern;
}

abbrev pub no_rewrite_regex : ParsedRule → ParsedRule
no_rewrite_regex rule =
    if is_rewrite_type rule.rule_type
    then unsupported rule (codes "modifier $dnsrewrite cannot be preserved on a regex rule")
    else rule

abbrev pub modified_regex : Platform → Text → ParsedRule → ParsedRule
modified_regex py [] rule = rule
modified_regex py (c ∷ modifiers) rule =
    if is_valid rule.validation_state
    then no_rewrite_regex (parse_modifiers py rule (c ∷ modifiers))
    else rule

unfoldable pub is_open : Text → Bool
unfolding starts_with ends_with
is_open body =
    ltb (length body) 3 || (not (starts_with (codes "/") body) || not (ends_with (codes "/") body))

unfoldable pub parse_regex_rule : Platform → Text → ParsedRule
parse_regex_rule py raw =
    let is_allow = starts_with (codes "@@") raw in
    let (body, modifiers) = regex_parts (strip_allow raw) in
    if is_open body
    then invalid raw (codes "regex rules must be enclosed in / /")
    else modified_regex py modifiers
        (validate_regex py (regex_rule raw is_allow (drop_last (drop 1 body))))

abbrev pub is_sentinel : Text → Bool
is_sentinel address = any (λ s. teq s address) blocking_sentinels

-- The rule of one host of a hosts line.
unfoldable pub host_rule : Platform → Text → Address → Text → Text → ParsedRule
host_rule py first ip comment host =
    let text = first ++ codes " " ++ host in
    elim (normalize_domain py host) [
      | none ↦ invalid text (quoted host (codes " is not a valid hostname"))
      | some domain ↦
          if is_sentinel (show_address ip)
          then record (new_rule text) {
            normalized = codes "|" ++ domain ++ codes "^";
            rule_type = RuleType.block;
            action = Action.block;
            domain = some domain;
            comment = comment;
          }
          else record (new_rule text) {
            normalized = show_address ip ++ codes " " ++ domain;
            rule_type = RuleType.rewrite;
            action = Action.rewrite;
            domain = some domain;
            rewrite_address = some (show_address ip);
            address_family = some (if is_v4 ip then ipv4 else ipv6);
            comment = comment;
          }
    ]

abbrev pub host_rules : Platform → Text → Text → Text → List Text → Option Address → List ParsedRule
host_rules py raw comment first hosts none = []
host_rules py raw comment first [] (some ip) =
    invalid raw (codes "hosts entry has no hostname") ∷ []
host_rules py raw comment first (h ∷ hosts) (some ip) =
    map (host_rule py first ip comment) (h ∷ hosts)

abbrev pub hosts_of : Platform → Text → Text → List Text → List ParsedRule
hosts_of py raw comment [] = []
hosts_of py raw comment (first ∷ hosts) = host_rules py raw comment first hosts (ip_address first)

-- A line that `parse_rule` hands over has a first word: it is not blank and begins with no `#`.
unfoldable pub parse_hosts_line : Platform → Text → List ParsedRule
parse_hosts_line py raw =
    let (body, _, inline) = partition b'#' raw in hosts_of py raw (strip inline) (words body)

abbrev domain_text : ParsedRule → Text
domain_text rule = elim rule.domain [ none ↦ codes "None" | some d ↦ d ]

abbrev address_text : ParsedRule → Text
address_text rule = elim rule.rewrite_address [ none ↦ codes "None" | some a ↦ a ]

unfoldable pub normalized_form : ParsedRule → Text
normalized_form rule =
    let anchor = if rule.match_subdomains then codes "||" else codes "|" in
    if is_rewrite_type rule.rule_type
    then anchor ++ domain_text rule ++ codes "^$dnsrewrite=" ++ address_text rule
    else (if is_allow_action rule.action then codes "@@" else [])
      ++ anchor
      ++ domain_text rule
      ++ codes "^"

-- A text up to a terminator behind which nothing stands; `none` if something does.
unfoldable pub cut_terminator : ℕ → Text → Option Text
cut_terminator c s = elim (find c s) [
  | none ↦ some s
  | some i ↦ elim (drop (i + 1) s) [ [] ↦ some (take i s) | _ ∷ _ ↦ none ]
]

-- The candidate for the domain, and whether the rule takes in subdomains.
unfoldable pub anchored : Bool → Text → Bool × Text
anchored plain base =
    if starts_with (codes "||") base
    then (true, drop 2 base)
    else if starts_with (codes "|") base
    then (false, drop 1 base)
    else (plain, base)

abbrev pub finish : ParsedRule → ParsedRule
finish rule = record rule { normalized = normalized_form rule }

abbrev pub with_modifiers : Platform → Text → ParsedRule → ParsedRule
with_modifiers py [] rule = finish rule
with_modifiers py (c ∷ modifiers) rule =
    let rule' = parse_modifiers py rule (c ∷ modifiers) in
    if is_valid rule'.validation_state then finish rule' else rule'

abbrev pub domain_rule : Text → Bool → Bool → ParsedRule
domain_rule raw is_allow subdomains = record (new_rule raw) {
  normalized = raw;
  rule_type = if is_allow then RuleType.allow else RuleType.block;
  action = if is_allow then Action.allow else Action.block;
  match_subdomains = subdomains;
}

abbrev pub candidate_rule : Platform → Text → Text → ParsedRule → Option Text → ParsedRule
candidate_rule py raw modifiers rule none =
    unsupported rule
      (codes "rules with a path or anchor after the domain are not supported for DNS filtering")
candidate_rule py raw modifiers rule (some candidate) = elim (normalize_domain py candidate) [
  | none ↦ invalid raw (quoted candidate (codes " is not a valid domain name"))
  | some domain ↦ with_modifiers py modifiers (record rule { domain = some domain })
]

abbrev pub cut_both : Text → Option Text
cut_both candidate = elim (cut_terminator b'^' candidate) [
  | none ↦ none
  | some s ↦ cut_terminator b'|' s
]

-- The last part of `parse_rule`: AdBlock syntax and plain domains.
unfoldable pub parse_domain_rule : Platform → Bool → Text → ParsedRule
parse_domain_rule py plain raw =
    let is_allow = starts_with (codes "@@") raw in
    let (base, _, modifiers) = partition b'$' (strip_allow raw) in
    let (subdomains, candidate) = anchored plain (strip base) in
    candidate_rule py raw modifiers (domain_rule raw is_allow subdomains) (cut_both candidate)

abbrev pub is_cosmetic : Text → Bool
is_cosmetic raw =
    has (codes "##") raw
    || (has (codes "#@#") raw || (has (codes "#%#") raw || has (codes "#$#") raw))

abbrev pub first_line : List Text → Text
first_line [] = []
first_line (line ∷ _) = line

abbrev pub is_bad_char : ℕ → Bool
is_bad_char c = (ltb c 32 && not (c == 9)) || c == 127

abbrev pub or_hosts : List ParsedRule → List ParsedRule → List ParsedRule
or_hosts [] rules = rules
or_hosts (h ∷ hosts) rules = h ∷ hosts

abbrev pub is_blank : Text → Bool
is_blank [] = true
is_blank (_ ∷ _) = false

unfoldable pub parse_rule : Platform → Bool → Text → List ParsedRule
parse_rule py plain text =
    let raw = strip text in
    if is_blank raw
    then []
    else if mem_char 10 raw || mem_char 13 raw
    then invalid (take 120 (first_line (split_lines raw))) (codes "a rule must be a single line")
      ∷ []
    else if any is_bad_char raw
    then invalid raw (codes "rule contains control characters") ∷ []
    else if starts_with (codes "!") raw || starts_with (codes "#") raw
    then record (new_rule raw) {
      normalized = raw;
      rule_type = RuleType.comment;
      comment = strip (strip_left (λ c. c == b'!' || c == b'#') raw);
    }
      ∷ []
    else if starts_with (codes "/") raw || starts_with (codes "@@/") raw
    then parse_regex_rule py raw ∷ []
    else or_hosts (parse_hosts_line py raw) (
        if is_cosmetic raw
        then unsupported (record (new_rule raw) { normalized = raw })
            (codes "cosmetic and scriptlet rules have no DNS effect and are not supported")
          ∷ []
        else parse_domain_rule py plain raw ∷ [])
