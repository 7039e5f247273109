-- ===== src/Sources/Line.antt =====
-- app/alderpointdns_compiler.py: `parse_source_line`, which classifies one line of a source.
pub mod Names
use alderpoint_dns.Base.{
  ℕ, Text, codes, Bool, true, false, not, ◌&&◌, ◌||◌, Option, none, some, List, [], ◌∷◌, ◌++◌, map,
  keep, any, all, length, leb, ◌==◌, teq, if◌then◌else◌,
}
use alderpoint_dns.Base.Str.{
  is_digit, strip, strip_by, starts_with, ends_with, mem_char, has, drop, drop_last, partition,
  words,
}
use alderpoint_dns.Platform.{Platform, lower}
use alderpoint_dns.Net.{ip_address}
use alderpoint_dns.Domain.{normalize_domain}
use alderpoint_dns.Rules.Types.{RuleType, Action, ValidationState, ParsedRule}
use alderpoint_dns.Rules.Parse.Line.{parse_rule}
use alderpoint_dns.Sources.Types.{
  Rejection, invalid, unsupported, Verdict, skip, rejected, accepted,
}

abbrev localhost_aliases : List Text
localhost_aliases =
    codes "localhost"
    ∷ codes "localhost.localdomain"
    ∷ codes "ip6-localhost"
    ∷ codes "ip6-loopback"
    ∷ []

-- in LOCALHOST_ALIASES
unfoldable pub is_localhost : Text → Bool
is_localhost host = any (teq host) localhost_aliases

abbrev pub is_alias : Option Text → Bool
is_alias none = false
is_alias (some host) = is_localhost host

-- `_adguard_blockpage_normalize`
unfoldable pub adguard_blockpage_normalize : Text → Text
adguard_blockpage_normalize text =
    let (head, found, modifiers) = partition b'$' text in
    if not (has (codes "$dnsrewrite=") text)
    then text
    else if not found
    then text
    else if teq (strip modifiers) (codes "dnsrewrite=ad-block.dns.adguard.com")
    then strip head
    else text

-- `_could_be_ip_literal`
unfoldable pub could_be_ip_literal : Text → Bool
could_be_ip_literal [] = false
could_be_ip_literal (c ∷ cs) = is_digit c || (c == b':' || mem_char b':' (c ∷ cs))

-- `_is_hosts_line`
unfoldable pub is_hosts_line : Text → Bool
is_hosts_line first_token =
    if not (could_be_ip_literal first_token)
    then false
    else elim (ip_address first_token) [ none ↦ false | some _ ↦ true ]

-- in _FAST_DOMAIN_CHARS
unfoldable pub is_fast_char : ℕ → Bool
is_fast_char c =
    (leb 97 c && leb c 122)
    || ((leb 65 c && leb c 90) || (is_digit c || (c == b'.' || (c == b'_' || c == b'-'))))

abbrev count_char : ℕ → Text → ℕ
count_char c s = length (keep (λ d. d == c) s)

abbrev pub is_nonempty : Text → Bool
is_nonempty [] = false
is_nonempty (_ ∷ _) = true

-- `||…^` and `|…^`, with one `^`; or the whole body.
unfoldable pub fast_candidate : Text → Option Text
fast_candidate body =
    if starts_with (codes "||") body && (ends_with (codes "^") body && count_char b'^' body == 1)
    then some (drop_last (drop 2 body))
    else if starts_with (codes "|") body
        && (ends_with (codes "^") body && count_char b'^' body == 1)
    then some (drop_last (drop 1 body))
    else if all is_fast_char body
    then some body
    else none

abbrev pub as_fast : Bool → Option Text → Option Verdict
as_fast is_allow none = none
as_fast is_allow (some domain) =
    some (accepted (if is_allow then Action.allow else Action.block) (some domain))

unfoldable pub fast_of : Platform → Bool → Option Text → Option Verdict
fast_of py is_allow none = none
fast_of py is_allow (some candidate) =
    if not (is_nonempty candidate && all is_fast_char candidate)
    then none
    else as_fast is_allow (normalize_domain py candidate)

-- `_fast_common_source_rule`
unfoldable pub fast_common_source_rule : Platform → Text → Option Verdict
unfolding fast_candidate
fast_common_source_rule py raw =
    let is_allow = starts_with (codes "@@") raw in
    fast_of py is_allow (fast_candidate (if is_allow then drop 2 raw else raw))

abbrev pub host_of : Text → Option Text → Verdict
host_of host none = rejected invalid (codes "'" ++ host ++ codes "' is not a valid hostname")
host_of host (some domain) =
    if is_localhost domain then skip else accepted Action.block (some domain)

-- One hostname of a line in the hosts format.
unfoldable pub host_verdict : Platform → Text → Verdict
host_verdict py host =
    if is_localhost (lower py (strip_by (λ c. c == b'.') host))
    then skip
    else host_of host (normalize_domain py host)

unfoldable pub hosts_verdicts : Platform → List Text → List Verdict
hosts_verdicts py (_ ∷ host ∷ hosts) = map (host_verdict py) (host ∷ hosts)
hosts_verdicts py _ = rejected invalid (codes "hosts entry has no hostname") ∷ []

-- What a valid rule of the shared parser gives; a comment gives nothing.
unfoldable pub valid_verdict : RuleType → ParsedRule → Verdict
valid_verdict RuleType.regex_block rule =
    rejected unsupported (codes "regex rules are not supported for blocklist sources")
valid_verdict RuleType.regex_allow rule =
    rejected unsupported (codes "regex rules are not supported for blocklist sources")
valid_verdict RuleType.rewrite rule =
    rejected unsupported
      (codes "modifier $dnsrewrite to an IP address is not supported for blocklist sources")
valid_verdict _ rule = if is_alias rule.domain then skip else accepted rule.action rule.domain

abbrev pub state_verdict : ValidationState → ParsedRule → Verdict
state_verdict ValidationState.invalid rule = rejected invalid rule.unsupported_reason
state_verdict ValidationState.unsupported rule = rejected unsupported rule.unsupported_reason
state_verdict ValidationState.valid rule = valid_verdict rule.rule_type rule

abbrev pub is_comment : RuleType → Bool
is_comment RuleType.comment = true
is_comment _ = false

unfoldable pub rule_verdicts : List ParsedRule → List Verdict
unfolding valid_verdict
rule_verdicts [] = []
rule_verdicts (rule ∷ rules) =
    if is_comment rule.rule_type
    then rule_verdicts rules
    else state_verdict rule.validation_state rule ∷ rule_verdicts rules

-- The fast path, or the parser that the custom rules have, which reads a plain domain with its
-- subdomains.
abbrev pub or_parsed : Platform → Text → Option Verdict → List Verdict
or_parsed py text (some verdict) = verdict ∷ []
or_parsed py text none = rule_verdicts (parse_rule py true text)

abbrev pub first_word : List Text → Text
first_word [] = []
first_word (w ∷ _) = w

unfoldable pub parse_source_line : Platform → Text → List Verdict
parse_source_line py raw =
    if is_hosts_line (first_word (words raw))
    then hosts_verdicts py (words (partition b'#' raw).0)
    else or_parsed py (adguard_blockpage_normalize raw)
        (fast_common_source_rule py (adguard_blockpage_normalize raw))
