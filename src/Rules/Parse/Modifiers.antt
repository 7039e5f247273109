-- ===== src/Rules/Parse/Modifiers.antt =====
-- app/custom_rules.py: the rules that parsing builds, the checks of a regex rule, and modifiers.

use alderpoint_dns.Base.{
  ℕ, Text, codes, Bool, true, false, ◌&&◌, ◌||◌, Option, none, some, List, [], ◌∷◌, ◌++◌, length,
  any, ltb, teq, if◌then◌else◌,
}
use alderpoint_dns.Base.Dict.{Dict, lookup}
use alderpoint_dns.Base.Str.{is_control, strip, partition, split}
use alderpoint_dns.Net.{Address, ip_address, show_address, is_v4}
use alderpoint_dns.Platform.{Platform, lower, upper}
use alderpoint_dns.Rules.Types.{RuleType, Action, ValidationState, ipv4, ipv6, ParsedRule}
use alderpoint_dns.Rules.Regex.{posix_ere_incompatibility, nested_quantifier_risk}

abbrev pub max_regex_length : ℕ
max_regex_length = 512

abbrev pub important_priority : ℕ
important_priority = 100

abbrev pub blocking_sentinels : List Text
blocking_sentinels = codes "0.0.0.0" ∷ codes "::" ∷ []

-- `ParsedRule(rule_text=text)`: the defaults of the other fields.
abbrev pub new_rule : Text → ParsedRule
new_rule text = record {
  rule_text = text;
  normalized = [];
  rule_type = RuleType.unsupported;
  action = Action.no_action;
  domain = none;
  match_subdomains = false;
  pattern = none;
  rewrite_address = none;
  address_family = none;
  qtype_restriction = none;
  priority = 0;
  validation_state = ValidationState.valid;
  unsupported_reason = [];
  comment = [];
}

unfoldable pub invalid : Text → Text → ParsedRule
invalid text reason = record (new_rule text) {
  normalized = text;
  validation_state = ValidationState.invalid;
  unsupported_reason = reason;
}

unfoldable pub unsupported : ParsedRule → Text → ParsedRule
unsupported rule reason = record rule {
  rule_type = RuleType.unsupported;
  action = Action.no_action;
  validation_state = ValidationState.unsupported;
  unsupported_reason = reason;
}

abbrev pub pattern_of : ParsedRule → Text
pattern_of rule = elim rule.pattern [ none ↦ [] | some p ↦ p ]

unfoldable pub validate_regex : Platform → ParsedRule → ParsedRule
unfolding any is_control
validate_regex py rule =
    let pattern = pattern_of rule in
    if ltb max_regex_length (length pattern)
    then unsupported rule (codes "regex exceeds the 512 character limit")
    else if any is_control pattern
    then unsupported rule (codes "regex contains control characters or newlines")
    else elim (py.compile_error pattern) [
      | some exc ↦ unsupported rule (codes "regex does not compile: " ++ exc)
      | none ↦ elim (posix_ere_incompatibility py pattern) [
        | some reason ↦ unsupported rule reason
        | none ↦ elim (nested_quantifier_risk pattern) [
          | some reason ↦ unsupported rule reason
          | none ↦ rule
        ]
      ]
    ]

-- The address of a `$dnsrewrite`, or the reason why there is none.
pub data Target : Type 0 where
  target : Address → Target
  refused : Text → Target

abbrev cannot : Text → Text → Text
cannot value why = codes "modifier $dnsrewrite=" ++ value ++ codes " cannot be preserved: " ++ why

abbrev family_name : Address → Text
family_name a = if is_v4 a then codes "A" else codes "AAAA"

-- The address, of the record type `wanted` where one is given.
abbrev rewrite_target : Text → Text → Option Text → Target
rewrite_target value candidate wanted = elim (ip_address candidate) [
  | none ↦ refused (cannot value (codes "the rewrite target is not an IP address"))
  | some ip ↦ elim wanted [
    | none ↦ target ip
    | some w ↦
        if teq w (family_name ip)
        then target ip
        else refused (cannot value (codes "record type does not match the address family"))
  ]
]

abbrev only_plain : Text → Target
only_plain value = refused (cannot value (codes "only plain A/AAAA address rewrites are supported"))

unfoldable pub parse_dnsrewrite_parts : Platform → Text → List Text → Target
parse_dnsrewrite_parts py value (one ∷ []) = rewrite_target value (strip one) none
parse_dnsrewrite_parts py value (status ∷ rtype ∷ address ∷ []) =
    let wanted = upper py (strip rtype) in
    if teq (upper py (strip status)) (codes "NOERROR")
      && (teq wanted (codes "A") || teq wanted (codes "AAAA"))
    then rewrite_target value (strip address) (some wanted)
    else only_plain value
parse_dnsrewrite_parts py value _ = only_plain value

unfoldable pub parse_dnsrewrite : Platform → Text → Target
unfolding parse_dnsrewrite_parts split
parse_dnsrewrite py value = parse_dnsrewrite_parts py value (split b';' value)

abbrev unsupported_modifier_reasons : Dict Text
unsupported_modifier_reasons =
    (
      codes "client",
      codes
          "modifier $client cannot be preserved: Alderpoint DNS has no per-client rule enforcement",
    )
    ∷ (codes "ctag", codes "modifier $ctag cannot be preserved: Alderpoint DNS has no client tags")
    ∷ (
      codes "denyallow",
      codes "modifier $denyallow cannot be preserved: per-rule domain exclusions are not supported",
    )
    ∷ (
      codes "dnstype",
      codes "modifier $dnstype cannot be preserved: query-type restricted rules are not supported",
    )
    ∷ (
      codes "badfilter",
      codes "modifier $badfilter cannot be preserved: rule-cancellation rules are not supported",
    )
    ∷ []

abbrev modifier_reason : Text → Text
modifier_reason name = elim (lookup name unsupported_modifier_reasons) [
  | some reason ↦ reason
  | none ↦
      codes "modifier $"
      ++ name
      ++ codes
          " is not supported; the rule was kept inactive instead of activating a broadened rule"
]

abbrev pub is_allow_action : Action → Bool
is_allow_action Action.allow = true
is_allow_action _ = false

abbrev pub as_rewrite : ParsedRule → Address → ParsedRule
as_rewrite rule ip = record rule {
  rule_type = RuleType.rewrite;
  action = Action.rewrite;
  rewrite_address = some (show_address ip);
  address_family = some (if is_v4 ip then ipv4 else ipv6);
}

-- One modifier: the rule to go on with, or the rule that is returned at once.
pub data Modified : Type 0 where
  next stop : ParsedRule → Modified

unfoldable pub apply_modifier : Platform → ParsedRule → Text → Modified
apply_modifier py rule raw =
    let (before, _, value) = partition b'=' raw in
    let name = lower py (strip before) in
    if teq name (codes "important")
    then next (record rule { priority = important_priority })
    else if teq name (codes "dnsrewrite")
    then (if is_allow_action rule.action
        then stop (
            unsupported rule
              (codes "modifier $dnsrewrite cannot be preserved on an exception rule"))
        else elim (parse_dnsrewrite py value) [
          | refused reason ↦ stop (unsupported rule reason)
          | target ip ↦ next (as_rewrite rule ip)
        ])
    else stop (unsupported rule (modifier_reason name))

abbrev pub is_blank : Text → Bool
is_blank [] = true
is_blank (_ ∷ _) = false

unfoldable pub apply_modifiers : Platform → ParsedRule → List Text → ParsedRule
apply_modifiers py rule [] = rule
apply_modifiers py rule (raw ∷ rest) =
    let skipped = apply_modifiers py rule rest in
    let on = λ (r : ParsedRule). apply_modifiers py r rest in
    if is_blank (strip raw)
    then skipped
    else elim (apply_modifier py rule (strip raw)) [ next r ↦ on r | stop r ↦ r ]

unfoldable pub parse_modifiers : Platform → ParsedRule → Text → ParsedRule
unfolding apply_modifiers
parse_modifiers py rule modifier_text = apply_modifiers py rule (split b',' modifier_text)
