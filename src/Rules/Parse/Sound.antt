-- ===== src/Rules/Parse/Sound.antt =====
-- What `parse_rule` promises of every rule that it returns.
pub mod Keeps
pub mod Domains
pub mod Hosts
pub mod Regexes
pub mod Lines
use mathlib.Core.Bool.{false≢true}
use alderpoint_dns.Base.{
  Text, codes, Bool, true, false, ◌&&◌, ◌||◌, Option, none, some, List, [], ◌∷◌, ◌++◌, map, ◌≡◌,
  refl, ap, sym, ◌∙◌, ltb, length, any, ◌⊎◌, inl, inr, All, teq, if◌then◌else◌, Option-cases, ◌≤◌,
  if_ind,
}
use alderpoint_dns.Base.Str.{
  strip, partition, split, words, is_control, mem_char, starts_with, drop, drop_last,
}
use alderpoint_dns.Net.{
  Address, ip_address, show_address, is_v4, is_written, show_address-is_written,
}
use alderpoint_dns.Platform.{Platform, lower}
use alderpoint_dns.Domain.{matches_domain_re, normalize_domain}
use alderpoint_dns.Domain.Valid.{normalize_domain-matches}
use alderpoint_dns.Rules.Types.{
  RuleType, Action, ValidationState, Family, ParsedRule, is_valid, truthy,
}
use alderpoint_dns.Rules.Regex.{posix_ere_incompatibility, nested_quantifier_risk}
use alderpoint_dns.Rules.Parse.Modifiers.{
  invalid, unsupported, new_rule, validate_regex, max_regex_length, apply_modifier, apply_modifiers,
  parse_modifiers, Modified, next, stop, Target, target, refused, as_rewrite, is_blank,
  parse_dnsrewrite, is_allow_action, important_priority,
}
use alderpoint_dns.Rules.Parse.Line.{
  is_rewrite_type, with_modifiers, finish, regex_rule, no_rewrite_regex, modified_regex,
  parse_regex_rule, is_open, regex_parts, strip_allow, or_hosts, is_cosmetic, is_bad_char,
  parse_rule, candidate_rule, quoted, domain_rule, cut_both, parse_domain_rule, host_rule,
  host_rules, hosts_of, is_sentinel, parse_hosts_line,
}

-- A rule that is not valid has no effect.
pub record IsInert (r : ParsedRule) : Type 0 where
  pub state : is_valid r.validation_state ≡ false
  pub type : r.rule_type ≡ RuleType.unsupported
  pub act : r.action ≡ Action.no_action

abbrev pub domain_kind : RuleType → Action → Bool
domain_kind RuleType.block Action.block = true
domain_kind RuleType.allow Action.allow = true
domain_kind RuleType.rewrite Action.rewrite = true
domain_kind _ _ = false

abbrev pub regex_kind : RuleType → Action → Bool
regex_kind RuleType.regex_block Action.block = true
regex_kind RuleType.regex_allow Action.allow = true
regex_kind _ _ = false

abbrev pub is_some {ℓ} : {A : Type ℓ} → Option A → Bool
is_some none = false
is_some (some _) = true

-- A valid rule about a domain: a block, an allow or a rewrite, with a domain name, and with an
-- address and its family if it is a rewrite.
pub record IsDomainRule (r : ParsedRule) : Type 0 where
  pub state : r.validation_state ≡ ValidationState.valid
  pub kind : domain_kind r.rule_type r.action ≡ true
  pub name : Text
  pub named : r.domain ≡ some name
  pub matches : matches_domain_re name ≡ true
  pub addressed :
      is_rewrite_type r.rule_type ≡ true
      → (truthy r.rewrite_address && is_some r.address_family) ≡ true

-- A valid regex rule: its pattern is at most 512 characters with no control character among them,
-- and passed the other checks.
pub record IsRegexRule (py : Platform) (r : ParsedRule) : Type 0 where
  pub state : r.validation_state ≡ ValidationState.valid
  pub kind : regex_kind r.rule_type r.action ≡ true
  pub source : Text
  pub given : r.pattern ≡ some source
  pub unnamed : r.domain ≡ none
  pub short : (length source ≤ 512)
  pub printable : any is_control source ≡ false
  pub compiles : py.compile_error source ≡ none
  pub portable : posix_ere_incompatibility py source ≡ none
  pub safe : nested_quantifier_risk source ≡ none

pub record IsComment (r : ParsedRule) : Type 0 where
  pub state : r.validation_state ≡ ValidationState.valid
  pub type : r.rule_type ≡ RuleType.comment
  pub unnamed : r.domain ≡ none
  pub act : r.action ≡ Action.no_action

pub data IsSound (py : Platform) (r : ParsedRule) : Type 0 where
  inert : IsInert r → IsSound py r
  of_domain : IsDomainRule r → IsSound py r
  of_regex : IsRegexRule py r → IsSound py r
  of_comment : IsComment r → IsSound py r

pub unsupported-IsInert : (r : ParsedRule) (why : Text) → IsInert (unsupported r why)
unfolding unsupported
unsupported-IsInert r why = record { state = refl; type = refl; act = refl }

pub invalid-IsInert : (text why : Text) → IsInert (invalid text why)
unfolding invalid
invalid-IsInert text why = record { state = refl; type = refl; act = refl }
