-- ===== src/Sources/Line/Names.antt =====
-- The names that `parse_source_line` accepts.
use mathlib.Core.Bool.{false≢true}
use alderpoint_dns.Base.{
  Text, Bool, true, false, not, Option, none, some, List, [], ◌∷◌, map, All, ◌≡◌, refl, sym, subst,
  ◌∙◌, ap, ◌&&◌, all, ◌==◌, if_ind,
}
use alderpoint_dns.Platform.{Platform, lower}
use alderpoint_dns.Base.Str.{strip_by, words}
use alderpoint_dns.Domain.{matches_domain_re, normalize_domain}
use alderpoint_dns.Domain.Valid.{normalize_domain-matches}
use alderpoint_dns.Rules.Types.{RuleType, Action, ValidationState, ParsedRule, is_valid}
use alderpoint_dns.Rules.Parse.Line.{parse_rule}
use alderpoint_dns.Rules.Parse.Sound.{
  IsSound, inert, of_domain, of_regex, of_comment, domain_kind, regex_kind,
}
use alderpoint_dns.Rules.Parse.Sound.Lines.{parse_rule-IsSound}
use alderpoint_dns.Sources.Types.{Verdict, skip, rejected, accepted}
use alderpoint_dns.Sources.Line.{
  is_localhost, is_alias, is_nonempty, is_fast_char, is_hosts_line, first_word, as_fast, fast_of,
  fast_common_source_rule, host_of, host_verdict, hosts_verdicts, valid_verdict, state_verdict,
  is_comment, rule_verdicts, or_parsed, parse_source_line,
}

-- A block or an allow.
abbrev pub is_switch : Action → Bool
is_switch Action.block = true
is_switch Action.allow = true
is_switch _ = false

abbrev pub is_name : Option Text → Bool
is_name none = false
is_name (some d) = matches_domain_re d

-- What is accepted is a block or an allow of a domain name.
abbrev pub IsNamed : Verdict → Type 0
IsNamed skip = Unit
IsNamed (rejected _ _) = Unit
IsNamed (accepted action domain) = (is_switch action ≡ true) × (is_name domain ≡ true)

abbrev IsNamedOption : Option Verdict → Type 0
IsNamedOption none = Unit
IsNamedOption (some v) = IsNamed v

as_fast-IsNamed :
    (is_allow : Bool) (domain : Option Text)
    → ((d : Text) → domain ≡ some d → matches_domain_re d ≡ true)
    → IsNamedOption (as_fast is_allow domain)
as_fast-IsNamed is_allow none h = tt
as_fast-IsNamed true (some d) h = (refl, h d refl)
as_fast-IsNamed false (some d) h = (refl, h d refl)

fast_of-IsNamed :
    (py : Platform) (is_allow : Bool) (candidate : Option Text)
    → IsNamedOption (fast_of py is_allow candidate)
unfolding fast_of
fast_of-IsNamed py is_allow none = tt
fast_of-IsNamed py is_allow (some c) =
    if_ind IsNamedOption (not (is_nonempty c && all is_fast_char c)) (λ _. tt)
      (λ _. as_fast-IsNamed is_allow (normalize_domain py c) (normalize_domain-matches py c))

host_of-IsNamed :
    (host : Text) (domain : Option Text)
    → ((d : Text) → domain ≡ some d → matches_domain_re d ≡ true)
    → IsNamed (host_of host domain)
host_of-IsNamed host none h = tt
host_of-IsNamed host (some d) h = if_ind IsNamed (is_localhost d) (λ _. tt) (λ _. (refl, h d refl))

host_verdict-IsNamed : (py : Platform) (host : Text) → IsNamed (host_verdict py host)
unfolding host_verdict
host_verdict-IsNamed py host =
    if_ind IsNamed (is_localhost (lower py (strip_by (λ c. c == b'.') host))) (λ _. tt)
      (λ _. host_of-IsNamed host (normalize_domain py host) (normalize_domain-matches py host))

hosts_verdicts-IsNamed : (py : Platform) (parts : List Text) → All IsNamed (hosts_verdicts py parts)
unfolding hosts_verdicts
hosts_verdicts-IsNamed py [] = (tt, tt)
hosts_verdicts-IsNamed py (_ ∷ []) = (tt, tt)
hosts_verdicts-IsNamed py (_ ∷ host ∷ hosts) = all_hosts (host ∷ hosts)
  where
    all_hosts : (hosts : List Text) → All IsNamed (map (host_verdict py) hosts)
    all_hosts [] = tt
    all_hosts (host ∷ hosts) = (host_verdict-IsNamed py host, all_hosts hosts)

-- A valid rule that is about a domain.
valid_verdict-IsNamed :
    (t : RuleType) (rule : ParsedRule)
    → domain_kind t rule.action ≡ true
    → is_name rule.domain ≡ true
    → IsNamed (valid_verdict t rule)
unfolding valid_verdict
valid_verdict-IsNamed RuleType.block rule k n =
    if_ind IsNamed (is_alias rule.domain) (λ _. tt) (λ _. (switches rule.action k, n))
  where
    switches : (a : Action) → domain_kind RuleType.block a ≡ true → is_switch a ≡ true
    switches Action.block k = refl
    switches Action.allow k = refl
    switches Action.rewrite k = k
    switches Action.no_action k = k
valid_verdict-IsNamed RuleType.allow rule k n =
    if_ind IsNamed (is_alias rule.domain) (λ _. tt) (λ _. (switches rule.action k, n))
  where
    switches : (a : Action) → domain_kind RuleType.allow a ≡ true → is_switch a ≡ true
    switches Action.block k = refl
    switches Action.allow k = refl
    switches Action.rewrite k = k
    switches Action.no_action k = k
valid_verdict-IsNamed RuleType.rewrite rule k n = tt
valid_verdict-IsNamed RuleType.regex_block rule k n = tt
valid_verdict-IsNamed RuleType.regex_allow rule k n = tt
valid_verdict-IsNamed RuleType.comment rule k n = absurd (false≢true k)
valid_verdict-IsNamed RuleType.unsupported rule k n = absurd (false≢true k)

regex_verdict-IsNamed :
    (t : RuleType) (rule : ParsedRule)
    → regex_kind t rule.action ≡ true
    → IsNamed (valid_verdict t rule)
unfolding valid_verdict
regex_verdict-IsNamed RuleType.block rule k = absurd (false≢true k)
regex_verdict-IsNamed RuleType.allow rule k = absurd (false≢true k)
regex_verdict-IsNamed RuleType.rewrite rule k = tt
regex_verdict-IsNamed RuleType.regex_block rule k = tt
regex_verdict-IsNamed RuleType.regex_allow rule k = tt
regex_verdict-IsNamed RuleType.comment rule k = absurd (false≢true k)
regex_verdict-IsNamed RuleType.unsupported rule k = absurd (false≢true k)

state_verdict-IsNamed :
    (py : Platform) (rule : ParsedRule)
    → IsSound py rule
    → is_comment rule.rule_type ≡ false
    → IsNamed (state_verdict rule.validation_state rule)
state_verdict-IsNamed py rule (inert h) c = refused rule.validation_state h.state
  where
    refused : (s : ValidationState) → is_valid s ≡ false → IsNamed (state_verdict s rule)
    refused ValidationState.valid k = absurd (false≢true (sym k))
    refused ValidationState.unsupported k = tt
    refused ValidationState.invalid k = tt
state_verdict-IsNamed py rule (of_domain h) c =
    subst (λ s. IsNamed (state_verdict s rule)) (sym h.state)
      (valid_verdict-IsNamed rule.rule_type rule h.kind (ap is_name h.named ∙ h.matches))
state_verdict-IsNamed py rule (of_regex h) c =
    subst (λ s. IsNamed (state_verdict s rule)) (sym h.state)
      (regex_verdict-IsNamed rule.rule_type rule h.kind)
state_verdict-IsNamed py rule (of_comment h) c = absurd (false≢true (sym c ∙ ap is_comment h.type))

rule_verdicts-IsNamed :
    (py : Platform) (rules : List ParsedRule)
    → All (IsSound py) rules
    → All IsNamed (rule_verdicts rules)
unfolding rule_verdicts
rule_verdicts-IsNamed py [] h = tt
rule_verdicts-IsNamed py (rule ∷ rules) h =
    if_ind (All IsNamed) (is_comment rule.rule_type) (λ _. rule_verdicts-IsNamed py rules h.1)
      (λ c. (state_verdict-IsNamed py rule h.0 c, rule_verdicts-IsNamed py rules h.1))

or_parsed-IsNamed :
    (py : Platform) (text : Text) (v : Option Verdict)
    → IsNamedOption v
    → All IsNamed (or_parsed py text v)
or_parsed-IsNamed py text (some v) h = (h, tt)
or_parsed-IsNamed py text none h =
    rule_verdicts-IsNamed py (parse_rule py true text) (parse_rule-IsSound py true text)

-- Whatever the line is, each result that is neither skipped nor rejected is a block or an allow, and
-- its domain is a name of two labels or more, of at most 63 characters each from `a-z0-9_-`.
pub parse_source_line-IsNamed :
    (py : Platform) (raw : Text) → All IsNamed (parse_source_line py raw)
unfolding parse_source_line fast_common_source_rule
parse_source_line-IsNamed py raw =
    if_ind (All IsNamed) (is_hosts_line (first_word (words raw))) (λ _. hosts_verdicts-IsNamed py _)
      (λ _. or_parsed-IsNamed py _ _ (fast_of-IsNamed py _ _))
