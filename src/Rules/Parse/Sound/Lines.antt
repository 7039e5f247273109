-- ===== src/Rules/Parse/Sound/Lines.antt =====
-- Every line.
use alderpoint_dns.Base.{Text, codes, Bool, ◌||◌, List, [], ◌∷◌, refl, any, All, if_ind}
use alderpoint_dns.Base.Str.{strip, mem_char, starts_with}
use alderpoint_dns.Platform.{Platform}
use alderpoint_dns.Rules.Types.{ParsedRule}
use alderpoint_dns.Rules.Parse.Modifiers.{is_blank}
use alderpoint_dns.Rules.Parse.Line.{
  or_hosts, is_cosmetic, is_bad_char, parse_rule, parse_hosts_line,
}
use alderpoint_dns.Rules.Parse.Sound.{
  IsSound, inert, of_comment, unsupported-IsInert, invalid-IsInert,
}
use alderpoint_dns.Rules.Parse.Sound.Domains.{parse_domain_rule-IsSound}
use alderpoint_dns.Rules.Parse.Sound.Hosts.{parse_hosts_line-IsSound}
use alderpoint_dns.Rules.Parse.Sound.Regexes.{parse_regex_rule-IsSound}

module _ (py : Platform) where
  or_hosts-IsSound :
      (hosts rules : List ParsedRule)
      → All (IsSound py) hosts
      → All (IsSound py) rules
      → All (IsSound py) (or_hosts hosts rules)
  or_hosts-IsSound [] rules h k = k
  or_hosts-IsSound (r ∷ hosts) rules h k = h

  -- Every rule that a line yields is inert, a comment, a well-formed rule about a domain, or a regex
  -- rule whose pattern has at most 512 characters and no control character, compiles, and passes the
  -- checks of portability and of nested quantifiers.
  pub parse_rule-IsSound :
      (plain : Bool) (text : Text) → All (IsSound py) (parse_rule py plain text)
  unfolding parse_rule
  parse_rule-IsSound plain text =
      let raw = strip text in
      if_ind Sound (is_blank raw) (λ _. tt)
        (λ _.
          if_ind Sound (mem_char 10 raw || mem_char 13 raw) (λ _. (inert (invalid-IsInert _ _), tt))
            (λ _.
              if_ind Sound (any is_bad_char raw) (λ _. (inert (invalid-IsInert raw _), tt))
                (λ _.
                  if_ind Sound (starts_with (codes "!") raw || starts_with (codes "#") raw)
                    (λ _. (
                      of_comment (record { state = refl; type = refl; unnamed = refl; act = refl }),
                      tt,
                    ))
                    (λ _.
                      if_ind Sound (starts_with (codes "/") raw || starts_with (codes "@@/") raw)
                        (λ _. (parse_regex_rule-IsSound py raw, tt))
                        (λ _.
                          or_hosts-IsSound (parse_hosts_line py raw) _
                            (parse_hosts_line-IsSound py raw)
                            (if_ind Sound (is_cosmetic raw)
                              (λ _. (inert (unsupported-IsInert _ _), tt))
                              (λ _. (parse_domain_rule-IsSound py plain raw, tt))))))))
    where
      Sound : List ParsedRule → Type 0
      Sound = All (IsSound py)
