-- ===== src/Rules/Parse/Sound/Hosts.antt =====
-- Lines of a hosts file.
use alderpoint_dns.Base.{
  Text, codes, true, Option, none, some, List, [], ◌∷◌, ◌++◌, map, ◌≡◌, refl, inl, inr, All,
  Option-cases, if_ind,
}
use alderpoint_dns.Base.Str.{words}
use alderpoint_dns.Net.{Address, ip_address, show_address, is_written, show_address-is_written}
use alderpoint_dns.Platform.{Platform}
use alderpoint_dns.Domain.{matches_domain_re, normalize_domain}
use alderpoint_dns.Domain.Valid.{normalize_domain-matches}
use alderpoint_dns.Rules.Types.{RuleType, Action, Family}
use alderpoint_dns.Rules.Parse.Modifiers.{new_rule}
use alderpoint_dns.Rules.Parse.Line.{host_rule, host_rules, hosts_of, is_sentinel, parse_hosts_line}
use alderpoint_dns.Rules.Parse.Sound.{IsDomainRule, IsSound, inert, of_domain, invalid-IsInert}
use alderpoint_dns.Rules.Parse.Sound.Domains.{written-truthy}

module _ (py : Platform) where
  blocked_host :
      (text domain comment : Text)
      → matches_domain_re domain ≡ true
      → IsDomainRule (record (new_rule text) {
        normalized = codes "|" ++ domain ++ codes "^";
        rule_type = RuleType.block;
        action = Action.block;
        domain = some domain;
        comment = comment;
      })
  blocked_host text domain comment m = record {
    state = refl;
    kind = refl;
    name = domain;
    named = refl;
    matches = m;
    addressed = λ e. cc;
  }

  rewritten_host :
      (text domain comment address : Text) (family : Family)
      → matches_domain_re domain ≡ true
      → is_written address ≡ true
      → IsDomainRule (record (new_rule text) {
        normalized = address ++ codes " " ++ domain;
        rule_type = RuleType.rewrite;
        action = Action.rewrite;
        domain = some domain;
        rewrite_address = some address;
        address_family = some family;
        comment = comment;
      })
  rewritten_host text domain comment address family m w = record {
    state = refl;
    kind = refl;
    name = domain;
    named = refl;
    matches = m;
    addressed = λ e. written-truthy address w;
  }

  host_rule-IsSound :
      (first : Text) (ip : Address) (comment host : Text)
      → IsSound py (host_rule py first ip comment host)
  unfolding host_rule
  host_rule-IsSound first ip comment host = elim (Option-cases (normalize_domain py host)) [
    | inl e ↦ rw (e, host_rule) (inert (invalid-IsInert _ _))
    | inr (d, e) ↦
        rw (e, host_rule)
          (if_ind (IsSound py) (is_sentinel (show_address ip))
            (λ _. of_domain (blocked_host _ d comment (normalize_domain-matches py host d e)))
            (λ _. of_domain (
              rewritten_host _ d comment _ _ (normalize_domain-matches py host d e)
                (show_address-is_written ip))))
  ]

  map-host_rule-IsSound :
      (first : Text) (ip : Address) (comment : Text) (hosts : List Text)
      → All (IsSound py) (map (host_rule py first ip comment) hosts)
  map-host_rule-IsSound first ip comment [] = tt
  map-host_rule-IsSound first ip comment (h ∷ hosts) =
      (host_rule-IsSound first ip comment h, map-host_rule-IsSound first ip comment hosts)

  hosts_of-IsSound :
      (raw comment : Text) (parts : List Text) → All (IsSound py) (hosts_of py raw comment parts)
  hosts_of-IsSound raw comment [] = tt
  hosts_of-IsSound raw comment (first ∷ hosts) = go hosts (ip_address first)
    where
      go :
          (hosts : List Text) (o : Option Address)
          → All (IsSound py) (host_rules py raw comment first hosts o)
      go hosts none = tt
      go [] (some ip) = (inert (invalid-IsInert raw _), tt)
      go (h ∷ hosts) (some ip) = map-host_rule-IsSound first ip comment (h ∷ hosts)

  pub parse_hosts_line-IsSound : (raw : Text) → All (IsSound py) (parse_hosts_line py raw)
  unfolding parse_hosts_line
  parse_hosts_line-IsSound raw = hosts_of-IsSound raw _ (words _)
