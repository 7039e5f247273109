-- ===== src/Rules/Parse/Sound/Domains.antt =====
-- Rules about a domain.
use alderpoint_dns.Base.{
  Text, codes, Bool, true, false, ◌&&◌, Option, none, some, [], ◌∷◌, ◌≡◌, refl, ap, inl, inr,
}
use alderpoint_dns.Net.{is_written}
use alderpoint_dns.Platform.{Platform}
use alderpoint_dns.Domain.{matches_domain_re, normalize_domain}
use alderpoint_dns.Domain.Valid.{normalize_domain-matches}
use alderpoint_dns.Rules.Types.{RuleType, Action, Family, ParsedRule, is_valid, truthy}
use alderpoint_dns.Rules.Parse.Modifiers.{
  invalid, parse_modifiers, is_allow_action, important_priority,
}
use alderpoint_dns.Rules.Parse.Line.{
  with_modifiers, finish, candidate_rule, quoted, domain_rule, cut_both, parse_domain_rule,
}
use alderpoint_dns.Rules.Parse.Sound.{
  IsDomainRule, IsSound, inert, of_domain, unsupported-IsInert, invalid-IsInert,
}
use alderpoint_dns.Rules.Parse.Sound.Keeps.{parse_modifiers-keeps}

raised-IsDomainRule :
    (r : ParsedRule) → IsDomainRule r → IsDomainRule (record r { priority = important_priority })
raised-IsDomainRule r h = record {
  state = h.state;
  kind = h.kind;
  name = h.name;
  named = h.named;
  matches = h.matches;
  addressed = h.addressed;
}

pub written-truthy : (s : Text) → is_written s ≡ true → (truthy (some s) && true) ≡ true
written-truthy [] h = h
written-truthy (c ∷ s) h = refl

rewritten-IsDomainRule :
    (r : ParsedRule) (address : Text) (family : Family)
    → is_allow_action r.action ≡ false
    → is_written address ≡ true
    → IsDomainRule r
    → IsDomainRule (record r {
      rule_type = RuleType.rewrite;
      action = Action.rewrite;
      rewrite_address = some address;
      address_family = some family;
    })
rewritten-IsDomainRule r address family _ w h = record {
  state = h.state;
  kind = refl;
  name = h.name;
  named = h.named;
  matches = h.matches;
  addressed = λ _. written-truthy address w;
}

finish-IsDomainRule : (r : ParsedRule) → IsDomainRule r → IsDomainRule (finish r)
finish-IsDomainRule r h = record {
  state = h.state;
  kind = h.kind;
  name = h.name;
  named = h.named;
  matches = h.matches;
  addressed = h.addressed;
}

module _ (py : Platform) where
  with_modifiers-IsSound :
      (modifiers : Text) (r : ParsedRule)
      → IsDomainRule r
      → IsSound py (with_modifiers py modifiers r)
  with_modifiers-IsSound [] r h = of_domain (finish-IsDomainRule r h)
  with_modifiers-IsSound (c ∷ cs) r h =
      elim (parse_modifiers-keeps py IsDomainRule raised-IsDomainRule rewritten-IsDomainRule r
        (c ∷ cs) h) [
          | inl g ↦
              rw (ap is_valid g.state)
                (of_domain (finish-IsDomainRule (parse_modifiers py r (c ∷ cs)) g))
          | inr i ↦ rw i.state (inert i)
        ]

  candidate_rule-IsSound :
      (raw modifiers : Text) (r : ParsedRule) (o : Option Text)
      → ((d : Text) → matches_domain_re d ≡ true → IsDomainRule (record r { domain = some d }))
      → IsSound py (candidate_rule py raw modifiers r o)
  candidate_rule-IsSound raw modifiers r none h = inert (unsupported-IsInert r _)
  candidate_rule-IsSound raw modifiers r (some candidate) h =
      go (normalize_domain py candidate) refl
    where
      go :
          (o : Option Text)
          → normalize_domain py candidate ≡ o
          → IsSound py (elim o [
            | none ↦ invalid raw (quoted candidate (codes " is not a valid domain name"))
            | some domain ↦ with_modifiers py modifiers (record r { domain = some domain })
          ])
      go none e = inert (invalid-IsInert raw _)
      go (some d) e =
          with_modifiers-IsSound modifiers (record r { domain = some d })
            (h d (normalize_domain-matches py candidate d e))

  domain_rule-IsDomainRule :
      (raw : Text) (is_allow subdomains : Bool) (d : Text)
      → matches_domain_re d ≡ true
      → IsDomainRule (record (domain_rule raw is_allow subdomains) { domain = some d })
  domain_rule-IsDomainRule raw true subdomains d m = record {
    state = refl;
    kind = refl;
    name = d;
    named = refl;
    matches = m;
    addressed = λ e. cc;
  }
  domain_rule-IsDomainRule raw false subdomains d m = record {
    state = refl;
    kind = refl;
    name = d;
    named = refl;
    matches = m;
    addressed = λ e. cc;
  }

  pub parse_domain_rule-IsSound :
      (plain : Bool) (raw : Text) → IsSound py (parse_domain_rule py plain raw)
  unfolding parse_domain_rule
  parse_domain_rule-IsSound plain raw =
      candidate_rule-IsSound raw _ _ (cut_both _) (domain_rule-IsDomainRule raw _ _)
