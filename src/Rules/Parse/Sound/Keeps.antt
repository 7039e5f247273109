-- ===== src/Rules/Parse/Sound/Keeps.antt =====
-- Modifiers keep what priority and rewriting keep, or make the rule inert.
use alderpoint_dns.Base.{
  Text, codes, true, false, some, List, [], ◌∷◌, ◌≡◌, ◌⊎◌, inl, inr, teq, if◌then◌else◌, if_ind,
}
use alderpoint_dns.Base.Str.{strip, partition, split}
use alderpoint_dns.Net.{show_address, is_v4, is_written, show_address-is_written}
use alderpoint_dns.Platform.{Platform, lower}
use alderpoint_dns.Rules.Types.{RuleType, Action, Family, ParsedRule}
use alderpoint_dns.Rules.Parse.Modifiers.{
  unsupported, apply_modifier, apply_modifiers, parse_modifiers, Modified, next, stop, Target,
  target, refused, as_rewrite, is_blank, parse_dnsrewrite, is_allow_action, important_priority,
}
use alderpoint_dns.Rules.Parse.Sound.{IsInert, unsupported-IsInert}

module _ (py : Platform) (P : ParsedRule → Type 0)
    (raised : (r : ParsedRule) → P r → P (record r { priority = important_priority }))
    (rewritten : (r : ParsedRule) (address : Text) (family : Family)
      → is_allow_action r.action ≡ false
      → is_written address ≡ true
      → P r
      → P (record r {
        rule_type = RuleType.rewrite;
        action = Action.rewrite;
        rewrite_address = some address;
        address_family = some family;
      })) where
  abbrev After : Modified → Type 0
  After (next r) = P r
  After (stop r) = IsInert r

  abbrev Good : ParsedRule → Type 0
  Good r = P r ⊎ IsInert r

  rewrite-After :
      (r : ParsedRule) (t : Target)
      → is_allow_action r.action ≡ false
      → P r
      → After (elim t [
        | refused reason ↦ stop (unsupported r reason)
        | target ip ↦ next (as_rewrite r ip)
      ])
  rewrite-After r (refused reason) h p = unsupported-IsInert r reason
  rewrite-After r (target ip) h p =
      rewritten r (show_address ip) (if is_v4 ip then Family.ipv4 else Family.ipv6) h
        (show_address-is_written ip) p

  apply_modifier-After : (r : ParsedRule) (raw : Text) → P r → After (apply_modifier py r raw)
  unfolding apply_modifier
  apply_modifier-After r raw p =
      if_ind After (teq name (codes "important")) (λ _. raised r p)
        (λ _.
          if_ind After (teq name (codes "dnsrewrite"))
            (λ _.
              if_ind After (is_allow_action r.action) (λ _. unsupported-IsInert r _)
                (λ h. rewrite-After r (parse_dnsrewrite py (partition b'=' raw).2) h p))
            (λ _. unsupported-IsInert r _))
    where
      name : Text
      name = lower py (strip (partition b'=' raw).0)

  go_on :
      (m : Modified) (on : ParsedRule → ParsedRule)
      → ((r : ParsedRule) → P r → Good (on r))
      → After m
      → Good (elim m [ next r ↦ on r | stop r ↦ r ])
  go_on (next r) on h a = h r a
  go_on (stop r) on h a = inr a

  apply_modifiers-keeps :
      (raws : List Text) (r : ParsedRule) → P r → Good (apply_modifiers py r raws)
  unfolding apply_modifiers
  apply_modifiers-keeps [] r p = inl p
  apply_modifiers-keeps (raw ∷ raws) r p =
      if_ind Good (is_blank (strip raw)) (λ _. apply_modifiers-keeps raws r p)
        (λ _.
          go_on (apply_modifier py r (strip raw)) (λ s. apply_modifiers py s raws)
            (apply_modifiers-keeps raws) (apply_modifier-After r (strip raw) p))

  pub parse_modifiers-keeps :
      (r : ParsedRule) (text : Text) → P r → Good (parse_modifiers py r text)
  unfolding parse_modifiers
  parse_modifiers-keeps r text = apply_modifiers-keeps (split b',' text) r
