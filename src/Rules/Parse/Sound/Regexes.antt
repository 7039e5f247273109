-- ===== src/Rules/Parse/Sound/Regexes.antt =====
-- Regex rules.
use mathlib.Core.Bool.{false≢true}
use alderpoint_dns.Base.{
  Text, codes, Bool, true, false, Option, none, some, [], ◌∷◌, ◌++◌, ◌≡◌, refl, ap, sym, ◌∙◌, ltb,
  length, any, ◌⊎◌, inl, inr, if_ind, ◌≤◌, arith,
}
use alderpoint_dns.Base.Str.{is_control, starts_with, drop, drop_last}
use alderpoint_dns.Platform.{Platform}
use alderpoint_dns.Rules.Types.{RuleType, ParsedRule, is_valid}
use alderpoint_dns.Rules.Regex.{posix_ere_incompatibility, nested_quantifier_risk}
use alderpoint_dns.Rules.Parse.Modifiers.{
  unsupported, validate_regex, max_regex_length, parse_modifiers, important_priority,
}
use alderpoint_dns.Rules.Parse.Line.{
  is_rewrite_type, regex_rule, no_rewrite_regex, modified_regex, parse_regex_rule, is_open,
  regex_parts, strip_allow,
}
use alderpoint_dns.Rules.Parse.Sound.{
  IsInert, regex_kind, IsRegexRule, IsSound, inert, of_regex, unsupported-IsInert, invalid-IsInert,
}
use alderpoint_dns.Rules.Parse.Sound.Keeps.{parse_modifiers-keeps}

module _ (py : Platform) where
  abbrev Checked : ParsedRule → Type 0
  Checked r = IsRegexRule py r ⊎ IsInert r

  regex_rule-kind :
      (raw : Text) (b : Bool) (p : Text)
      → regex_kind (regex_rule raw b p).rule_type (regex_rule raw b p).action ≡ true
  regex_rule-kind raw true p = refl
  regex_rule-kind raw false p = refl

  validate_regex-Checked :
      (raw : Text) (b : Bool) (p : Text) → Checked (validate_regex py (regex_rule raw b p))
  unfolding validate_regex
  validate_regex-Checked raw b p =
      if_ind Checked (ltb max_regex_length (length p)) (λ _. inr (unsupported-IsInert _ _))
        (λ short.
          if_ind Checked (any is_control p) (λ _. inr (unsupported-IsInert _ _))
            (λ printable. compiled (ground (arith, short)) printable (py.compile_error p) refl))
    where
      rule : ParsedRule
      rule = regex_rule raw b p

      scanned :
          (length p ≤ 512)
          → any is_control p ≡ false
          → py.compile_error p ≡ none
          → posix_ere_incompatibility py p ≡ none
          → (o : Option Text) → nested_quantifier_risk p ≡ o
          → Checked (elim o [ some reason ↦ unsupported rule reason | none ↦ rule ])
      scanned l c e f (some reason) g = inr (unsupported-IsInert rule reason)
      scanned l c e f none g = inl (record {
        state = refl;
        kind = regex_rule-kind raw b p;
        source = p;
        given = refl;
        unnamed = refl;
        short = l;
        printable = c;
        compiles = e;
        portable = f;
        safe = g;
      })

      ported :
          (length p ≤ 512)
          → any is_control p ≡ false
          → py.compile_error p ≡ none
          → (o : Option Text) → posix_ere_incompatibility py p ≡ o
          → Checked (elim o [
            | some reason ↦ unsupported rule reason
            | none ↦ elim (nested_quantifier_risk p) [
              | some reason ↦ unsupported rule reason
              | none ↦ rule
            ]
          ])
      ported l c e (some reason) f = inr (unsupported-IsInert rule reason)
      ported l c e none f = scanned l c e f (nested_quantifier_risk p) refl

      compiled :
          (length p ≤ 512)
          → any is_control p ≡ false
          → (o : Option Text) → py.compile_error p ≡ o
          → Checked (elim o [
            | some exc ↦ unsupported rule (codes "regex does not compile: " ++ exc)
            | none ↦ elim (posix_ere_incompatibility py p) [
              | some reason ↦ unsupported rule reason
              | none ↦ elim (nested_quantifier_risk p) [
                | some reason ↦ unsupported rule reason
                | none ↦ rule
              ]
            ]
          ])
      compiled l c (some exc) e = inr (unsupported-IsInert rule _)
      compiled l c none e = ported l c e (posix_ere_incompatibility py p) refl

  -- With modifiers a regex rule stays one, or it has become a rewrite.
  abbrev IsRegexOrRewrite : ParsedRule → Type 0
  IsRegexOrRewrite r = IsRegexRule py r ⊎ (r.rule_type ≡ RuleType.rewrite)

  raised-IsRegexOrRewrite :
      (r : ParsedRule)
      → IsRegexOrRewrite r
      → IsRegexOrRewrite (record r { priority = important_priority })
  raised-IsRegexOrRewrite r (inl h) = inl (record {
    state = h.state;
    kind = h.kind;
    source = h.source;
    given = h.given;
    unnamed = h.unnamed;
    short = h.short;
    printable = h.printable;
    compiles = h.compiles;
    portable = h.portable;
    safe = h.safe;
  })
  raised-IsRegexOrRewrite r (inr e) = inr e

  no_rewrite_regex-IsSound :
      (r : ParsedRule) → IsRegexOrRewrite r ⊎ IsInert r → IsSound py (no_rewrite_regex r)
  no_rewrite_regex-IsSound r h =
      if_ind (IsSound py) (is_rewrite_type r.rule_type) (λ _. inert (unsupported-IsInert r _))
        (λ e. go h e)
    where
      go : IsRegexOrRewrite r ⊎ IsInert r → is_rewrite_type r.rule_type ≡ false → IsSound py r
      go (inl (inl g)) e = of_regex g
      go (inl (inr f)) e = absurd (false≢true (sym e ∙ ap is_rewrite_type f))
      go (inr i) e = inert i

  modified_regex-IsSound :
      (modifiers : Text) (r : ParsedRule) → Checked r → IsSound py (modified_regex py modifiers r)
  modified_regex-IsSound [] r (inl g) = of_regex g
  modified_regex-IsSound [] r (inr i) = inert i
  modified_regex-IsSound (c ∷ cs) r (inl g) = rw (ap is_valid g.state) (
      no_rewrite_regex-IsSound (parse_modifiers py r (c ∷ cs)) (
        parse_modifiers-keeps py IsRegexOrRewrite raised-IsRegexOrRewrite (λ _ _ _ _ _ _. inr refl)
          r (c ∷ cs) (inl g)))
  modified_regex-IsSound (c ∷ cs) r (inr i) = rw i.state (inert i)

  pub parse_regex_rule-IsSound : (raw : Text) → IsSound py (parse_regex_rule py raw)
  unfolding parse_regex_rule
  parse_regex_rule-IsSound raw =
      let body = (regex_parts (strip_allow raw)).0 in
      if_ind (IsSound py) (is_open body) (λ _. inert (invalid-IsInert raw _))
        (λ _.
          modified_regex-IsSound (regex_parts (strip_allow raw)).1 _
            (validate_regex-Checked raw (starts_with (codes "@@") raw) (drop_last (drop 1 body))))
