-- ===== src/Rules/Store/Counts.antt =====
-- app/custom_rules.py: `rule_counts`. A group of the query adds the number of its rows; here each row
-- adds one.
use alderpoint_dns.Base.{
  ℕ, ◌+◌, Bool, true, false, List, [], ◌∷◌, All, ◌≡◌, refl, ap, sym, ◌∙◌, arith,
}
use mathlib.Core.Bool.{false≢true}
use alderpoint_dns.Platform.{Platform}
use alderpoint_dns.Rules.Types.{RuleType, Action, ValidationState, ParsedRule, Row, is_valid}
use alderpoint_dns.Rules.Parse.Sound.{
  IsSound, domain_kind, regex_kind, inert, of_domain, of_regex, of_comment,
}
use alderpoint_dns.Rules.Store.Good.{IsGoodRow}
use alderpoint_dns.Rules.Store.Invariant.{Reachable, Reachable-IsGoodTable}

pub record Counts : Type 0 where
  pub total : ℕ
  pub active : ℕ
  pub disabled : ℕ
  pub allow : ℕ
  pub block : ℕ
  pub rewrite : ℕ
  pub regex : ℕ
  pub comment : ℕ
  pub unsupported : ℕ
  pub invalid : ℕ

abbrev pub zero_counts : Counts
zero_counts = record {
  total = 0;
  active = 0;
  disabled = 0;
  allow = 0;
  block = 0;
  rewrite = 0;
  regex = 0;
  comment = 0;
  unsupported = 0;
  invalid = 0;
}

abbrev pub count_enabled : Bool → Counts → Counts
count_enabled true c = record c { active = c.active + 1 }
count_enabled false c = record c { disabled = c.disabled + 1 }

-- Of a valid row.
unfoldable pub count_type : RuleType → Bool → Counts → Counts
count_type RuleType.comment enabled c = record c { comment = c.comment + 1 }
count_type RuleType.regex_allow enabled c = count_enabled enabled (record c { regex = c.regex + 1 })
count_type RuleType.regex_block enabled c = count_enabled enabled (record c { regex = c.regex + 1 })
count_type RuleType.allow enabled c = count_enabled enabled (record c { allow = c.allow + 1 })
count_type RuleType.block enabled c = count_enabled enabled (record c { block = c.block + 1 })
count_type RuleType.rewrite enabled c = count_enabled enabled (record c { rewrite = c.rewrite + 1 })
count_type RuleType.unsupported enabled c =
    count_enabled enabled (record c { unsupported = c.unsupported + 1 })

unfoldable pub count_row : Row → Counts → Counts
unfolding count_type
count_row row c0 =
    let c = record c0 { total = c0.total + 1 } in
    elim row.validation_state [
      | ValidationState.invalid ↦ record c { invalid = c.invalid + 1 }
      | ValidationState.unsupported ↦ record c { unsupported = c.unsupported + 1 }
      | ValidationState.valid ↦ count_type row.rule_type row.enabled c
    ]

unfoldable pub count_rows : List Row → Counts → Counts
count_rows [] c = c
count_rows (row ∷ rows) c = count_rows rows (count_row row c)

unfoldable pub rule_counts : List Row → Counts
unfolding count_rows
rule_counts table = count_rows table zero_counts

-- Each row is counted once by its state, and each rule in force or switched off once by its kind.
abbrev pub IsBalanced : Counts → Type 0
IsBalanced c =
    (c.total ≡ c.active + (c.disabled + (c.comment + (c.unsupported + c.invalid))))
    × (c.active + c.disabled ≡ c.allow + (c.block + (c.rewrite + c.regex)))

abbrev is_unsupported : RuleType → Bool
is_unsupported RuleType.unsupported = true
is_unsupported _ = false

domain_kind-supported :
    (t : RuleType) (a : Action) → domain_kind t a ≡ true → is_unsupported t ≡ false
domain_kind-supported t a h = ground (arith, h)

regex_kind-supported :
    (t : RuleType) (a : Action) → regex_kind t a ≡ true → is_unsupported t ≡ false
regex_kind-supported t a h = ground (arith, h)

module _ (py : Platform) where
  IsSound-supported :
      (r : ParsedRule)
      → IsSound py r
      → is_valid r.validation_state ≡ true
      → is_unsupported r.rule_type ≡ false
  IsSound-supported r (inert i) h = absurd (false≢true (sym i.state ∙ h))
  IsSound-supported r (of_domain d) h = domain_kind-supported r.rule_type r.action d.kind
  IsSound-supported r (of_regex x) h = regex_kind-supported r.rule_type r.action x.kind
  IsSound-supported r (of_comment c) h = ap is_unsupported c.type

  count_row-IsBalanced :
      (r : Row) (c : Counts) → IsGoodRow py r → IsBalanced c → IsBalanced (count_row r c)
  unfolding count_row
  count_row-IsBalanced r c good h =
      go r.validation_state r.rule_type r.enabled (IsSound-supported r.rule good.parsed.sound)
    where
      go :
          (s : ValidationState) (t : RuleType) (b : Bool)
          → (is_valid s ≡ true → is_unsupported t ≡ false)
          → IsBalanced (elim s [
            | ValidationState.invalid ↦ record c { total = c.total + 1; invalid = c.invalid + 1 }
            | ValidationState.unsupported ↦ record c {
              total = c.total + 1;
              unsupported = c.unsupported + 1;
            }
            | ValidationState.valid ↦ count_type t b (record c { total = c.total + 1 })
          ])
      go s t b k = ground (arith, h, k)

  count_rows-IsBalanced :
      (rows : List Row) (c : Counts)
      → All (IsGoodRow py) rows
      → IsBalanced c
      → IsBalanced (count_rows rows c)
  unfolding count_rows
  count_rows-IsBalanced [] c good h = h
  count_rows-IsBalanced (r ∷ rows) c good h =
      count_rows-IsBalanced rows (count_row r c) good.1 (count_row-IsBalanced r c good.0 h)

  -- The counts of a reachable table add up: by state, with the comments, to the total, and the rules
  -- in force and those switched off by kind.
  pub rule_counts-IsBalanced : (t : List Row) → Reachable py t → IsBalanced (rule_counts t)
  unfolding rule_counts
  rule_counts-IsBalanced t r =
      count_rows-IsBalanced t zero_counts (Reachable-IsGoodTable py t r).rows (refl, refl)
