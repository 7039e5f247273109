-- ===== src/Rules/Active.antt =====
-- app/custom_rules.py: `ActiveRuleSet`, `collect_active` and `_resolve_conflicts`. A row with no
-- domain, of a type that has one, is passed over: the parser yields no valid rule of that kind.
pub mod Views
pub mod Summary
pub mod Order
pub mod Keyed
pub mod Resolution
use alderpoint_dns.Base.{
  ℕ, Text, Bool, true, false, not, ◌&&◌, ◌||◌, Option, none, some, List, [], ◌∷◌, ◌++◌, foldl, max,
  keep, if◌then◌else◌, ltb, leb,
}
use alderpoint_dns.Base.Dict.{Dict, lookup, insert, erase}
use alderpoint_dns.Rules.Types.{
  RuleType, Action, ValidationState, Family, ipv4, ipv6, ParsedRule, Row, is_active,
}

-- An entry of `rewrites`.
pub record Rewrite : Type 0 where
  pub a : Option Text
  pub aaaa : Option Text
  pub subdomains : Bool

-- An entry of `allows` or `blocks`.
pub record Scope : Type 0 where
  pub exact : Bool
  pub subdomains : Bool
  pub priority : ℕ

pub record ActiveRuleSet : Type 0 where
  pub rewrites : Dict Rewrite
  pub allows : Dict Scope
  pub blocks : Dict Scope
  pub regex_allow : List Text
  pub regex_block : List Text

abbrev pub empty : ActiveRuleSet
empty = record { rewrites = []; allows = []; blocks = []; regex_allow = []; regex_block = [] }

-- `ORDER BY priority DESC, id`
unfoldable pub precedes : Row → Row → Bool
precedes r s = ltb s.priority r.priority || (leb s.priority r.priority && leb r.id s.id)

unfoldable pub place_row : Row → List Row → List Row
place_row r [] = r ∷ []
place_row r (s ∷ rows) = if precedes r s then r ∷ s ∷ rows else s ∷ place_row r rows

unfoldable pub ordered : List Row → List Row
unfolding place_row
ordered [] = []
ordered (r ∷ rows) = place_row r (ordered rows)

-- `entry[rtype]` is set by the first rule of the family.
abbrev pub or_else : Option Text → Option Text → Option Text
or_else (some x) y = some x
or_else none y = y

abbrev pub is_ipv4 : Option Family → Bool
is_ipv4 (some ipv4) = true
is_ipv4 _ = false

abbrev pub no_rewrite : Rewrite
no_rewrite = record { a = none; aaaa = none; subdomains = false }

abbrev pub no_scope : Scope
no_scope = record { exact = false; subdomains = false; priority = 0 }

abbrev pub default {ℓ} : {A : Type ℓ} → A → Option A → A
default d none = d
default d (some x) = x

unfoldable pub add_rewrite : Row → Rewrite → Rewrite
add_rewrite row entry = record {
  a = if is_ipv4 row.address_family then or_else entry.a row.rewrite_address else entry.a;
  aaaa = if is_ipv4 row.address_family then entry.aaaa else or_else entry.aaaa row.rewrite_address;
  subdomains = if row.match_subdomains then true else entry.subdomains;
}

unfoldable pub add_scope : Row → Scope → Scope
add_scope row entry = record {
  exact = if row.match_subdomains then entry.exact else true;
  subdomains = if row.match_subdomains then true else entry.subdomains;
  priority = max entry.priority row.priority;
}

-- What one row with the domain `name` adds.
unfoldable pub collect_at : RuleType → Text → Row → ActiveRuleSet → ActiveRuleSet
unfolding add_rewrite add_scope
collect_at RuleType.rewrite name row active = record active {
  rewrites =
      insert name (add_rewrite row (default no_rewrite (lookup name active.rewrites)))
        active.rewrites;
}
collect_at RuleType.allow name row active = record active {
  allows = insert name (add_scope row (default no_scope (lookup name active.allows))) active.allows;
}
collect_at RuleType.block name row active = record active {
  blocks = insert name (add_scope row (default no_scope (lookup name active.blocks))) active.blocks;
}
collect_at _ name row active = active

abbrev pub with_pattern : Option Text → List Text → List Text
with_pattern none patterns = patterns
with_pattern (some p) patterns = patterns ++ p ∷ []

unfoldable pub collect_regex : RuleType → Row → ActiveRuleSet → ActiveRuleSet
collect_regex RuleType.regex_allow row active = record active {
  regex_allow = with_pattern row.pattern active.regex_allow;
}
collect_regex RuleType.regex_block row active = record active {
  regex_block = with_pattern row.pattern active.regex_block;
}
collect_regex _ row active = active

unfoldable pub collect_row : ActiveRuleSet → Row → ActiveRuleSet
unfolding collect_at collect_regex
collect_row active row = elim row.domain [
  | some name ↦ collect_at row.rule_type name row (collect_regex row.rule_type row active)
  | none ↦ collect_regex row.rule_type row active
]

-- The block at a name gives way to the rewrite there.
abbrev pub yield_to_rewrite : Option Rewrite → Scope → Scope
yield_to_rewrite none blk = blk
yield_to_rewrite (some rewrite) blk = record blk {
  exact = false;
  subdomains = if rewrite.subdomains then false else blk.subdomains;
}

abbrev pub yield_to_allow : Scope → Scope → Scope
yield_to_allow allow blk = record blk {
  exact = false;
  subdomains = if allow.subdomains then false else blk.subdomains;
}

abbrev pub is_empty : Scope → Bool
is_empty s = not s.exact && not s.subdomains

unfoldable pub store_block : Text → Scope → ActiveRuleSet → ActiveRuleSet
store_block name blk active =
    if is_empty blk
    then record active { blocks = erase name active.blocks }
    else record active { blocks = insert name blk active.blocks }

-- The first loop of `_resolve_conflicts`.
unfoldable pub resolve_block : ActiveRuleSet → Text × Scope → ActiveRuleSet
unfolding store_block
resolve_block active (name, blk0) =
    let blk = yield_to_rewrite (lookup name active.rewrites) blk0 in
    elim (lookup name active.allows) [
      | none ↦ store_block name blk active
      | some allow ↦
          if ltb allow.priority blk.priority
          then store_block name blk (record active { allows = erase name active.allows })
          else store_block name (yield_to_allow allow blk) active
    ]

abbrev pub narrow_allow : Text → Option Scope → ActiveRuleSet → ActiveRuleSet
narrow_allow name none active = active
narrow_allow name (some allow) active =
    if not allow.subdomains
    then record active { allows = erase name active.allows }
    else record active { allows = insert name (record allow { exact = false }) active.allows }

-- The second loop.
unfoldable pub resolve_allow : ActiveRuleSet → Text × Scope → ActiveRuleSet
resolve_allow active (name, _) = elim (lookup name active.rewrites) [
  | none ↦ active
  | some rewrite ↦
      if rewrite.subdomains
      then record active { allows = erase name active.allows }
      else narrow_allow name (lookup name active.allows) active
]

unfoldable pub resolve_conflicts : ActiveRuleSet → ActiveRuleSet
unfolding resolve_block resolve_allow
resolve_conflicts active =
    let after = foldl resolve_block active active.blocks in foldl resolve_allow after after.allows

unfoldable pub collect_rows : List Row → ActiveRuleSet
collect_rows = foldl collect_row empty

unfoldable pub collect_active : List Row → ActiveRuleSet
collect_active table = resolve_conflicts (collect_rows (ordered (keep is_active table)))
