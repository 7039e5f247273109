-- ===== src/Rules/Store.antt =====
-- app/custom_rules.py: the operations on the table `custom_filter_rules`. A table is the list of its
-- rows in the order of insertion; an operation takes the text of the present time. An operation that
-- raises changes nothing: its connection is closed without a commit.
pub mod Rows
pub mod Outside
pub mod Good
pub mod Invariant
pub mod Deployed
pub mod Adding
pub mod Reimport
pub mod Counts
mod Tests
use alderpoint_dns.Base.{
  ℕ, suc, ◌+◌, Text, codes, Bool, true, false, not, ◌&&◌, Option, none, some, List, [], ◌∷◌, ◌++◌,
  max, map, keep, length, teq, ◌==◌, if◌then◌else◌,
}
use alderpoint_dns.Base.Str.{strip, split_lines}
use alderpoint_dns.Platform.{Platform}
use alderpoint_dns.Rules.Types.{RuleType, Action, ValidationState, ParsedRule, Row, is_valid}
use alderpoint_dns.Rules.Parse.Line.{parse_rule}

-- `error` is a CustomRuleError with its message.
pub data Result (A : Type 0) : Type 0 where
  error : Text → Result A
  ok : A → Result A

-- What the callers of `add_rule` give beside the text, and the time.
pub record Insertion : Type 0 where
  pub source_system : Text
  pub comment : Text
  pub enabled : Bool
  pub import_job_id : Option ℕ
  pub plain : Bool
  pub now : Text

pub data Status : Type 0 where
  added duplicate : Status

-- The dictionary that `_insert_rule` returns.
pub record Report : Type 0 where
  pub id : ℕ
  pub status : Status
  pub rule : ParsedRule

abbrev pub same_action : Action → Action → Bool
same_action Action.block Action.block = true
same_action Action.allow Action.allow = true
same_action Action.rewrite Action.rewrite = true
same_action Action.no_action Action.no_action = true
same_action _ _ = false

abbrev pub is_twin : Text → Action → Row → Bool
is_twin normalized action row = teq row.normalized normalized && same_action row.action action

abbrev pub first_of : List Row → Option Row
first_of [] = none
first_of (row ∷ _) = some row

unfoldable pub find_duplicate : Text → Action → List Row → Option Row
find_duplicate normalized action table = first_of (keep (is_twin normalized action) table)

-- The id of a new row: one more than the greatest.
unfoldable pub next_id : List Row → ℕ
next_id [] = 1
next_id (row ∷ rows) = max (suc row.id) (next_id rows)

abbrev pub is_comment : RuleType → Bool
is_comment RuleType.comment = true
is_comment _ = false

abbrev pub stored_enabled : ParsedRule → Bool → Bool
stored_enabled rule enabled =
    if not (is_valid rule.validation_state)
    then false
    else if is_comment rule.rule_type
    then true
    else enabled

-- `first or second`
abbrev pub or_text : Text → Text → Text
or_text [] second = second
or_text (c ∷ cs) second = c ∷ cs

abbrev pub new_row : Insertion → List Row → ParsedRule → Row
new_row given table rule = record {
  id = next_id table;
  rule = rule;
  enabled = stored_enabled rule given.enabled;
  source_system = given.source_system;
  import_job_id = given.import_job_id;
  row_comment = or_text rule.comment given.comment;
  created_at = given.now;
  updated_at = given.now;
}

unfoldable pub insert_rule : Insertion → List Row → ParsedRule → List Row × Report
insert_rule given table rule = elim (find_duplicate rule.normalized rule.action table) [
  | some existing ↦ (table, record { id = existing.id; status = duplicate; rule = rule })
  | none ↦ (
    table ++ new_row given table rule ∷ [],
    record { id = next_id table; status = added; rule = rule },
  )
]

unfoldable pub insert_rules : Insertion → List Row → List ParsedRule → List Row × List Report
insert_rules given table [] = (table, [])
insert_rules given table (rule ∷ rules) =
    let (table', report) = insert_rule given table rule in
    let (table'', reports) = insert_rules given table' rules in (table'', report ∷ reports)

unfoldable pub add_rule : Platform → Insertion → Text → List Row → List Row × List Report
add_rule py given text table = insert_rules given table (parse_rule py given.plain text)

pub record Summary : Type 0 where
  pub lines : List (ℕ × Text × List Report)
  pub added_active : ℕ
  pub added_inactive : ℕ
  pub duplicates : ℕ
  pub invalid : ℕ
  pub unsupported : ℕ
  pub comments : ℕ

abbrev pub no_summary : Summary
no_summary = record {
  lines = [];
  added_active = 0;
  added_inactive = 0;
  duplicates = 0;
  invalid = 0;
  unsupported = 0;
  comments = 0;
}

unfoldable pub count_state : Bool → ValidationState → Summary → Summary
count_state enabled ValidationState.invalid s = record s { invalid = s.invalid + 1 }
count_state enabled ValidationState.unsupported s = record s { unsupported = s.unsupported + 1 }
count_state true ValidationState.valid s = record s { added_active = s.added_active + 1 }
count_state false ValidationState.valid s = record s { added_inactive = s.added_inactive + 1 }

unfoldable pub count_report : Bool → Report → Summary → Summary
unfolding count_state
count_report enabled report s = elim report.status [
  | duplicate ↦ record s { duplicates = s.duplicates + 1 }
  | added ↦
      if is_comment report.rule.rule_type
      then record s { comments = s.comments + 1 }
      else count_state enabled report.rule.validation_state s
]

unfoldable pub count_reports : Bool → List Report → Summary → Summary
count_reports enabled [] s = s
count_reports enabled (report ∷ reports) s =
    count_reports enabled reports (count_report enabled report s)

abbrev pub is_blank_line : Text → Bool
is_blank_line [] = true
is_blank_line (_ ∷ _) = false

-- The loop of `add_rules_bulk` from line number `i` on.
unfoldable pub add_lines :
    Platform → Insertion → ℕ → List Text → List Row × Summary → List Row × Summary
add_lines py given i [] state = state
add_lines py given i (line ∷ lines) (table, s) =
    let (table', reports) = insert_rules given table (parse_rule py given.plain line) in
    let s' = record s { lines = s.lines ++ (i, strip line, reports) ∷ [] } in
    add_lines py given (i + 1) lines (
      if is_blank_line (strip line)
      then (table, s)
      else (table', count_reports given.enabled reports s'))

unfoldable pub add_rules_bulk : Platform → Insertion → Text → List Row → List Row × Summary
add_rules_bulk py given text table = add_lines py given 1 (split_lines text) (table, no_summary)

unfoldable pub get_rule : ℕ → List Row → Option Row
get_rule rule_id table = first_of (keep (λ (row : Row). row.id == rule_id) table)

-- UPDATE … WHERE id=?
unfoldable pub change_row : ℕ → (Row → Row) → List Row → List Row
change_row rule_id change = map (λ (row : Row). if row.id == rule_id then change row else row)

abbrev pub switch : Text → Bool → Row → Row
switch now enabled row = record row { enabled = enabled; updated_at = now }

abbrev state_name : ValidationState → Text
state_name ValidationState.valid = codes "valid"
state_name ValidationState.unsupported = codes "unsupported"
state_name ValidationState.invalid = codes "invalid"

abbrev cannot_enable : Row → Text
cannot_enable row =
    codes "this rule cannot be enabled ("
    ++ state_name row.validation_state
    ++ codes "): "
    ++ or_text row.unsupported_reason (codes "no details")

unfoldable pub set_enabled : Text → ℕ → Bool → List Row → Result (List Row)
set_enabled now rule_id enabled table = elim (get_rule rule_id table) [
  | none ↦ error (codes "rule not found")
  | some row ↦
      if enabled && not (is_valid row.validation_state)
      then error (cannot_enable row)
      else ok (change_row rule_id (switch now enabled) table)
]

unfoldable pub toggle_rule : Text → ℕ → List Row → Result (List Row)
toggle_rule now rule_id table = elim (get_rule rule_id table) [
  | none ↦ error (codes "rule not found")
  | some row ↦ set_enabled now rule_id (not row.enabled) table
]

unfoldable pub delete_rule : ℕ → List Row → List Row
delete_rule rule_id = keep (λ (row : Row). not (row.id == rule_id))

-- The numbers of rows that were updated and skipped.
unfoldable pub bulk_set_enabled : Text → Bool → List ℕ → List Row → List Row × ℕ × ℕ
bulk_set_enabled now enabled [] table = (table, 0, 0)
bulk_set_enabled now enabled (rule_id ∷ ids) table =
    let (table', updated, skipped) = bulk_set_enabled now enabled ids table in
    let (changed, updated', skipped') =
      bulk_set_enabled now enabled ids (change_row rule_id (switch now enabled) table) in
    elim (get_rule rule_id table) [
      | none ↦ (table', updated, suc skipped)
      | some row ↦
          if enabled && not (is_valid row.validation_state)
          then (table', updated, suc skipped)
          else (changed, suc updated', skipped')
    ]

-- The number of rows that were deleted comes with the table.
unfoldable pub bulk_delete : List ℕ → List Row → List Row × ℕ
bulk_delete [] table = (table, 0)
bulk_delete (rule_id ∷ ids) table =
    let (table', deleted) = bulk_delete ids (delete_rule rule_id table) in
    (table', length (keep (λ (row : Row). row.id == rule_id) table) + deleted)

-- What `update_rule` is given beside the id and the text.
pub record Edit : Type 0 where
  pub comment : Text
  pub enabled : Bool
  pub plain : Bool
  pub now : Text

abbrev pub edit_row : Edit → ParsedRule → Row → Row
edit_row given rule row = record row {
  rule = rule;
  enabled = if not (is_valid rule.validation_state) then false else given.enabled;
  row_comment = or_text given.comment rule.comment;
  updated_at = given.now;
}

-- Whether another row holds the rule already.
abbrev pub clashes : ℕ → Option Row → Bool
clashes rule_id none = false
clashes rule_id (some existing) = not (existing.id == rule_id)

abbrev pub single : List ParsedRule → Option ParsedRule
single (rule ∷ []) = some rule
single _ = none

unfoldable pub replace_rule : Edit → ℕ → ParsedRule → List Row → Result (List Row)
replace_rule given rule_id rule table =
    if (not (is_comment rule.rule_type) && is_valid rule.validation_state)
      && clashes rule_id (find_duplicate rule.normalized rule.action table)
    then error (codes "an identical rule already exists")
    else ok (change_row rule_id (edit_row given rule) table)

-- What the source returns beside, the id, state, reason and flag, stands in the changed row.
unfoldable pub update_rule : Platform → Edit → ℕ → Text → List Row → Result (List Row)
update_rule py given rule_id text table = elim (get_rule rule_id table) [
  | none ↦ error (codes "rule not found")
  | some row ↦ elim (single (parse_rule py given.plain text)) [
    | none ↦ error (codes "an edit must contain exactly one rule")
    | some rule ↦ replace_rule given rule_id rule table
  ]
]
