-- ===== src/Rules/Types.antt =====
-- app/custom_rules.py: the parsed rule and the rows of the table `custom_filter_rules`.
use alderpoint_dns.Base.{ℕ, Text, Bool, true, false, Option, some, ◌∷◌}

-- The values that the CHECK of the column `rule_type` lists.
pub data RuleType : Type 0 where
  block allow rewrite regex_block regex_allow comment unsupported : RuleType

pub data Action : Type 0 where
  block allow rewrite no_action : Action

pub data ValidationState : Type 0 where
  valid unsupported invalid : ValidationState

pub data Family : Type 0 where
  ipv4 ipv6 : Family

pub record ParsedRule : Type 0 where
  pub rule_text : Text
  pub normalized : Text
  pub rule_type : RuleType
  pub action : Action
  pub domain : Option Text
  pub match_subdomains : Bool
  pub pattern : Option Text
  pub rewrite_address : Option Text
  pub address_family : Option Family
  pub qtype_restriction : Option Text
  pub priority : ℕ
  pub validation_state : ValidationState
  pub unsupported_reason : Text
  pub comment : Text

-- A row has the fields of the rule that it was made from.
pub record Row : Type 0 where
  pub id : ℕ
  pub rule : ParsedRule
  pub open rule use *
  pub enabled : Bool
  pub source_system : Text
  pub import_job_id : Option ℕ
  pub row_comment : Text
  pub created_at : Text
  pub updated_at : Text

abbrev pub is_valid : ValidationState → Bool
is_valid valid = true
is_valid _ = false

-- `enabled=1 AND validation_state='valid'`
abbrev pub is_active : Row → Bool
is_active row = elim row.enabled [ true ↦ is_valid row.validation_state | false ↦ false ]

abbrev pub truthy : Option Text → Bool
truthy (some (_ ∷ _)) = true
truthy _ = false
