-- ===== src/Rules/Evaluate.antt =====
-- app/custom_rules.py: the choice that `evaluate_domain` makes among the rules of its best key.
use alderpoint_dns.Base.{ℕ, Bool, true, false, ◌&&◌, List, [], ◌∷◌, max, keep, if◌then◌else◌, ltb}
use alderpoint_dns.Rules.Types.{RuleType, Row}

pub data FinalAction : Type 0 where
  resolve local rewrite allow block : FinalAction

unfoldable pub is_rewrite : RuleType → Bool
is_rewrite RuleType.rewrite = true
is_rewrite _ = false

unfoldable pub is_allow : RuleType → Bool
is_allow RuleType.allow = true
is_allow _ = false

unfoldable pub is_block : RuleType → Bool
is_block RuleType.block = true
is_block _ = false

abbrev pub nonempty {ℓ} : {A : Type ℓ} → List A → Bool
nonempty [] = false
nonempty (_ ∷ _) = true

-- `max(row["priority"] for row in rows)`, of rows that there are.
unfoldable pub max_priority : List Row → ℕ
max_priority [] = 0
max_priority (row ∷ rows) = max row.priority (max_priority rows)

abbrev pub of_type : (RuleType → Bool) → List Row → List Row
of_type p = keep (λ (row : Row). p row.rule_type)

unfoldable pub decide_best : List Row → FinalAction
decide_best best =
    let rewrites = of_type is_rewrite best in
    let allows = of_type is_allow best in
    let blocks = of_type is_block best in
    if nonempty rewrites
    then rewrite
    else if nonempty allows && (nonempty blocks && ltb (max_priority allows) (max_priority blocks))
    then block
    else if nonempty allows
    then allow
    else block
