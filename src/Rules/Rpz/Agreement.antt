-- ===== src/Rules/Rpz/Agreement.antt =====
-- The compiled zone against the verdict of `evaluate_domain`, owner by owner.
use alderpoint_dns.Base.{
  Bool, false, not, ◌&&◌, ◌||◌, Option, none, some, List, [], ◌∷◌, ◌≡◌, refl, any, keep,
  if◌then◌else◌, arith, ltb,
}
use alderpoint_dns.Rules.Types.{RuleType, Row}
use alderpoint_dns.Rules.Evaluate.{
  FinalAction, is_rewrite, is_allow, is_block, max_priority, decide_best, nonempty, of_type,
}
use alderpoint_dns.Rules.Active.Views.{View}
use alderpoint_dns.Rules.Active.Resolution.{resolve_view}
use alderpoint_dns.Rules.Active.Summary.{present, rewrite_sub, scope_sub, scope_priority, IsMeant}
use alderpoint_dns.Rules.Rpz.{Rdata, a, aaaa, passthru, nxdomain}
use alderpoint_dns.Rules.Rpz.Emission.{zone_view}

-- What the records at one owner make a resolver do.
unfoldable pub ruling : List Rdata → Option FinalAction
ruling [] = none
ruling (a _ ∷ _) = some FinalAction.rewrite
ruling (aaaa _ ∷ _) = some FinalAction.rewrite
ruling (passthru ∷ _) = some FinalAction.allow
ruling (nxdomain ∷ _) = some FinalAction.block

-- The choice among rewrites, allows and blocks, of which some are there; `outranked` is the test
-- of the priorities.
unfoldable pub pick : Bool → Bool → Bool → Bool → Option FinalAction
pick rewrites allows blocks outranked =
    if rewrites
    then some FinalAction.rewrite
    else if allows
    then (if blocks && outranked then some FinalAction.block else some FinalAction.allow)
    else if blocks
    then some FinalAction.block
    else none

abbrev pub outranks : View → Bool
outranks v = ltb (scope_priority v.allow) (scope_priority v.block)

pub zone_here :
    (v : View)
    → IsMeant v
    → ruling (zone_view (resolve_view v).rewrite (resolve_view v).allow (resolve_view v).block).here
      ≡ pick (present v.rewrite) (present v.allow) (present v.block) (outranks v)
unfolding ruling pick zone_view resolve_view
zone_here v h = ground arith

-- A block that outranks the allow of its name removes the allow below the name too.
pub zone_below :
    (v : View)
    → IsMeant v
    → ruling
        (zone_view (resolve_view v).rewrite (resolve_view v).allow (resolve_view v).block).below
      ≡ pick
          (rewrite_sub v.rewrite)
          (scope_sub v.allow && not (present v.block && outranks v))
          (scope_sub v.block)
          false
unfolding ruling pick zone_view resolve_view
zone_below v h = ground arith

-- The rules of the three kinds that take part, among those that pass `q`.
abbrev pub is_domain_rule : RuleType → Bool
is_domain_rule t = is_rewrite t || (is_allow t || is_block t)

abbrev pub chosen : (Row → Bool) → List Row → List Row
chosen q = keep (λ (r : Row). q r && is_domain_rule r.rule_type)

-- What `evaluate_domain` answers from a group of rules, none if the group is empty.
abbrev pub verdict : List Row → Option FinalAction
verdict best = if nonempty best then some (decide_best best) else none

nonempty-keep : (p : Row → Bool) (rows : List Row) → nonempty (keep p rows) ≡ any p rows
unfolding keep any
nonempty-keep p [] = refl
nonempty-keep p (r ∷ rows) = ground (arith, nonempty-keep p rows)

module _ (q : Row → Bool) where
  abbrev pub both : (RuleType → Bool) → Row → Bool
  both p r = q r && p r.rule_type

  rewrites-chosen :
      (rows : List Row) → of_type is_rewrite (chosen q rows) ≡ keep (both is_rewrite) rows
  unfolding keep is_rewrite is_allow is_block
  rewrites-chosen [] = refl
  rewrites-chosen (r ∷ rows) = ground (arith, rewrites-chosen rows)

  allows-chosen : (rows : List Row) → of_type is_allow (chosen q rows) ≡ keep (both is_allow) rows
  unfolding keep is_rewrite is_allow is_block
  allows-chosen [] = refl
  allows-chosen (r ∷ rows) = ground (arith, allows-chosen rows)

  blocks-chosen : (rows : List Row) → of_type is_block (chosen q rows) ≡ keep (both is_block) rows
  unfolding keep is_rewrite is_allow is_block
  blocks-chosen [] = refl
  blocks-chosen (r ∷ rows) = ground (arith, blocks-chosen rows)

  any-chosen :
      (rows : List Row)
      → any (λ (r : Row). q r && is_domain_rule r.rule_type) rows
        ≡ (any (both is_rewrite) rows || (any (both is_allow) rows || any (both is_block) rows))
  unfolding any
  any-chosen [] = refl
  any-chosen (r ∷ rows) = ground (arith, any-chosen rows)

  pub verdict-chosen :
      (rows : List Row)
      → verdict (chosen q rows)
        ≡ pick (any (both is_rewrite) rows) (any (both is_allow) rows) (any (both is_block) rows) (
            ltb
              (max_priority (keep (both is_allow) rows))
              (max_priority (keep (both is_block) rows)))
  unfolding pick decide_best
  verdict-chosen rows =
      rw (rewrites-chosen rows, allows-chosen rows, blocks-chosen rows, nonempty-keep _ rows)
        (rw
          (
            any-chosen rows,
            nonempty-keep (both is_rewrite) rows,
            nonempty-keep (both is_allow) rows,
            nonempty-keep (both is_block) rows,
          )
          (ground arith))
