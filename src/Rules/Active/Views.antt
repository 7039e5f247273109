-- ===== src/Rules/Active/Views.antt =====
-- What an `ActiveRuleSet` holds at one name, and how `collect_row` changes it.
use alderpoint_dns.Base.{
  Text, Bool, false, Option, none, some, List, [], ◌∷◌, foldl, ◌≡◌, refl, ◌∙◌, ap, teq, teq_iff,
  if◌then◌else◌, arith, All,
}
use alderpoint_dns.Base.Dict.{lookup, lookup-insert, insert-IsUnique, insert-Each, IsUnique, Each}
use alderpoint_dns.Rules.Types.{RuleType, Row}
use alderpoint_dns.Rules.Active.{
  Rewrite, Scope, ActiveRuleSet, default, no_rewrite, no_scope, add_rewrite, add_scope, collect_at,
  collect_regex, collect_row,
}

pub record View : Type 0 where
  pub rewrite : Option Rewrite
  pub allow : Option Scope
  pub block : Option Scope

unfoldable pub view : Text → ActiveRuleSet → View
view n active = record {
  rewrite = lookup n active.rewrites;
  allow = lookup n active.allows;
  block = lookup n active.blocks;
}

abbrev pub is_at : Text → Row → Bool
is_at n row = elim row.domain [ none ↦ false | some name ↦ teq name n ]

-- What one row at the name adds to its view.
unfoldable pub see_at : RuleType → Row → View → View
unfolding add_rewrite add_scope
see_at RuleType.rewrite row v = record v {
  rewrite = some (add_rewrite row (default no_rewrite v.rewrite));
}
see_at RuleType.allow row v = record v { allow = some (add_scope row (default no_scope v.allow)) }
see_at RuleType.block row v = record v { block = some (add_scope row (default no_scope v.block)) }
see_at _ row v = v

unfoldable pub see : Text → View → Row → View
unfolding see_at
see n v row = if is_at n row then see_at row.rule_type row v else v

view-collect_regex :
    (n : Text) (t : RuleType) (row : Row) (s : ActiveRuleSet)
    → view n (collect_regex t row s) ≡ view n s
unfolding view collect_regex
view-collect_regex n RuleType.regex_allow row s = refl
view-collect_regex n RuleType.regex_block row s = refl
view-collect_regex n _ row s = refl

view-collect_at :
    (n m : Text) (t : RuleType) (row : Row) (s : ActiveRuleSet)
    → view n (collect_at t m row s) ≡ (if teq m n then see_at t row (view n s) else view n s)
unfolding view collect_at see_at
view-collect_at n m RuleType.rewrite row s = ground (
  arith,
  lookup-insert m n (add_rewrite row (default no_rewrite (lookup m s.rewrites))) s.rewrites,
  teq_iff m n,
)
view-collect_at n m RuleType.allow row s = ground (
  arith,
  lookup-insert m n (add_scope row (default no_scope (lookup m s.allows))) s.allows,
  teq_iff m n,
)
view-collect_at n m RuleType.block row s = ground (
  arith,
  lookup-insert m n (add_scope row (default no_scope (lookup m s.blocks))) s.blocks,
  teq_iff m n,
)
view-collect_at n m _ row s = ground arith

pub view-collect_row :
    (n : Text) (row : Row) (s : ActiveRuleSet) → view n (collect_row s row) ≡ see n (view n s) row
unfolding collect_row see
view-collect_row n row s = go row.domain
  where
    go :
        (d : Option Text)
        → view n (elim d [
          | some name ↦ collect_at row.rule_type name row (collect_regex row.rule_type row s)
          | none ↦ collect_regex row.rule_type row s
        ])
          ≡ (if (elim d [ none ↦ false | some name ↦ teq name n ])
              then see_at row.rule_type row (view n s)
              else view n s)
    go none = view-collect_regex n row.rule_type row s
    go (some m) =
        view-collect_at n m row.rule_type row (collect_regex row.rule_type row s)
        ∙ rw (view-collect_regex n row.rule_type row s)

-- The view under a name after any rows is what those rows add to it, in order.
pub view-foldl_collect :
    (n : Text) (rows : List Row) (s : ActiveRuleSet)
    → view n (foldl collect_row s rows) ≡ foldl (see n) (view n s) rows
view-foldl_collect n [] s = refl
view-foldl_collect n (row ∷ rows) s =
    view-foldl_collect n rows (collect_row s row)
    ∙ ap (λ v. foldl (see n) v rows) (view-collect_row n row s)

-- Well-formed rule sets: the keys are distinct, and each satisfies `P`.
pub record IsKeyed {ℓ} (P : Text → Type ℓ) (s : ActiveRuleSet) : Type ℓ where
  pub rewrites : IsUnique s.rewrites
  pub allows : IsUnique s.allows
  pub blocks : IsUnique s.blocks
  pub rewrites_each : Each (λ k _. P k) s.rewrites
  pub allows_each : Each (λ k _. P k) s.allows
  pub blocks_each : Each (λ k _. P k) s.blocks

module _ {ℓ} (P : Text → Type ℓ) where
  abbrev pub OfDomain : Option Text → Type ℓ
  OfDomain none = Unit
  OfDomain (some name) = P name

  collect_regex-IsKeyed :
      (t : RuleType) (row : Row) (s : ActiveRuleSet)
      → IsKeyed P s
      → IsKeyed P (collect_regex t row s)
  unfolding collect_regex
  collect_regex-IsKeyed RuleType.regex_allow row s h = record {
    rewrites = h.rewrites;
    allows = h.allows;
    blocks = h.blocks;
    rewrites_each = h.rewrites_each;
    allows_each = h.allows_each;
    blocks_each = h.blocks_each;
  }
  collect_regex-IsKeyed RuleType.regex_block row s h = record {
    rewrites = h.rewrites;
    allows = h.allows;
    blocks = h.blocks;
    rewrites_each = h.rewrites_each;
    allows_each = h.allows_each;
    blocks_each = h.blocks_each;
  }
  collect_regex-IsKeyed _ row s h = h

  collect_at-IsKeyed :
      (t : RuleType) (m : Text) (row : Row) (s : ActiveRuleSet)
      → P m
      → IsKeyed P s
      → IsKeyed P (collect_at t m row s)
  unfolding collect_at
  collect_at-IsKeyed RuleType.rewrite m row s p h = record {
    rewrites = insert-IsUnique m _ s.rewrites h.rewrites;
    allows = h.allows;
    blocks = h.blocks;
    rewrites_each = insert-Each (λ k _. P k) m _ s.rewrites p h.rewrites_each;
    allows_each = h.allows_each;
    blocks_each = h.blocks_each;
  }
  collect_at-IsKeyed RuleType.allow m row s p h = record {
    rewrites = h.rewrites;
    allows = insert-IsUnique m _ s.allows h.allows;
    blocks = h.blocks;
    rewrites_each = h.rewrites_each;
    allows_each = insert-Each (λ k _. P k) m _ s.allows p h.allows_each;
    blocks_each = h.blocks_each;
  }
  collect_at-IsKeyed RuleType.block m row s p h = record {
    rewrites = h.rewrites;
    allows = h.allows;
    blocks = insert-IsUnique m _ s.blocks h.blocks;
    rewrites_each = h.rewrites_each;
    allows_each = h.allows_each;
    blocks_each = insert-Each (λ k _. P k) m _ s.blocks p h.blocks_each;
  }
  collect_at-IsKeyed _ m row s p h = h

  collect_row-IsKeyed :
      (row : Row) (s : ActiveRuleSet)
      → OfDomain row.domain
      → IsKeyed P s
      → IsKeyed P (collect_row s row)
  unfolding collect_row
  collect_row-IsKeyed row s p h = go row.domain p
    where
      go :
          (d : Option Text)
          → OfDomain d
          → IsKeyed P (elim d [
            | some name ↦ collect_at row.rule_type name row (collect_regex row.rule_type row s)
            | none ↦ collect_regex row.rule_type row s
          ])
      go none q = collect_regex-IsKeyed row.rule_type row s h
      go (some m) q =
          collect_at-IsKeyed row.rule_type m row (collect_regex row.rule_type row s) q
            (collect_regex-IsKeyed row.rule_type row s h)

  pub foldl_collect-IsKeyed :
      (rows : List Row) (s : ActiveRuleSet)
      → All (λ (r : Row). OfDomain r.domain) rows
      → IsKeyed P s
      → IsKeyed P (foldl collect_row s rows)
  foldl_collect-IsKeyed [] s p h = h
  foldl_collect-IsKeyed (row ∷ rows) s p h =
      foldl_collect-IsKeyed rows (collect_row s row) p.1 (collect_row-IsKeyed row s p.0 h)
