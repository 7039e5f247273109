-- ===== src/Rules/Active/Summary.antt =====
-- What the view of a name says of the rows that were collected.
use alderpoint_dns.Base.{
  ℕ, Text, Bool, true, false, ◌&&◌, ◌||◌, Option, none, some, List, [], ◌∷◌, foldl, max, ◌≡◌, refl,
  any, keep, All, if◌then◌else◌, arith,
}
use alderpoint_dns.Rules.Types.{truthy, RuleType, Row}
use alderpoint_dns.Rules.Evaluate.{is_rewrite, is_allow, is_block, max_priority}
use alderpoint_dns.Rules.Active.{Rewrite, Scope, default, no_rewrite, add_rewrite}
use alderpoint_dns.Rules.Active.Views.{View, is_at, see, see_at}

abbrev pub present {ℓ} : {A : Type ℓ} → Option A → Bool
present none = false
present (some _) = true

abbrev pub rewrite_sub : Option Rewrite → Bool
rewrite_sub none = false
rewrite_sub (some e) = e.subdomains

abbrev pub scope_sub : Option Scope → Bool
scope_sub none = false
scope_sub (some e) = e.subdomains

abbrev pub scope_exact : Option Scope → Bool
scope_exact none = false
scope_exact (some e) = e.exact

abbrev pub scope_priority : Option Scope → ℕ
scope_priority none = 0
scope_priority (some e) = e.priority

abbrev pub blank : View
blank = record { rewrite = none; allow = none; block = none }

-- The rows of a type at a name, all of them and those that reach below it.
abbrev pub sel : (RuleType → Bool) → Text → Row → Bool
sel p n r = is_at n r && p r.rule_type

abbrev pub sel_sub : (RuleType → Bool) → Text → Row → Bool
sel_sub p n r = (is_at n r && r.match_subdomains) && p r.rule_type

module _ (n : Text) where
  module _ (v : View) (r : Row) where
    rewrite_step :
        (present (see n v r).rewrite ≡ (present v.rewrite || sel is_rewrite n r))
        × (rewrite_sub (see n v r).rewrite ≡ (rewrite_sub v.rewrite || sel_sub is_rewrite n r))
    unfolding see is_rewrite
    rewrite_step = ground arith

    allow_step :
        (present (see n v r).allow ≡ (present v.allow || sel is_allow n r))
        × (scope_sub (see n v r).allow ≡ (scope_sub v.allow || sel_sub is_allow n r))
    unfolding see is_allow
    allow_step = ground arith

    block_step :
        (present (see n v r).block ≡ (present v.block || sel is_block n r))
        × (scope_sub (see n v r).block ≡ (scope_sub v.block || sel_sub is_block n r))
    unfolding see is_block
    block_step = ground arith

  pub rewrite_summary :
      (rows : List Row) (v : View)
      → (present (foldl (see n) v rows).rewrite
          ≡ (present v.rewrite || any (sel is_rewrite n) rows))
        × (rewrite_sub (foldl (see n) v rows).rewrite
            ≡ (rewrite_sub v.rewrite || any (sel_sub is_rewrite n) rows))
  unfolding any
  rewrite_summary [] v = ground arith
  rewrite_summary (r ∷ rows) v = ground (arith, rewrite_summary rows (see n v r), rewrite_step v r)

  pub allow_summary :
      (rows : List Row) (v : View)
      → (present (foldl (see n) v rows).allow ≡ (present v.allow || any (sel is_allow n) rows))
        × (scope_sub (foldl (see n) v rows).allow
            ≡ (scope_sub v.allow || any (sel_sub is_allow n) rows))
  unfolding any
  allow_summary [] v = ground arith
  allow_summary (r ∷ rows) v = ground (arith, allow_summary rows (see n v r), allow_step v r)

  pub block_summary :
      (rows : List Row) (v : View)
      → (present (foldl (see n) v rows).block ≡ (present v.block || any (sel is_block n) rows))
        × (scope_sub (foldl (see n) v rows).block
            ≡ (scope_sub v.block || any (sel_sub is_block n) rows))
  unfolding any
  block_summary [] v = ground arith
  block_summary (r ∷ rows) v = ground (arith, block_summary rows (see n v r), block_step v r)

  allow_priority_step :
      (v : View) (r : Row)
      → scope_priority (see n v r).allow ≡ (
          if sel is_allow n r
          then max (scope_priority v.allow) r.priority
          else scope_priority v.allow)
  unfolding see is_allow
  allow_priority_step v r = ground arith

  block_priority_step :
      (v : View) (r : Row)
      → scope_priority (see n v r).block ≡ (
          if sel is_block n r
          then max (scope_priority v.block) r.priority
          else scope_priority v.block)
  unfolding see is_block
  block_priority_step v r = ground arith

  pub allow_priority :
      (rows : List Row) (v : View)
      → scope_priority (foldl (see n) v rows).allow
        ≡ max (scope_priority v.allow) (max_priority (keep (sel is_allow n) rows))
  unfolding keep max_priority
  allow_priority [] v = ground arith
  allow_priority (r ∷ rows) v =
      ground (arith, allow_priority rows (see n v r), allow_priority_step v r)

  pub block_priority :
      (rows : List Row) (v : View)
      → scope_priority (foldl (see n) v rows).block
        ≡ max (scope_priority v.block) (max_priority (keep (sel is_block n) rows))
  unfolding keep max_priority
  block_priority [] v = ground arith
  block_priority (r ∷ rows) v =
      ground (arith, block_priority rows (see n v r), block_priority_step v r)

-- An entry that says something: a scope that is exact or reaches below, a rewrite with an address.
abbrev pub is_usable : Option Text → Bool
is_usable none = true
is_usable (some []) = false
is_usable (some (_ ∷ _)) = true

abbrev pub scope_meant : Option Scope → Bool
scope_meant none = true
scope_meant (some s) = s.exact || s.subdomains

abbrev pub rewrite_meant : Option Rewrite → Bool
rewrite_meant none = true
rewrite_meant (some e) = (truthy e.a || truthy e.aaaa) && (is_usable e.a && is_usable e.aaaa)

-- A rewrite rule has an address.
abbrev pub HasAddress : Row → Type 0
HasAddress r = is_rewrite r.rule_type ≡ true → truthy r.rewrite_address ≡ true

pub record IsMeant (v : View) : Type 0 where
  pub rewrites : rewrite_meant v.rewrite ≡ true
  pub allows : scope_meant v.allow ≡ true
  pub blocks : scope_meant v.block ≡ true

add_rewrite_meant :
    (r : Row) (o : Option Rewrite)
    → truthy r.rewrite_address ≡ true
    → rewrite_meant o ≡ true
    → rewrite_meant (some (add_rewrite r (default no_rewrite o))) ≡ true
unfolding add_rewrite
add_rewrite_meant r none t h = ground arith
add_rewrite_meant r (some e) t h = ground arith

see_at-IsMeant :
    (t : RuleType) (v : View) (r : Row)
    → (is_rewrite t ≡ true → truthy r.rewrite_address ≡ true)
    → IsMeant v
    → IsMeant (see_at t r v)
unfolding see_at is_rewrite
see_at-IsMeant RuleType.rewrite v r a h = record {
  rewrites = add_rewrite_meant r v.rewrite (a refl) h.rewrites;
  allows = h.allows;
  blocks = h.blocks;
}
see_at-IsMeant RuleType.allow v r a h = ground arith
see_at-IsMeant RuleType.block v r a h = ground arith
see_at-IsMeant _ v r a h = h

see-IsMeant : (n : Text) (v : View) (r : Row) → HasAddress r → IsMeant v → IsMeant (see n v r)
unfolding see
see-IsMeant n v r a h = go (is_at n r)
  where
    go : (b : Bool) → IsMeant (if b then see_at r.rule_type r v else v)
    go true = see_at-IsMeant r.rule_type v r a h
    go false = h

pub foldl-see-IsMeant :
    (n : Text) (rows : List Row) (v : View)
    → All HasAddress rows
    → IsMeant v
    → IsMeant (foldl (see n) v rows)
foldl-see-IsMeant n [] v a h = h
foldl-see-IsMeant n (r ∷ rows) v a h =
    foldl-see-IsMeant n rows (see n v r) a.1 (see-IsMeant n v r a.0 h)
