-- ===== src/Rules/Rpz/Refinement.antt =====
-- `collect_active` and `rpz_records` against `evaluate_domain`: the zone that is compiled from the
-- table gives the verdict that the panel shows, at a name and below it.
use alderpoint_dns.Base.{
  ℕ, ◌<◌, Text, Bool, true, false, not, ◌&&◌, none, some, List, [], ◌∷◌, foldl, ◌≡◌, refl, ◌∙◌, ap,
  sym, any, keep, All, All-map, if◌then◌else◌, arith, ltb,
}
use alderpoint_dns.Base.Dict.{lookup}
use alderpoint_dns.Rules.Types.{RuleType, Row, is_active}
use alderpoint_dns.Rules.Evaluate.{FinalAction, is_rewrite, is_allow, is_block, max_priority}
use alderpoint_dns.Rules.Active.{ActiveRuleSet, empty, ordered, collect_rows, collect_active}
use alderpoint_dns.Rules.Active.Views.{
  View, view, is_at, see, IsKeyed, OfDomain, foldl_collect-IsKeyed, view-foldl_collect,
}
use alderpoint_dns.Rules.Active.Keyed.{resolve_conflicts-IsKeyed}
use alderpoint_dns.Rules.Active.Resolution.{resolve_view, view-resolve_conflicts}
use alderpoint_dns.Rules.Active.Summary.{
  blank, present, rewrite_sub, scope_sub, scope_priority, sel, sel_sub, IsMeant, HasAddress,
  foldl-see-IsMeant, rewrite_summary, allow_summary, block_summary, allow_priority, block_priority,
}
use alderpoint_dns.Rules.Active.Order.{any-ordered, max-ordered, All-ordered, All-keep}
use alderpoint_dns.Rules.Rpz.{wild, rpz_records}
use alderpoint_dns.Rules.Rpz.Owners.{IsPlain, OutView, out_view, answers}
use alderpoint_dns.Rules.Rpz.Emission.{zone_view, out_view-rpz_records}
use alderpoint_dns.Rules.Rpz.Agreement.{
  ruling, pick, zone_here, zone_below, chosen, verdict, verdict-chosen,
}

-- Rules as `parse_rule` stores them: no domain begins with an asterisk, a rewrite has an address.
abbrev pub IsStored : Row → Type 0
IsStored r = OfDomain IsPlain r.domain × HasAddress r

pub record OfName (n : Text) (v : View) (s : ActiveRuleSet) : Type 0 where
  pub keyed : IsKeyed IsPlain s
  pub meant : IsMeant v
  pub seen : view n s ≡ resolve_view v

abbrev pub seen_at : Text → List Row → View
seen_at n table = foldl (see n) blank (ordered (keep is_active table))

module _ (n : Text) (table : List Row) (stored : All IsStored table) where
  abbrev active : List Row
  active = ordered (keep is_active table)

  active-IsStored : All IsStored active
  active-IsStored = All-ordered IsStored _ (All-keep IsStored is_active table stored)

  collected : IsKeyed IsPlain (collect_rows active)
  unfolding collect_rows
  collected =
      foldl_collect-IsKeyed IsPlain active empty (All-map (λ r h. h.0) active active-IsStored)
        (record {
          rewrites = tt;
          allows = tt;
          blocks = tt;
          rewrites_each = tt;
          allows_each = tt;
          blocks_each = tt;
        })

  pub collect_active-OfName : OfName n (seen_at n table) (collect_active table)
  unfolding collect_active
  collect_active-OfName = record {
    keyed = resolve_conflicts-IsKeyed IsPlain (collect_rows active) collected;
    meant =
        foldl-see-IsMeant n active blank (All-map (λ r h. h.1) active active-IsStored)
          (record { rewrites = refl; allows = refl; blocks = refl });
    seen =
        view-resolve_conflicts IsPlain n (collect_rows active) collected
        ∙ ap resolve_view (
            unfold collect_rows in
            (view-foldl_collect n active empty ∙ (unfold view lookup in refl)));
  }

  zone_seen :
      IsPlain n
      → out_view n (rpz_records (collect_active table))
        ≡ zone_view
            (resolve_view (seen_at n table)).rewrite
            (resolve_view (seen_at n table)).allow
            (resolve_view (seen_at n table)).block
  unfolding view
  zone_seen p =
      let h : OfName n (seen_at n table) (collect_active table) = collect_active-OfName in
      out_view-rpz_records n p (collect_active table) h.keyed
      ∙ ap {A = View} (λ v. zone_view v.rewrite v.allow v.block) h.seen

-- The rules of the table that decide about the name itself, and those that reach below it.
abbrev pub rules_at : Text → List Row → List Row
rules_at n table = chosen (is_at n) (keep is_active table)

abbrev pub rules_above : Text → List Row → List Row
rules_above n table = chosen (λ (r : Row). is_at n r && r.match_subdomains) (keep is_active table)

module _ (n : Text) (table : List Row) where
  abbrev rows : List Row
  rows = keep is_active table

  record Seen : Type 0 where
    rewrite : present (seen_at n table).rewrite ≡ any (sel is_rewrite n) rows
    rewrite_below : rewrite_sub (seen_at n table).rewrite ≡ any (sel_sub is_rewrite n) rows
    allow : present (seen_at n table).allow ≡ any (sel is_allow n) rows
    allow_below : scope_sub (seen_at n table).allow ≡ any (sel_sub is_allow n) rows
    block : present (seen_at n table).block ≡ any (sel is_block n) rows
    block_below : scope_sub (seen_at n table).block ≡ any (sel_sub is_block n) rows
    allow_max : scope_priority (seen_at n table).allow ≡ max_priority (keep (sel is_allow n) rows)
    block_max : scope_priority (seen_at n table).block ≡ max_priority (keep (sel is_block n) rows)

  seen_lem : Seen
  seen_lem =
      let r = rewrite_summary n (ordered rows) blank in
      let a = allow_summary n (ordered rows) blank in
      let b = block_summary n (ordered rows) blank in
      record {
        rewrite = r.0 ∙ any-ordered _ rows;
        rewrite_below = r.1 ∙ any-ordered _ rows;
        allow = a.0 ∙ any-ordered _ rows;
        allow_below = a.1 ∙ any-ordered _ rows;
        block = b.0 ∙ any-ordered _ rows;
        block_below = b.1 ∙ any-ordered _ rows;
        allow_max =
            allow_priority n (ordered rows) blank
            ∙ omega (arith, max-ordered (sel is_allow n) rows);
        block_max =
            block_priority n (ordered rows) blank
            ∙ omega (arith, max-ordered (sel is_block n) rows);
      }

-- If a name begins with no asterisk, nor does the domain of any row of the table that has one, and
-- every row that is a rewrite has an address, then the records that are compiled at the name give
-- the verdict of `evaluate_domain` on the active rules of that name, and there is no record where
-- there is no such rule.
pub rpz_here-eq-verdict :
    (n : Text) (table : List Row)
    → IsPlain n
    → All IsStored table
    → ruling (answers n (rpz_records (collect_active table)).lines) ≡ verdict (rules_at n table)
unfolding answers out_view
rpz_here-eq-verdict n table p stored =
    let s = seen_lem n table in
    ap (λ (v : OutView). ruling v.here) (zone_seen n table stored p)
    ∙ zone_here (seen_at n table) (collect_active-OfName n table stored).meant
    ∙ rw (s.rewrite, s.allow, s.block, s.allow_max, s.block_max)
        (sym (verdict-chosen (is_at n) (keep is_active table)))

-- The rules of a kind at a name, each of them with the priority `p`.
abbrev pub HasPriority : (Row → Bool) → ℕ → Row → Type 0
HasPriority f p r = f r ≡ true → r.priority ≡ p

-- No allow rule and no block rule of the name has a priority other than `p`.
abbrev pub IsLevel : Text → ℕ → Row → Type 0
IsLevel n p r = HasPriority (sel is_allow n) p r × HasPriority (sel is_block n) p r

level_max :
    (f : Row → Bool) (p : ℕ) (rows : List Row)
    → All (HasPriority f p) rows
    → max_priority (keep f rows) ≡ (if any f rows then p else 0)
unfolding keep any max_priority
level_max f p [] h = refl
level_max f p (r ∷ rows) h = ground (arith, h.0, level_max f p rows h.1)

sub_level :
    (f : RuleType → Bool) (n : Text) (p : ℕ) (r : Row)
    → HasPriority (sel f n) p r
    → HasPriority (sel_sub f n) p r
sub_level f n p r h = λ e. ground (arith, h)

any-sub :
    (f : RuleType → Bool) (n : Text) (rows : List Row)
    → any (sel_sub f n) rows ≡ true
    → any (sel f n) rows ≡ true
unfolding any
any-sub f n [] h = h
any-sub f n (r ∷ rows) h = ground (arith, any-sub f n rows)

level_pick :
    (p : ℕ) (rs al bl a b : Bool)
    → (al ≡ true → a ≡ true)
    → pick rs (al && not (b && ltb (if a then p else 0) (if b then p else 0))) bl false
      ≡ pick rs al bl (ltb (if al then p else 0) (if bl then p else 0))
unfolding pick
level_pick p rs al bl a b h = ground arith

-- On the same conditions, if all allow and block rows of the name have one priority, the records at
-- its wildcard give the verdict on the active rules that reach below the name.
pub rpz_below-eq-verdict :
    (n : Text) (p : ℕ) (table : List Row)
    → IsPlain n
    → All IsStored table
    → All (IsLevel n p) table
    → ruling (answers (wild n) (rpz_records (collect_active table)).lines)
      ≡ verdict (rules_above n table)
unfolding answers out_view
rpz_below-eq-verdict n p table plain stored level =
    let s = seen_lem n table in
    ap (λ (v : OutView). ruling v.below) (zone_seen n table stored plain)
    ∙ zone_below (seen_at n table) (collect_active-OfName n table stored).meant
    ∙ rw (s.rewrite_below, s.allow_below, s.block_below, s.block, s.allow_max, s.block_max)
        (level_agrees
          ∙ sym (
              verdict-chosen (λ (r : Row). is_at n r && r.match_subdomains) (keep is_active table)))
  where
    active : List Row
    active = keep is_active table

    reach : Row → Bool
    reach r = is_at n r && r.match_subdomains

    levels : All (IsLevel n p) active
    levels = All-keep (IsLevel n p) is_active table level

    allow_max :
        max_priority (keep (sel is_allow n) active) ≡ (if any (sel is_allow n) active then p else 0)
    allow_max = level_max (sel is_allow n) p active (All-map (λ r h. h.0) active levels)

    block_max :
        max_priority (keep (sel is_block n) active) ≡ (if any (sel is_block n) active then p else 0)
    block_max = level_max (sel is_block n) p active (All-map (λ r h. h.1) active levels)

    allow_max_below :
        max_priority (keep (sel_sub is_allow n) active)
        ≡ (if any (sel_sub is_allow n) active then p else 0)
    allow_max_below =
        level_max (sel_sub is_allow n) p active
          (All-map (λ r h. sub_level is_allow n p r h.0) active levels)

    block_max_below :
        max_priority (keep (sel_sub is_block n) active)
        ≡ (if any (sel_sub is_block n) active then p else 0)
    block_max_below =
        level_max (sel_sub is_block n) p active
          (All-map (λ r h. sub_level is_block n p r h.1) active levels)

    level_agrees :
        pick
          (any (sel_sub is_rewrite n) active)
          (any (sel_sub is_allow n) active
            && not (
                any (sel is_block n) active
                && ltb
                    (max_priority (keep (sel is_allow n) active))
                    (max_priority (keep (sel is_block n) active))))
          (any (sel_sub is_block n) active)
          false
        ≡ pick
            (any (sel_sub is_rewrite n) active)
            (any (sel_sub is_allow n) active)
            (any (sel_sub is_block n) active)
            (ltb
              (max_priority (keep (sel_sub is_allow n) active))
              (max_priority (keep (sel_sub is_block n) active)))
    level_agrees =
        rw (allow_max, block_max, allow_max_below, block_max_below)
          (level_pick p (any (sel_sub is_rewrite n) active) (any (sel_sub is_allow n) active)
            (any (sel_sub is_block n) active) (any (sel is_allow n) active)
            (any (sel is_block n) active) (any-sub is_allow n active))

-- Let the name begin with no asterisk, nor the domain of any row that has one, and let every row that
-- is a rewrite have an address. If a block outranks the allow of its name, no rewrite and no block
-- reaches below the name, and an allow does, then the verdict on the rules that reach below the name is
-- to allow, and the zone has no record at its wildcard.
pub rpz_below_outranked :
    (n : Text) (table : List Row)
    → IsPlain n
    → All IsStored table
    → any (sel_sub is_rewrite n) (keep is_active table) ≡ false
    → any (sel_sub is_block n) (keep is_active table) ≡ false
    → any (sel_sub is_allow n) (keep is_active table) ≡ true
    → any (sel is_block n) (keep is_active table) ≡ true
    → max_priority (keep (sel is_allow n) (keep is_active table))
      < max_priority (keep (sel is_block n) (keep is_active table))
    → (ruling (answers (wild n) (rpz_records (collect_active table)).lines) ≡ none)
      × (verdict (rules_above n table) ≡ some FinalAction.allow)
unfolding answers out_view pick
rpz_below_outranked n table plain stored no_rewrite no_block some_allow some_block more =
    let s = seen_lem n table in
    let above =
      verdict-chosen (λ (r : Row). is_at n r && r.match_subdomains) (keep is_active table) in
    (
      ap (λ (v : OutView). ruling v.below) (zone_seen n table stored plain)
          ∙ zone_below (seen_at n table) (collect_active-OfName n table stored).meant
          ∙ ground (
            arith, s.rewrite_below, s.allow_below, s.block_below, s.block, s.allow_max, s.block_max,
          ),
      above ∙ rw (no_rewrite, no_block, some_allow),
    )
