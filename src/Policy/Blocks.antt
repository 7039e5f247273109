-- ===== src/Policy/Blocks.antt =====
-- Which names the compiled zone blocks.
use alderpoint_dns.Base.{
  Text, Bool, true, not, ◌&&◌, ◌||◌, some, List, if◌then◌else◌, ◌≡◌, refl, ◌∙◌,
}
use alderpoint_dns.Base.SortedSet.{sorted_set, All-sorted_set}
use alderpoint_dns.Platform.{Platform}
use alderpoint_dns.Sources.Collect.{Source}
use alderpoint_dns.Rules.Types.{Row}
use alderpoint_dns.Rules.Active.{ActiveRuleSet, collect_active}
use alderpoint_dns.Rules.Rpz.{Rdata, nxdomain, Output, wild, mem, rpz_records}
use alderpoint_dns.Rules.Rpz.Owners.{IsPlain}
use alderpoint_dns.Policy.{zone_records, compiled_records}
use alderpoint_dns.Policy.Records.{
  is_nxdomain, is_any, record_at, has_owner, blocks_at, record_here-externals,
  record_below-externals,
}
use alderpoint_dns.Policy.Status.{rpz_status}
use alderpoint_dns.Policy.Status.Walk.{first_below, first_below_ext, rpz_status-first_below}
use alderpoint_dns.Base.Ends.{parents}
use alderpoint_dns.Policy.Listed.{
  is_listed, external, external-AllNames, external_listed, rpz_name-IsPlain,
}

module _ (py : Platform) (sources : List Source) (table : List Row) (n : Text) where
  abbrev active : ActiveRuleSet
  active = collect_active table

  -- The records at an owner, of a kind that the (external py sources table n) ones are of.
  record_here-compiled_records :
      (kind : Rdata → Bool)
      → kind nxdomain ≡ true
      → IsPlain n
      → record_at kind n (compiled_records py sources table) ≡ (
          record_at kind n (rpz_records active).lines
          || (not (mem n (rpz_records active).occupied) && is_listed py sources table n))
  unfolding compiled_records zone_records
  record_here-compiled_records kind blocking p =
      record_here-externals kind blocking n p (rpz_records active).occupied
        (sorted_set (external py sources table n)) (rpz_records active)
      ∙ rw (external_listed py sources table n) refl

  record_below-compiled_records :
      (kind : Rdata → Bool)
      → kind nxdomain ≡ true
      → record_at kind (wild n) (compiled_records py sources table) ≡ (
          record_at kind (wild n) (rpz_records active).lines
          || (not (mem (wild n) (rpz_records active).occupied) && is_listed py sources table n))
  unfolding compiled_records zone_records
  record_below-compiled_records kind blocking =
      record_below-externals kind blocking n (rpz_records active).occupied
        (sorted_set (external py sources table n)) (rpz_records active)
        (rpz_name-IsPlain (sorted_set (external py sources table n))
          (All-sorted_set _ (external py sources table n) (external-AllNames py sources table n)))
      ∙ rw (external_listed py sources table n) refl

  -- The compiled zone blocks at the wildcard of a name exactly if the custom rules do there, or if
  -- they leave the wildcard free and the sources list the name: some source blocks it, no source
  -- allows it, and no custom allow takes it off the lists, by itself or from a name above.
  pub blocks_below-compiled_records : blocks_at (wild n) (compiled_records py sources table) ≡ (
      blocks_at (wild n) (rpz_records active).lines
      || (not (mem (wild n) (rpz_records active).occupied) && is_listed py sources table n))
  blocks_below-compiled_records = record_below-compiled_records is_nxdomain refl

module _ (py : Platform) (sources : List Source) (table : List Row) where
  abbrev custom : Output
  custom = rpz_records (collect_active table)

  -- Whether the zone is to have a record at an owner, for a name that the sources may list.
  abbrev pub stands : Text → Text → Bool
  stands owner name =
      has_owner owner custom.lines
      || (not (mem owner custom.occupied) && is_listed py sources table name)

  -- Whether such a record is to block.
  abbrev pub stops : Text → Text → Bool
  stops owner name =
      blocks_at owner custom.lines
      || (not (mem owner custom.occupied) && is_listed py sources table name)

  -- Let the name be no wildcard. What `_rpz_status` says of it in the compiled zone is decided at the
  -- name itself, if a custom rule has a record there or the sources list it and no custom rule
  -- occupies it, and else at the wildcard of the nearest name above of which the same holds: the name
  -- is blocked exactly if a custom record there is NXDOMAIN, or the sources list the name of that
  -- owner and no custom rule occupies the owner. If there is no such owner it is not blocked. The
  -- sources list a name if some source blocks it, no source allows it, and no custom allow takes it
  -- off, by itself or from a name above.
  pub rpz_status-compiled_records :
      (n : Text)
      → IsPlain n
      → (rpz_status (some (compiled_records py sources table)) n).blocked ≡ (
          if stands n n
          then stops n n
          else first_below (λ p. stands (wild p) p) (λ p. stops (wild p) p) (parents n))
  rpz_status-compiled_records n p =
      rpz_status-first_below (compiled_records py sources table) n
      ∙ rw
          (
            record_here-compiled_records py sources table n is_any refl p,
            record_here-compiled_records py sources table n is_nxdomain refl p,
            first_below_ext _ _ _ _
                (λ q. record_below-compiled_records py sources table q is_any refl)
                (λ q. record_below-compiled_records py sources table q is_nxdomain refl)
                (parents n),
          )
          refl
