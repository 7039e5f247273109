-- ===== src/Policy/Tests.antt =====
-- A zone of one source and of one custom rule.
use alderpoint_dns.Base.{
  codes, true, not, ◌&&◌, ◌||◌, none, some, if◌then◌else◌, List, [], ◌∷◌, ◌≡◌, refl,
}
use alderpoint_dns.Platform.{plain_python}
use alderpoint_dns.Sources.Collect.{Source}
use alderpoint_dns.Rules.Types.{Row}
use alderpoint_dns.Rules.Active.{collect_active}
use alderpoint_dns.Rules.Rpz.{wild, mem, rpz_records}
use alderpoint_dns.Rules.Store.{Insertion, add_rule}
use alderpoint_dns.Policy.{compiled_records}
use alderpoint_dns.Base.Ends.{parents}
use alderpoint_dns.Policy.Status.{rpz_status}
use alderpoint_dns.Policy.Status.Walk.{first_below}
use alderpoint_dns.Policy.Records.{blocks_at}
use alderpoint_dns.Policy.Listed.{is_listed}
use alderpoint_dns.Policy.Blocks.{
  stands, stops, rpz_status-compiled_records, blocks_below-compiled_records,
}

abbrev sources : List Source
sources =
    record {
      id = 1;
      lines =
          some (
            codes "||ads.example^" ∷ codes "||cdn.ads.example^" ∷ codes "0.0.0.0 trk.example" ∷ []);
    }
    ∷ []

abbrev by_hand : Insertion
by_hand = record {
  source_system = codes "manual";
  comment = [];
  enabled = true;
  import_job_id = none;
  plain = true;
  now = codes "2026-01-01";
}

-- The allow takes two of the three names off the list.
table : List Row
table = (add_rule plain_python by_hand (codes "@@||ads.example^") []).0

-- A source blocks a name, another one allows a name below it.
abbrev two_sources : List Source
two_sources =
    record { id = 1; lines = some (codes "||ads.example^" ∷ []) }
    ∷ record { id = 2; lines = some (codes "@@||x.ads.example^" ∷ []) }
    ∷ []

-- The name below is at the wildcard of the one that is blocked.
rpz_status-compiled_records_example :
    (rpz_status
      (some (compiled_records plain_python two_sources table))
      (codes "x.ads.example")).blocked
    ≡ (if stands plain_python two_sources table (codes "x.ads.example") (codes "x.ads.example")
        then stops plain_python two_sources table (codes "x.ads.example") (codes "x.ads.example")
        else first_below
            (λ p. stands plain_python two_sources table (wild p) p)
            (λ p. stops plain_python two_sources table (wild p) p)
            (parents (codes "x.ads.example")))
rpz_status-compiled_records_example =
    rpz_status-compiled_records plain_python two_sources table (codes "x.ads.example") refl

blocks_below-compiled_records_example :
    blocks_at (wild (codes "trk.example")) (compiled_records plain_python sources table) ≡ (
      blocks_at (wild (codes "trk.example")) (rpz_records (collect_active table)).lines
      || (not (mem (wild (codes "trk.example")) (rpz_records (collect_active table)).occupied)
          && is_listed plain_python sources table (codes "trk.example")))
blocks_below-compiled_records_example =
    blocks_below-compiled_records plain_python sources table (codes "trk.example")
