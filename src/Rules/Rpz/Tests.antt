-- ===== src/Rules/Rpz/Tests.antt =====
-- Small tables, and the theorems about the compiled zone at them.
use alderpoint_dns.Base.{
  ℕ, Text, codes, Bool, true, false, Option, none, some, List, [], ◌∷◌, map, ◌≡◌, refl, any, All,
  keep, teq, arith,
}
use alderpoint_dns.Base.Dict.{lookup, insert, erase}
use alderpoint_dns.Rules.Types.{RuleType, Action, ValidationState, Family, Row}
use alderpoint_dns.Rules.Evaluate.{FinalAction, is_rewrite, is_allow, is_block, max_priority}
use alderpoint_dns.Rules.Active.{
  precedes, collect_active, collect_rows, collect_row, ordered, resolve_conflicts,
}
use alderpoint_dns.Rules.Rpz.{wild, rpz_records, render_line}
use alderpoint_dns.Rules.Rpz.Owners.{answers}
use alderpoint_dns.Rules.Rpz.Agreement.{ruling, verdict}
use alderpoint_dns.Rules.Rpz.Refinement.{
  collect_active-OfName, IsStored, rules_above, rpz_below_outranked,
}
use alderpoint_dns.Rules.Rpz.Coherence.{is_coherent, rpz_records_coherent}

abbrev row : ℕ → RuleType → Action → Text → Bool → Option Text → ℕ → Row
row i t act name sub address priority = record {
  id = i;
  rule = record {
    rule_text = name;
    normalized = name;
    rule_type = t;
    action = act;
    domain = some name;
    match_subdomains = sub;
    pattern = none;
    rewrite_address = address;
    address_family = some Family.ipv4;
    qtype_restriction = none;
    priority = priority;
    validation_state = ValidationState.valid;
    unsupported_reason = [];
    comment = [];
  };
  enabled = true;
  source_system = codes "manual";
  import_job_id = none;
  row_comment = [];
  created_at = [];
  updated_at = [];
}

abbrev ads : Text
ads = codes "ads.example"

-- `||ads.example^`, `@@|ads.example^` and a rewrite of `www.example`.
abbrev mixed : List Row
mixed =
    row 1 RuleType.block Action.block ads true none 0
    ∷ row 2 RuleType.allow Action.allow ads false none 0
    ∷ row 3 RuleType.rewrite Action.rewrite (codes "www.example") false (some (codes "10.0.0.1")) 0
    ∷ []

-- `|ads.example^$important` and `@@||ads.example^`.
abbrev outranked : List Row
outranked =
    row 1 RuleType.block Action.block ads false none 100
    ∷ row 2 RuleType.allow Action.allow ads true none 0
    ∷ []

program : Unit {0}
unfolding rpz_records collect_active collect_rows collect_row ordered precedes resolve_conflicts
    keep any render_line lookup insert erase teq is_rewrite is_allow is_block max_priority
program = tt

zone_of_mixed :
    map render_line (rpz_records (collect_active mixed)).lines
    ≡ codes "www.example A 10.0.0.1"
      ∷ codes "ads.example CNAME rpz-passthru."
      ∷ codes "*.ads.example CNAME ."
      ∷ []
unfolding program
zone_of_mixed = refl

-- The important block took the allow away: nothing is left below the name.
zone_of_outranked :
    map render_line (rpz_records (collect_active outranked)).lines
    ≡ codes "ads.example CNAME ." ∷ []
unfolding program
zone_of_outranked = refl

mixed-IsStored : All IsStored mixed
unfolding program
mixed-IsStored = ((refl, λ e. cc), ((refl, λ e. cc), ((refl, λ e. refl), tt)))

outranked-IsStored : All IsStored outranked
unfolding program
outranked-IsStored = ((refl, λ e. cc), ((refl, λ e. cc), tt))

rpz_below_outranked_example :
    (ruling (answers (wild ads) (rpz_records (collect_active outranked)).lines) ≡ none)
    × (verdict (rules_above ads outranked) ≡ some FinalAction.allow)
unfolding program
rpz_below_outranked_example =
    rpz_below_outranked ads outranked refl outranked-IsStored refl refl refl refl (omega arith)

rpz_records_coherent_example :
    (is_coherent (answers ads (rpz_records (collect_active mixed)).lines) ≡ true)
    × (is_coherent (answers (wild ads) (rpz_records (collect_active mixed)).lines) ≡ true)
rpz_records_coherent_example =
    rpz_records_coherent ads (collect_active mixed) refl
      (collect_active-OfName ads mixed mixed-IsStored).keyed
