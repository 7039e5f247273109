-- ===== src/Policy.antt =====
-- The zone that the compiler makes of the sources and of the custom rules: `subtract_allowed` of
-- app/custom_rules.py, `render_rpz` of app/alderpointdns_compiler.py, and how `deploy` joins them.
pub mod Names
pub mod Records
pub mod Status
pub mod Listed
pub mod Blocks
mod Tests
use alderpoint_dns.Base.{
  ℕ, Text, codes, Bool, true, false, not, ◌&&◌, ◌||◌, Option, none, some, List, [], ◌∷◌, ◌++◌, map,
  foldl, any, keep, ◌==◌, teq, if◌then◌else◌,
}
use alderpoint_dns.Base.Dict.{Dict, lookup}
use alderpoint_dns.Base.SortedSet.{sorted_set}
use alderpoint_dns.Base.Str.{ends_with, join}
use alderpoint_dns.Platform.{Platform}
use alderpoint_dns.Sources.Types.{Domains}
use alderpoint_dns.Sources.Collect.{Source, collect_rules}
use alderpoint_dns.Rules.Types.{Row}
use alderpoint_dns.Rules.Active.{Scope, ActiveRuleSet, collect_active}
use alderpoint_dns.Rules.Rpz.{Line, nxdomain, wild, Output, mem, emit, rpz_records, render_line}

-- The name itself, or one below it.
abbrev pub is_within : Text → Text → Bool
is_within name domain = teq domain name || ends_with (codes "." ++ name) domain

abbrev pub has_key : Text → Dict Scope → Bool
has_key name scopes = elim (lookup name scopes) [ none ↦ false | some _ ↦ true ]

abbrev pub is_empty : Dict Scope → Bool
is_empty [] = true
is_empty (_ ∷ _) = false

abbrev subdomain_allows : Dict Scope → List Text
subdomain_allows [] = []
subdomain_allows ((name, allow) ∷ allows) =
    if allow.subdomains then name ∷ subdomain_allows allows else subdomain_allows allows

-- Whether the custom rules take a domain off the external lists.
unfoldable pub is_exempt : Dict Scope → Text → Bool
is_exempt allows domain =
    has_key domain allows || any (λ name. is_within name domain) (subdomain_allows allows)

unfoldable pub subtract_allowed : List Text → ActiveRuleSet → List Text
unfolding is_exempt
subtract_allowed domains active =
    if is_empty active.allows then domains else keep (λ d. not (is_exempt active.allows d)) domains

abbrev pub is_blank : Text → Bool
is_blank [] = true
is_blank (_ ∷ _) = false

-- `domain.rstrip(".")`
unfoldable pub rpz_name : Text → Text
rpz_name [] = []
rpz_name (c ∷ s) = let rest = rpz_name s in if b'.' == c && is_blank rest then [] else c ∷ rest

abbrev emit_free : List Text → Text → Output → Output
emit_free occupied owner out = if mem owner occupied then out else emit owner nxdomain out

-- The records of one domain, at the owners that no custom rule occupies.
unfoldable pub emit_external : List Text → Text → Output → Output
unfolding rpz_name mem
emit_external occupied domain out =
    emit_free occupied (wild (rpz_name domain)) (emit_free occupied (rpz_name domain) out)

unfoldable pub emit_externals : List Text → List Text → Output → Output
emit_externals occupied [] out = out
emit_externals occupied (d ∷ domains) out =
    emit_externals occupied domains (emit_external occupied d out)

abbrev pub custom_records : Option ActiveRuleSet → Output
custom_records none = record { lines = []; occupied = [] }
custom_records (some active) = rpz_records active

-- The records of `render_rpz`, below the head of the zone.
unfoldable pub zone_records : List Text → Option ActiveRuleSet → List Line
unfolding emit_externals
zone_records domains custom =
    (emit_externals (custom_records custom).occupied (sorted_set domains)
      (custom_records custom)).lines

unfoldable pub render_rpz : Text → List Text → Option ActiveRuleSet → Text
unfolding zone_records
render_rpz serial domains custom =
    join (codes "\n") (
      codes "$TTL 2h"
      ∷ (codes "@ IN SOA localhost. hostmaster.localhost. " ++ (serial ++ codes " 1h 15m 30d 2h"))
      ∷ codes "@ IN NS localhost."
      ∷ []
      ∷ map render_line (zone_records domains custom))
    ++ codes "\n"

-- The texts of a set; the sources give no domain that is none.
unfoldable pub texts : Domains → List Text
texts [] = []
texts (none ∷ domains) = texts domains
texts (some d ∷ domains) = d ∷ texts domains

-- The records that `deploy` compiles.
unfoldable pub compiled_records : Platform → List Source → List Row → List Line
unfolding texts subtract_allowed
compiled_records py sources table =
    let active = collect_active table in
    zone_records (subtract_allowed (texts (collect_rules py sources).active_blocks) active)
      (some active)
