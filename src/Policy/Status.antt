-- ===== src/Policy/Status.antt =====
-- app/custom_rules.py: `_rpz_status`, what the compiled zone answers for a name. It works on the
-- records of the zone; how the source reads them back from the lines of the file is left out.
pub mod Walk
use alderpoint_dns.Base.{
  ℕ, ◌+◌, Text, codes, Bool, true, false, not, ◌&&◌, ◌||◌, Option, none, some, List, [], ◌∷◌, map,
  any, ltb, ◌==◌, tle, if◌then◌else◌,
}
use alderpoint_dns.Base.Ends.{parents, count_dots}
use alderpoint_dns.Base.Str.{join}
use alderpoint_dns.Rules.Rpz.{Rdata, Line, wild, render_rdata}
use alderpoint_dns.Rules.Rpz.Owners.{answers}
use alderpoint_dns.Policy.Records.{is_nxdomain, has_owner}

-- An owner that matches: the name itself, or the wildcard of a name above it.
pub record Candidate : Type 0 where
  pub exact : Bool
  pub labels : ℕ
  pub owner : Text

abbrev pub count_labels : Text → ℕ
count_labels name = count_dots name + 1

abbrev pub wildcard_of : Text → Candidate
wildcard_of parent = record { exact = false; labels = count_labels parent; owner = wild parent }

-- `candidate > best`, of tuples.
abbrev pub outranks : Candidate → Candidate → Bool
outranks c best =
    (c.exact && not best.exact)
    || ((c.exact || not best.exact)
        && (ltb best.labels c.labels || (best.labels == c.labels && not (tle c.owner best.owner))))

abbrev pub better : Option Candidate → Candidate → Option Candidate
better none c = some c
better (some best) c = if outranks c best then some c else some best

abbrev pub exact_match : List Line → Text → Option Candidate
exact_match lines qname =
    if has_owner qname lines
    then some (record { exact = true; labels = count_labels qname; owner = qname })
    else none

-- The loop over the names above.
unfoldable pub best_wildcard : List Line → Option Candidate → List Text → Option Candidate
best_wildcard lines best [] = best
best_wildcard lines best (parent ∷ rest) =
    best_wildcard lines
      (if has_owner (wild parent) lines then better best (wildcard_of parent) else best) rest

pub record RpzStatus : Type 0 where
  pub available : Bool
  pub blocked : Bool
  pub match : Option Text
  pub entry : Option Text
  pub rdata : Option Text

abbrev no_match : Bool → RpzStatus
no_match available = record {
  available = available;
  blocked = false;
  match = none;
  entry = none;
  rdata = none;
}

abbrev pub status_of : List Line → Option Candidate → RpzStatus
status_of lines none = no_match true
status_of lines (some best) =
    let rdata = answers best.owner lines in
    record {
      available = true;
      blocked = any is_nxdomain rdata;
      match = some (if best.exact then codes "exact" else codes "wildcard");
      entry = some best.owner;
      rdata = some (join (codes "; ") (map render_rdata rdata));
    }

-- Of a zone that is compiled, and of none.
unfoldable pub rpz_status : Option (List Line) → Text → RpzStatus
unfolding best_wildcard parents
rpz_status none qname = no_match false
rpz_status (some lines) qname =
    status_of lines (best_wildcard lines (exact_match lines qname) (parents qname))
