-- ===== src/Rules/Rpz.antt =====
-- app/custom_rules.py: `rpz_records`.
pub mod Owners
pub mod Emission
pub mod Agreement
pub mod Refinement
pub mod Coherence
mod Tests
use alderpoint_dns.Base.{
  ℕ, Text, Bool, true, false, not, ◌&&◌, ◌||◌, Option, none, some, List, [], ◌∷◌, ◌++◌, foldl,
  codes, any, teq, if◌then◌else◌,
}
use alderpoint_dns.Base.Dict.{Dict, lookup}
use alderpoint_dns.Base.Sort.{sorted}
use alderpoint_dns.Rules.Active.{Rewrite, Scope, ActiveRuleSet}

pub data Rdata : Type 0 where
  a aaaa : Text → Rdata
  passthru nxdomain : Rdata

pub record Line : Type 0 where
  pub owner : Text
  pub rdata : Rdata

unfoldable pub render_rdata : Rdata → Text
render_rdata (a address) = codes "A " ++ address
render_rdata (aaaa address) = codes "AAAA " ++ address
render_rdata passthru = codes "CNAME rpz-passthru."
render_rdata nxdomain = codes "CNAME ."

-- The text that `emit` appends.
unfoldable pub render_line : Line → Text
unfolding render_rdata
render_line line = line.owner ++ codes " " ++ render_rdata line.rdata

abbrev pub wild : Text → Text
wild name = codes "*." ++ name

pub record Output : Type 0 where
  pub lines : List Line
  pub occupied : List Text

unfoldable pub mem : Text → List Text → Bool
mem name = any (λ o. teq o name)

abbrev pub emit : Text → Rdata → Output → Output
emit owner rdata out = record out {
  lines = out.lines ++ record { owner = owner; rdata = rdata } ∷ [];
}

abbrev pub occupy : Text → Output → Output
occupy owner out = record out { occupied = owner ∷ out.occupied }

-- `emit` and `occupied.add` at an owner that is still free.
unfoldable pub claim : Text → Rdata → Output → Output
unfolding mem
claim owner rdata out = if mem owner out.occupied then out else occupy owner (emit owner rdata out)

abbrev pub emit_address : Text → Bool → (Text → Rdata) → Option Text → Output → Output
emit_address name subdomains rtype none out = out
emit_address name subdomains rtype (some []) out = out
emit_address name subdomains rtype (some (c ∷ cs)) out =
    let rdata = rtype (c ∷ cs) in
    if subdomains then emit (wild name) rdata (emit name rdata out) else emit name rdata out

unfoldable pub emit_rewrite : Output → Text × Rewrite → Output
emit_rewrite out (name, entry) =
    let out' =
      emit_address name entry.subdomains aaaa entry.aaaa
        (emit_address name entry.subdomains a entry.a out) in
    if entry.subdomains then occupy (wild name) (occupy name out') else occupy name out'

unfoldable pub emit_allow : Output → Text × Scope → Output
emit_allow out (name, allow) =
    let out' = if allow.exact || allow.subdomains then claim name passthru out else out in
    if allow.subdomains then claim (wild name) passthru out' else out'

unfoldable pub emit_block : Output → Text × Scope → Output
emit_block out (name, block) =
    let out' = if block.exact then claim name nxdomain out else out in
    if block.subdomains then claim (wild name) nxdomain (claim name nxdomain out') else out'

unfoldable pub rpz_records : ActiveRuleSet → Output
unfolding emit_rewrite emit_allow emit_block claim sorted
rpz_records active =
    let rewritten =
      foldl emit_rewrite (record { lines = []; occupied = [] }) (sorted active.rewrites) in
    let allowed = foldl emit_allow rewritten (sorted active.allows) in
    foldl emit_block allowed (sorted active.blocks)
