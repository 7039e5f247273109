-- ===== src/Rules/Rpz/Coherence.antt =====
-- RPZ cannot hold two conflicting records at one owner.
use alderpoint_dns.Base.{Text, Bool, true, false, Option, List, [], ◌∷◌, ◌≡◌, ap, ◌∙◌, arith}
use alderpoint_dns.Base.Dict.{lookup}
use alderpoint_dns.Rules.Active.{Rewrite, Scope, ActiveRuleSet}
use alderpoint_dns.Rules.Active.Views.{IsKeyed}
use alderpoint_dns.Rules.Rpz.{Rdata, a, aaaa, wild, rpz_records}
use alderpoint_dns.Rules.Rpz.Owners.{IsPlain, OutView, out_view, answers}
use alderpoint_dns.Rules.Rpz.Emission.{zone_view, out_view-rpz_records}

-- A CNAME stands alone; otherwise there is at most one A and one AAAA record, in this order.
pub is_coherent : List Rdata → Bool
is_coherent [] = true
is_coherent (_ ∷ []) = true
is_coherent (a _ ∷ aaaa _ ∷ []) = true
is_coherent _ = false

zone_coherent :
    (rewrite : Option Rewrite) (allow block : Option Scope)
    → (is_coherent (zone_view rewrite allow block).here ≡ true)
      × (is_coherent (zone_view rewrite allow block).below ≡ true)
unfolding is_coherent zone_view
zone_coherent rewrite allow block = ground arith

-- Of a rule set with distinct keys that begin with no asterisk, resolved or not, the records at a
-- name and those at its wildcard do not conflict: each owner has nothing, one record, or an A and
-- an AAAA record.
pub rpz_records_coherent :
    (n : Text) (s : ActiveRuleSet)
    → IsPlain n
    → IsKeyed IsPlain s
    → (is_coherent (answers n (rpz_records s).lines) ≡ true)
      × (is_coherent (answers (wild n) (rpz_records s).lines) ≡ true)
unfolding answers out_view
rpz_records_coherent n s plain keyed =
    let e = out_view-rpz_records n plain s keyed in
    let z = zone_coherent (lookup n s.rewrites) (lookup n s.allows) (lookup n s.blocks) in
    (
      ap (λ (v : OutView). is_coherent v.here) e ∙ z.0,
      ap (λ (v : OutView). is_coherent v.below) e ∙ z.1,
    )
