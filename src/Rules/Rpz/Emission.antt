-- ===== src/Rules/Rpz/Emission.antt =====
-- What `rpz_records` writes at a name and below it, from the entries of that name alone.
use alderpoint_dns.Base.{
  any, keep, Text, Bool, true, false, ◌||◌, Option, none, some, [], ◌∷◌, ◌++◌, foldl, ◌≡◌, refl,
  ◌∙◌, ap, teq, if◌then◌else◌, Bool-cases, inl, inr,
}
use alderpoint_dns.Base.Dict.{lookup, on, view-foldl}
use alderpoint_dns.Base.Sort.{sorted, lookup-sorted, sorted-IsUnique, sorted-Each}
use alderpoint_dns.Rules.Active.{Rewrite, Scope, ActiveRuleSet}
use alderpoint_dns.Rules.Active.Views.{IsKeyed}
use alderpoint_dns.Rules.Rpz.{
  Rdata, a, aaaa, passthru, nxdomain, Output, wild, mem, emit, occupy, claim, emit_address,
  emit_rewrite, emit_allow, emit_block, rpz_records,
}
use alderpoint_dns.Rules.Rpz.Owners.{
  IsPlain, OutView, out_view, answers, put_here, put_below, wild-ne, ne-wild, wild-wild, emit_ne,
  occupy_ne, claim_ne, emit_here, emit_below, occupy_here, occupy_below, claim_here, claim_below,
}

abbrev pub addressed : Bool → (Text → Rdata) → Option Text → OutView → OutView
addressed sub rtype none v = v
addressed sub rtype (some []) v = v
addressed sub rtype (some (c ∷ cs)) v =
    let d = rtype (c ∷ cs) in
    record v { here = v.here ++ d ∷ []; below = if sub then v.below ++ d ∷ [] else v.below }

unfoldable pub rewrite_view : Rewrite → OutView → OutView
rewrite_view e v =
    let v' = addressed e.subdomains aaaa e.aaaa (addressed e.subdomains a e.a v) in
    record v' { taken = true; taken_below = if e.subdomains then true else v'.taken_below }

unfoldable pub allow_view : Scope → OutView → OutView
unfolding put_here put_below
allow_view s v =
    let v' = if s.exact || s.subdomains then put_here passthru v else v in
    if s.subdomains then put_below passthru v' else v'

unfoldable pub block_view : Scope → OutView → OutView
unfolding put_here put_below
block_view s v =
    let v' = if s.exact then put_here nxdomain v else v in
    if s.subdomains then put_below nxdomain (put_here nxdomain v') else v'

-- The three loops together, at one name.
unfoldable pub zone_view : Option Rewrite → Option Scope → Option Scope → OutView
unfolding rewrite_view allow_view block_view
zone_view rewrite allow block = on block_view block (
    on allow_view allow (
      on rewrite_view rewrite
        (record { here = []; below = []; taken = false; taken_below = false })))

module _ (n : Text) where
  -- Another name.
  module _ (m : Text) (p : IsPlain m) (q : IsPlain n) (e : teq m n ≡ false) where
    below_ne : teq (wild m) (wild n) ≡ false
    below_ne = wild-wild m n ∙ e

    emit_address_ne :
        (sub : Bool) (rtype : Text → Rdata) (o : Option Text) (out : Output)
        → out_view n (emit_address m sub rtype o out) ≡ out_view n out
    emit_address_ne sub rtype none out = refl
    emit_address_ne sub rtype (some []) out = refl
    emit_address_ne true rtype (some (c ∷ cs)) out =
        emit_ne (wild m) n _ (wild-ne m n q) below_ne _ ∙ emit_ne m n out e (ne-wild m n p) _
    emit_address_ne false rtype (some (c ∷ cs)) out = emit_ne m n out e (ne-wild m n p) _

    occupied_ne :
        (sub : Bool) (out : Output)
        → out_view n (if sub then occupy (wild m) (occupy m out) else occupy m out) ≡ out_view n out
    occupied_ne true out =
        occupy_ne (wild m) n _ (wild-ne m n q) below_ne ∙ occupy_ne m n out e (ne-wild m n p)
    occupied_ne false out = occupy_ne m n out e (ne-wild m n p)

    emit_rewrite_ne : (s : Output) (r : Rewrite) → out_view n (emit_rewrite s (m, r)) ≡ out_view n s
    unfolding emit_rewrite
    emit_rewrite_ne s r =
        occupied_ne r.subdomains _
        ∙ emit_address_ne r.subdomains aaaa r.aaaa _
        ∙ emit_address_ne r.subdomains a r.a s

    claim_if_ne :
        (b : Bool) (d : Rdata) (out : Output)
        → out_view n (if b then claim m d out else out) ≡ out_view n out
    claim_if_ne true d out = claim_ne m n d out e (ne-wild m n p)
    claim_if_ne false d out = refl

    claim-wild_if_ne :
        (b : Bool) (d : Rdata) (out : Output)
        → out_view n (if b then claim (wild m) d out else out) ≡ out_view n out
    claim-wild_if_ne true d out = claim_ne (wild m) n d out (wild-ne m n q) below_ne
    claim-wild_if_ne false d out = refl

    emit_allow_ne : (s : Output) (r : Scope) → out_view n (emit_allow s (m, r)) ≡ out_view n s
    unfolding emit_allow
    emit_allow_ne s r =
        claim-wild_if_ne r.subdomains passthru _ ∙ claim_if_ne (r.exact || r.subdomains) passthru s

    emit_block_ne : (s : Output) (r : Scope) → out_view n (emit_block s (m, r)) ≡ out_view n s
    unfolding emit_block
    emit_block_ne s r = elim (Bool-cases r.subdomains) [
      | inl k ↦ rw k (
          claim-wild_if_ne true nxdomain _
          ∙ claim_if_ne true nxdomain _
          ∙ claim_if_ne r.exact nxdomain s)
      | inr k ↦ rw k (claim_if_ne r.exact nxdomain s)
    ]

  -- The name itself.
  module _ (q : IsPlain n) where
    emit_address_self :
        (sub : Bool) (rtype : Text → Rdata) (o : Option Text) (out : Output)
        → out_view n (emit_address n sub rtype o out) ≡ addressed sub rtype o (out_view n out)
    emit_address_self sub rtype none out = refl
    emit_address_self sub rtype (some []) out = refl
    emit_address_self true rtype (some (c ∷ cs)) out =
        emit_below n q (rtype (c ∷ cs)) (emit n (rtype (c ∷ cs)) out)
        ∙ ap {A = OutView} (λ v. record v { below = v.below ++ rtype (c ∷ cs) ∷ [] })
            (emit_here n q (rtype (c ∷ cs)) out)
    emit_address_self false rtype (some (c ∷ cs)) out = emit_here n q (rtype (c ∷ cs)) out

    occupied_self :
        (sub : Bool) (out : Output)
        → out_view n (if sub then occupy (wild n) (occupy n out) else occupy n out)
          ≡ record (out_view n out) {
            taken = true;
            taken_below = if sub then true else (out_view n out).taken_below;
          }
    occupied_self true out =
        occupy_below n q (occupy n out)
        ∙ ap {A = OutView} (λ v. record v { taken_below = true }) (occupy_here n q out)
    occupied_self false out = occupy_here n q out

    emit_rewrite_self :
        (s : Output) (r : Rewrite)
        → out_view n (emit_rewrite s (n, r)) ≡ rewrite_view r (out_view n s)
    unfolding emit_rewrite rewrite_view
    emit_rewrite_self s r =
        occupied_self r.subdomains (emit_address n r.subdomains aaaa r.aaaa out)
        ∙ ap {A = OutView}
            (λ v. record v {
              taken = true;
              taken_below = if r.subdomains then true else v.taken_below;
            })
            (emit_address_self r.subdomains aaaa r.aaaa out
              ∙ ap (addressed r.subdomains aaaa r.aaaa) (emit_address_self r.subdomains a r.a s))
      where
        out : Output
        out = emit_address n r.subdomains a r.a s

    claim_if_self :
        (b : Bool) (d : Rdata) (out : Output)
        → out_view n (if b then claim n d out else out)
          ≡ (if b then put_here d (out_view n out) else out_view n out)
    claim_if_self true d out = claim_here n q d out
    claim_if_self false d out = refl

    claim-wild_if_self :
        (b : Bool) (d : Rdata) (out : Output)
        → out_view n (if b then claim (wild n) d out else out)
          ≡ (if b then put_below d (out_view n out) else out_view n out)
    claim-wild_if_self true d out = claim_below n q d out
    claim-wild_if_self false d out = refl

    emit_allow_self :
        (s : Output) (r : Scope) → out_view n (emit_allow s (n, r)) ≡ allow_view r (out_view n s)
    unfolding emit_allow allow_view
    emit_allow_self s r =
        claim-wild_if_self r.subdomains passthru _
        ∙ rw (claim_if_self (r.exact || r.subdomains) passthru s)

    emit_block_self :
        (s : Output) (r : Scope) → out_view n (emit_block s (n, r)) ≡ block_view r (out_view n s)
    unfolding emit_block block_view
    emit_block_self s r = elim (Bool-cases r.subdomains) [
      | inl k ↦ rw k (
          claim_below n q nxdomain _
          ∙ rw (claim_here n q nxdomain _) (rw (claim_if_self r.exact nxdomain s)))
      | inr k ↦ rw k (claim_if_self r.exact nxdomain s)
    ]

    pub out_view-rpz_records :
        (s : ActiveRuleSet)
        → IsKeyed IsPlain s
        → out_view n (rpz_records s)
          ≡ zone_view (lookup n s.rewrites) (lookup n s.allows) (lookup n s.blocks)
    unfolding rpz_records zone_view out_view answers mem any keep
    out_view-rpz_records s h =
        view-foldl IsPlain n emit_block (out_view n) block_view
          (λ out m v p e. emit_block_ne m p q e out v) emit_block_self (sorted s.blocks) allowed
          (sorted-Each (λ k _. IsPlain k) s.blocks h.blocks_each)
          (sorted-IsUnique s.blocks h.blocks)
        ∙ rw (lookup-sorted n s.blocks) (ap (on block_view (lookup n s.blocks)) allows_seen)
      where
        rewritten : Output
        rewritten = foldl emit_rewrite (record { lines = []; occupied = [] }) (sorted s.rewrites)

        allowed : Output
        allowed = foldl emit_allow rewritten (sorted s.allows)

        rewrites_seen :
            out_view n rewritten
            ≡ on rewrite_view
                (lookup n s.rewrites)
                (record { here = []; below = []; taken = false; taken_below = false })
        rewrites_seen = rw (← lookup-sorted n s.rewrites) (
            view-foldl IsPlain n emit_rewrite (out_view n) rewrite_view
              (λ out m v p e. emit_rewrite_ne m p q e out v) emit_rewrite_self (sorted s.rewrites)
              (record { lines = []; occupied = [] })
              (sorted-Each (λ k _. IsPlain k) s.rewrites h.rewrites_each)
              (sorted-IsUnique s.rewrites h.rewrites))

        allows_seen :
            out_view n allowed
            ≡ on allow_view (lookup n s.allows) (
                on rewrite_view
                  (lookup n s.rewrites)
                  (record { here = []; below = []; taken = false; taken_below = false }))
        allows_seen =
            view-foldl IsPlain n emit_allow (out_view n) allow_view
              (λ out m v p e. emit_allow_ne m p q e out v) emit_allow_self (sorted s.allows)
              rewritten (sorted-Each (λ k _. IsPlain k) s.allows h.allows_each)
              (sorted-IsUnique s.allows h.allows)
            ∙ rw (lookup-sorted n s.allows) (ap (on allow_view (lookup n s.allows)) rewrites_seen)
