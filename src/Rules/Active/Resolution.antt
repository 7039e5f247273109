-- ===== src/Rules/Active/Resolution.antt =====
-- The two loops of `_resolve_conflicts` act on each name alone.
use alderpoint_dns.Base.{
  Text, false, not, Option, none, some, foldl, ◌≡◌, refl, ◌∙◌, ap, teq, teq_refl, if◌then◌else◌,
  arith, ltb, Bool-cases, inl, inr,
}
use alderpoint_dns.Base.Dict.{lookup, lookup-insert, lookup-erase, erase, on, view-foldl}
use alderpoint_dns.Rules.Active.{
  Scope, ActiveRuleSet, yield_to_rewrite, yield_to_allow, is_empty, store_block, resolve_block,
  resolve_allow, narrow_allow, resolve_conflicts,
}
use alderpoint_dns.Rules.Active.Views.{View, view, IsKeyed}
use alderpoint_dns.Rules.Active.Keyed.{foldl-IsKeyed, resolve_block-IsKeyed}

abbrev pub settle : Scope → Option Scope
settle blk = if is_empty blk then none else some blk

unfoldable pub block_view : Scope → View → View
block_view blk0 v =
    let blk = yield_to_rewrite v.rewrite blk0 in
    elim v.allow [
      | none ↦ record v { block = settle blk }
      | some allow ↦
          if ltb allow.priority blk.priority
          then record v { allow = none; block = settle blk }
          else record v { block = settle (yield_to_allow allow blk) }
    ]

abbrev pub narrow : Option Scope → Option Scope
narrow none = none
narrow (some allow) = if not allow.subdomains then none else some (record allow { exact = false })

unfoldable pub allow_view : Scope → View → View
allow_view _ v = elim v.rewrite [
  | none ↦ v
  | some rewrite ↦
      if rewrite.subdomains then record v { allow = none } else record v { allow = narrow v.allow }
]

-- The resolution of a single name.
unfoldable pub resolve_view : View → View
unfolding block_view allow_view
resolve_view v = let after = on block_view v.block v in on allow_view after.allow after

store_block_ne :
    (m n : Text) (blk : Scope) (s : ActiveRuleSet)
    → teq m n ≡ false
    → view n (store_block m blk s) ≡ view n s
unfolding store_block view
store_block_ne m n blk s e =
    ground (arith, lookup-insert m n blk s.blocks, lookup-erase m n s.blocks)

store_block_self :
    (n : Text) (blk : Scope) (s : ActiveRuleSet)
    → view n (store_block n blk s) ≡ record (view n s) { block = settle blk }
unfolding store_block view
store_block_self n blk s =
    ground (arith, lookup-insert n n blk s.blocks, lookup-erase n n s.blocks, teq_refl n)

erase_allow_ne :
    (m n : Text) (s : ActiveRuleSet)
    → teq m n ≡ false
    → view n (record s { allows = erase m s.allows }) ≡ view n s
unfolding view
erase_allow_ne m n s e = ground (arith, lookup-erase m n s.allows)

erase_allow_self :
    (n : Text) (s : ActiveRuleSet)
    → view n (record s { allows = erase n s.allows }) ≡ record (view n s) { allow = none }
unfolding view
erase_allow_self n s = ground (arith, lookup-erase n n s.allows, teq_refl n)

resolve_block_ne :
    (n : Text) (s : ActiveRuleSet) (m : Text) (blk : Scope)
    → teq m n ≡ false
    → view n (resolve_block s (m, blk)) ≡ view n s
unfolding resolve_block
resolve_block_ne n s m blk0 e = go (lookup m s.allows)
  where
    go :
        (o : Option Scope)
        → view n (elim o [
          | none ↦ store_block m (yield_to_rewrite (lookup m s.rewrites) blk0) s
          | some allow ↦
              if ltb allow.priority (yield_to_rewrite (lookup m s.rewrites) blk0).priority
              then store_block m
                  (yield_to_rewrite (lookup m s.rewrites) blk0)
                  (record s { allows = erase m s.allows })
              else store_block m
                  (yield_to_allow allow (yield_to_rewrite (lookup m s.rewrites) blk0))
                  s
        ])
          ≡ view n s
    go none = store_block_ne m n _ s e
    go (some allow) =
        let blk = yield_to_rewrite (lookup m s.rewrites) blk0 in
        elim (Bool-cases (ltb allow.priority blk.priority)) [
          | inl h ↦ rw h (store_block_ne m n blk _ e ∙ erase_allow_ne m n s e)
          | inr h ↦ rw h (store_block_ne m n (yield_to_allow allow blk) s e)
        ]

-- The branches of `resolve_block`, one lemma for each.
store_yielded :
    (n : Text) (s : ActiveRuleSet) (blk : Scope) (o : Option Scope)
    → view n (elim o [
      | none ↦ store_block n blk s
      | some allow ↦
          if ltb allow.priority blk.priority
          then store_block n blk (record s { allows = erase n s.allows })
          else store_block n (yield_to_allow allow blk) s
    ])
      ≡ (elim o [
        | none ↦ record (view n s) { block = settle blk }
        | some allow ↦
            if ltb allow.priority blk.priority
            then record (view n s) { allow = none; block = settle blk }
            else record (view n s) { block = settle (yield_to_allow allow blk) }
      ])
store_yielded n s blk none = store_block_self n blk s
store_yielded n s blk (some allow) = elim (Bool-cases (ltb allow.priority blk.priority)) [
  | inl h ↦ rw h (
      store_block_self n blk (record s { allows = erase n s.allows })
      ∙ ap {A = View} (λ v. record v { block = settle blk }) (erase_allow_self n s))
  | inr h ↦ rw h (store_block_self n (yield_to_allow allow blk) s)
]

resolve_block_self :
    (n : Text) (s : ActiveRuleSet) (blk : Scope)
    → view n (resolve_block s (n, blk)) ≡ block_view blk (view n s)
unfolding resolve_block block_view view
resolve_block_self n s blk0 =
    store_yielded n s (yield_to_rewrite (lookup n s.rewrites) blk0) (lookup n s.allows)

narrow_allow_ne :
    (m n : Text) (o : Option Scope) (s : ActiveRuleSet)
    → teq m n ≡ false
    → view n (narrow_allow m o s) ≡ view n s
unfolding view
narrow_allow_ne m n none s e = refl
narrow_allow_ne m n (some a) s e =
    ground
      (arith, lookup-erase m n s.allows, lookup-insert m n (record a { exact = false }) s.allows)

narrow_allow_self :
    (n : Text) (o : Option Scope) (s : ActiveRuleSet)
    → lookup n s.allows ≡ o
    → view n (narrow_allow n o s) ≡ record (view n s) { allow = narrow o }
unfolding view
narrow_allow_self n none s e = ground arith
narrow_allow_self n (some a) s e = ground (
  arith,
  lookup-erase n n s.allows,
  lookup-insert n n (record a { exact = false }) s.allows,
  teq_refl n,
)

resolve_allow_ne :
    (n : Text) (s : ActiveRuleSet) (m : Text) (blk : Scope)
    → teq m n ≡ false
    → view n (resolve_allow s (m, blk)) ≡ view n s
unfolding resolve_allow
resolve_allow_ne n s m blk e =
    ground (arith, erase_allow_ne m n s, narrow_allow_ne m n (lookup m s.allows) s)

resolve_allow_self :
    (n : Text) (s : ActiveRuleSet) (blk : Scope)
    → view n (resolve_allow s (n, blk)) ≡ allow_view blk (view n s)
unfolding resolve_allow allow_view view
resolve_allow_self n s blk =
    ground (arith, erase_allow_self n s, narrow_allow_self n (lookup n s.allows) s refl)

-- With distinct keys, resolving a rule set resolves each name by itself.
pub view-resolve_conflicts {ℓ} :
    (P : Text → Type ℓ) (n : Text) (s : ActiveRuleSet)
    → IsKeyed P s
    → view n (resolve_conflicts s) ≡ resolve_view (view n s)
unfolding resolve_conflicts resolve_view view
view-resolve_conflicts P n s h =
    view-foldl P n resolve_allow (view n) allow_view (λ t m b _ e. resolve_allow_ne n t m b e)
      (resolve_allow_self n) after.allows after keyed.allows_each keyed.allows
    ∙ ap {A = View} (λ v. on allow_view v.allow v) first
  where
    after : ActiveRuleSet
    after = foldl resolve_block s s.blocks

    keyed : IsKeyed P after
    keyed = foldl-IsKeyed P resolve_block (resolve_block-IsKeyed P) s.blocks s h.blocks_each h

    first : view n after ≡ on block_view (lookup n s.blocks) (view n s)
    first =
        view-foldl P n resolve_block (view n) block_view (λ t m b _ e. resolve_block_ne n t m b e)
          (resolve_block_self n) s.blocks s h.blocks_each h.blocks
