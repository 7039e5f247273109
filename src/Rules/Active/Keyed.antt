-- ===== src/Rules/Active/Keyed.antt =====
-- Resolving conflicts keeps the keys of a rule set distinct.
use alderpoint_dns.Base.{
  Text, Bool, true, false, Option, none, some, [], ◌∷◌, foldl, if◌then◌else◌, ltb, Bool-cases, inl,
  inr,
}
use alderpoint_dns.Base.Dict.{
  Dict, lookup, insert-IsUnique, insert-Each, erase-IsUnique, erase-Each, erase, insert, Each,
}
use alderpoint_dns.Rules.Active.{
  Rewrite, Scope, ActiveRuleSet, yield_to_rewrite, yield_to_allow, is_empty, store_block,
  resolve_block, resolve_allow, narrow_allow, resolve_conflicts,
}
use alderpoint_dns.Rules.Active.Views.{IsKeyed}

module _ {ℓ} (P : Text → Type ℓ) where
  store_block-IsKeyed :
      (m : Text) (blk : Scope) (s : ActiveRuleSet)
      → P m
      → IsKeyed P s
      → IsKeyed P (store_block m blk s)
  unfolding store_block
  store_block-IsKeyed m blk s p h = elim (Bool-cases (is_empty blk)) [
    | inl e ↦ rw e (record {
      rewrites = h.rewrites;
      allows = h.allows;
      blocks = erase-IsUnique m s.blocks h.blocks;
      rewrites_each = h.rewrites_each;
      allows_each = h.allows_each;
      blocks_each = erase-Each (λ k _. P k) m s.blocks h.blocks_each;
    })
    | inr e ↦ rw e (record {
      rewrites = h.rewrites;
      allows = h.allows;
      blocks = insert-IsUnique m blk s.blocks h.blocks;
      rewrites_each = h.rewrites_each;
      allows_each = h.allows_each;
      blocks_each = insert-Each (λ k _. P k) m blk s.blocks p h.blocks_each;
    })
  ]

  erase_allow-IsKeyed :
      (m : Text) (s : ActiveRuleSet)
      → IsKeyed P s
      → IsKeyed P (record s { allows = erase m s.allows })
  erase_allow-IsKeyed m s h = record {
    rewrites = h.rewrites;
    allows = erase-IsUnique m s.allows h.allows;
    blocks = h.blocks;
    rewrites_each = h.rewrites_each;
    allows_each = erase-Each (λ k _. P k) m s.allows h.allows_each;
    blocks_each = h.blocks_each;
  }

  insert_allow-IsKeyed :
      (m : Text) (a : Scope) (s : ActiveRuleSet)
      → P m
      → IsKeyed P s
      → IsKeyed P (record s { allows = insert m a s.allows })
  insert_allow-IsKeyed m a s p h = record {
    rewrites = h.rewrites;
    allows = insert-IsUnique m a s.allows h.allows;
    blocks = h.blocks;
    rewrites_each = h.rewrites_each;
    allows_each = insert-Each (λ k _. P k) m a s.allows p h.allows_each;
    blocks_each = h.blocks_each;
  }

  if-IsKeyed :
      (b : Bool) (s t : ActiveRuleSet) → IsKeyed P s → IsKeyed P t → IsKeyed P (if b then s else t)
  if-IsKeyed true s t hs ht = hs
  if-IsKeyed false s t hs ht = ht

  pub resolve_block-IsKeyed :
      (s : ActiveRuleSet) (m : Text) (blk : Scope)
      → P m
      → IsKeyed P s
      → IsKeyed P (resolve_block s (m, blk))
  unfolding resolve_block
  resolve_block-IsKeyed s m blk0 p h = go (lookup m s.allows)
    where
      blk : Scope
      blk = yield_to_rewrite (lookup m s.rewrites) blk0

      go :
          (o : Option Scope)
          → IsKeyed P (elim o [
            | none ↦ store_block m blk s
            | some allow ↦
                if ltb allow.priority blk.priority
                then store_block m blk (record s { allows = erase m s.allows })
                else store_block m (yield_to_allow allow blk) s
          ])
      go none = store_block-IsKeyed m blk s p h
      go (some allow) =
          if-IsKeyed _ _ _ (store_block-IsKeyed m blk _ p (erase_allow-IsKeyed m s h))
            (store_block-IsKeyed m (yield_to_allow allow blk) s p h)

  narrow_allow-IsKeyed :
      (m : Text) (o : Option Scope) (s : ActiveRuleSet)
      → P m
      → IsKeyed P s
      → IsKeyed P (narrow_allow m o s)
  narrow_allow-IsKeyed m none s p h = h
  narrow_allow-IsKeyed m (some a) s p h =
      if-IsKeyed _ _ _ (erase_allow-IsKeyed m s h)
        (insert_allow-IsKeyed m (record a { exact = false }) s p h)

  resolve_allow-IsKeyed :
      (s : ActiveRuleSet) (m : Text) (blk : Scope)
      → P m
      → IsKeyed P s
      → IsKeyed P (resolve_allow s (m, blk))
  unfolding resolve_allow
  resolve_allow-IsKeyed s m blk p h = go (lookup m s.rewrites)
    where
      go :
          (o : Option Rewrite)
          → IsKeyed P (elim o [
            | none ↦ s
            | some rewrite ↦
                if rewrite.subdomains
                then record s { allows = erase m s.allows }
                else narrow_allow m (lookup m s.allows) s
          ])
      go none = h
      go (some rewrite) =
          if-IsKeyed _ _ _ (erase_allow-IsKeyed m s h)
            (narrow_allow-IsKeyed m (lookup m s.allows) s p h)

  pub foldl-IsKeyed :
      (step : ActiveRuleSet → Text × Scope → ActiveRuleSet)
      → ((s : ActiveRuleSet) (m : Text) (b : Scope) → P m → IsKeyed P s → IsKeyed P (step s (m, b)))
      → (items : Dict Scope) (s : ActiveRuleSet) → Each (λ k _. P k) items
      → IsKeyed P s
      → IsKeyed P (foldl step s items)
  foldl-IsKeyed step keeps [] s p h = h
  foldl-IsKeyed step keeps ((m, b) ∷ items) s p h =
      foldl-IsKeyed step keeps items (step s (m, b)) p.1 (keeps s m b p.0 h)

  pub resolve_conflicts-IsKeyed :
      (s : ActiveRuleSet) → IsKeyed P s → IsKeyed P (resolve_conflicts s)
  unfolding resolve_conflicts
  resolve_conflicts-IsKeyed s h =
      let after = foldl resolve_block s s.blocks in
      let h' : IsKeyed P after =
        foldl-IsKeyed resolve_block resolve_block-IsKeyed s.blocks s h.blocks_each h in
      foldl-IsKeyed resolve_allow resolve_allow-IsKeyed after.allows after h'.allows_each h'
