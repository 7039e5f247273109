-- ===== src/Clients/Enforcement/Hits.antt =====
-- Which entries hit a query over DoH that carries a ClientID: over the data files, and by
-- `evaluate_access`.
use alderpoint_dns.Base.{
  ℕ, Text, codes, Bool, false, not, ◌&&◌, ◌||◌, Option, none, some, List, [], ◌∷◌, ◌++◌, any, All,
  All-map, any_ext, teq, if◌then◌else◌, ◌≡◌, refl, ◌∙◌, arith,
}
use alderpoint_dns.Net.{Address}
use alderpoint_dns.Clients.Types.{
  Kind, ipv4, ipv4_cidr, ipv6, ipv6_cidr, clientid, Action, allow, deny, AccessRule, same_action,
}
use alderpoint_dns.Clients.Identifiers.{clientid_doh_path}
use alderpoint_dns.Clients.Access.{
  Owner, Entry, expand_rules, is_deny, matches, matches_value, rule_matches_ip, parsed,
  evaluate_access,
}
use alderpoint_dns.Clients.Access.Precedence.{applies, any-expand_rules, evaluate_access_allowed}
use alderpoint_dns.Clients.Enforcement.Masks.{
  IsValueOf, IsSource, Reads, covers_value_4, covers_value_6, covers_network,
}
use alderpoint_dns.Base.SortedSet.{any-sorted_set}
use alderpoint_dns.Clients.Enforcement.{
  collect, v4_line, v6_line, path_line, line_for, lines, access_lists, Query, is_among, is_loopback,
  group_covers, refused_first, passes_gate, serves,
}

abbrev pub opt : (Text → Bool) → Option Text → Bool
opt p none = false
opt p (some s) = p s

any-collect :
    (p : Text → Bool) (f : Entry → Option Text) (es : List Entry)
    → any p (collect f es) ≡ any (λ e. opt p (f e)) es
unfolding collect any
any-collect p f [] = refl
any-collect p f (e ∷ es) = ground (arith, any-collect p f es)

any-lines :
    (p : Text → Bool) (f : Kind → Text → Option Text) (action : Action) (es : List Entry)
    → any p (lines f action es) ≡ any (λ e. opt p (line_for f action e)) es
any-lines p f action es =
    any-sorted_set p (collect (line_for f action) es) ∙ any-collect p (line_for f action) es

any_three {ℓ} :
    {A : Type ℓ} (p q r s : A → Bool) (xs : List A)
    → All (λ x. ((p x || q x) || r x) ≡ s x) xs
    → ((any p xs || any q xs) || any r xs) ≡ any s xs
unfolding any
any_three p q r s [] h = refl
any_three p q r s (x ∷ xs) h = ground (arith, h.0, any_three p q r s xs h.1)

pub any_and_none {ℓ} :
    {A : Type ℓ} (p q : A → Bool) (xs : List A)
    → any p xs ≡ false
    → any (λ x. p x && q x) xs ≡ false
unfolding any
any_and_none p q [] h = refl
any_and_none p q (x ∷ xs) h = ground (arith, h, any_and_none p q xs)

teq-prefix : (p s t : Text) → teq (p ++ s) (p ++ t) ≡ teq s t
unfolding teq
teq-prefix [] s t = refl
teq-prefix (c ∷ p) s t = ground (arith, teq-prefix p s t)

-- Two ClientIDs have one path only if they are the same.
doh_path_teq :
    (base v w : Text) → teq (clientid_doh_path base v) (clientid_doh_path base w) ≡ teq v w
unfolding clientid_doh_path
doh_path_teq base v w = teq-prefix _ (codes "/" ++ v) (codes "/" ++ w) ∙ teq-prefix (codes "/") v w

module _ (covers : Text → Address → Bool) (a : Address) where
  -- A line for an address or a network covers what the rule matches.
  abbrev pub FaithfulLine : Option Text → Kind → Text → Bool → Type 0
  FaithfulLine none kind value b = Unit
  FaithfulLine (some line) kind value b = covers line a ≡ b

  abbrev pub FaithfulValue : Kind → Option Text → Type 0
  FaithfulValue kind none = Unit
  FaithfulValue kind (some v) =
      FaithfulLine (v4_line kind v) kind v (rule_matches_ip kind v a)
      × FaithfulLine (v6_line kind v) kind v (rule_matches_ip kind v a)

  abbrev pub Faithful : Entry → Type 0
  Faithful e = FaithfulValue e.kind e.value

  -- An entry with a value that fits its kind.
  abbrev pub IsEntryValue : Kind → Option Text → Type 0
  IsEntryValue kind none = Unit
  IsEntryValue kind (some v) = IsValueOf kind v

  abbrev pub IsEntry : Entry → Type 0
  IsEntry e = IsEntryValue e.kind e.value

  value-FaithfulValue :
      Reads covers a
      → IsSource a
      → (kind : Kind) (value : Option Text) → IsEntryValue kind value
      → FaithfulValue kind value
  unfolding rule_matches_ip
  value-FaithfulValue reads source kind none h = tt
  value-FaithfulValue reads source ipv4 (some v) h = (covers_value_4 covers a reads source v h, tt)
  value-FaithfulValue reads source ipv4_cidr (some v) h =
      (covers_network covers a reads source v h.0 h.1, tt)
  value-FaithfulValue reads source ipv6 (some v) h = (tt, covers_value_6 covers a reads source v h)
  value-FaithfulValue reads source ipv6_cidr (some v) h =
      (tt, covers_network covers a reads source v h.0 h.1)
  value-FaithfulValue reads source clientid (some v) h = (tt, tt)

  pub all-Faithful :
      Reads covers a → IsSource a → (es : List Entry) → All IsEntry es → All Faithful es
  all-Faithful reads source es h =
      All-map (λ e k. value-FaithfulValue reads source e.kind e.value k) es h

  module _ (base : Text) (x : ℕ) (cs : Text) (sni : Option Text) where
    abbrev path : Text
    path = clientid_doh_path base (x ∷ cs)

    abbrev line_hits : Action → Entry → Bool
    line_hits action e =
        (opt (λ m. covers m a) (line_for v4_line action e)
          || opt (λ m. covers m a) (line_for v6_line action e))
        || opt (λ t. teq t path) (line_for (path_line base) action e)

    value_hits :
        (kind : Kind) (value : Option Text) (b : Bool)
        → FaithfulValue kind value
        → (elim value [
          | none ↦ false
          | some v ↦
              (opt (λ m. covers m a) (if b then v4_line kind v else none)
                || opt (λ m. covers m a) (if b then v6_line kind v else none))
              || opt (λ t. teq t path) (if b then path_line base kind v else none)
        ])
          ≡ (matches_value (some a) (some (x ∷ cs)) kind value && b)
    unfolding rule_matches_ip
    value_hits kind none b h = refl
    value_hits ipv4 (some v) b h = ground (arith, h.0)
    value_hits ipv4_cidr (some v) b h = ground (arith, h.0)
    value_hits ipv6 (some v) b h = ground (arith, h.1)
    value_hits ipv6_cidr (some v) b h = ground (arith, h.1)
    value_hits clientid (some v) b h = ground (arith, doh_path_teq base v (x ∷ cs))

    entry_hits :
        (action : Action) (e : Entry)
        → Faithful e
        → line_hits action e ≡ (matches (some a) (some (x ∷ cs)) e && same_action e.action action)
    entry_hits action e h = go e.value h
      where
        go :
            (value : Option Text)
            → FaithfulValue e.kind value
            → line_hits action (record e { value = value })
              ≡ (matches_value (some a) (some (x ∷ cs)) e.kind value && same_action e.action action)
        go none h = refl
        go (some v) h = value_hits e.kind (some v) (same_action e.action action) h

    -- Of all entries together, over the three lists of an action.
    list_hits :
        (action : Action) (es : List Entry)
        → All Faithful es
        → ((group_covers covers (lines v4_line action es) a
              || group_covers covers (lines v6_line action es) a)
            || is_among (some path) (lines (path_line base) action es))
          ≡ any (λ e. matches (some a) (some (x ∷ cs)) e && same_action e.action action) es
    list_hits action es h =
        rw
          (
            any-lines (λ m. covers m a) v4_line action es,
            any-lines (λ m. covers m a) v6_line action es,
            any-lines (λ t. teq t path) (path_line base) action es,
          )
          (any_three (λ e. opt (λ m. covers m a) (line_for v4_line action e))
            (λ e. opt (λ m. covers m a) (line_for v6_line action e))
            (λ e. opt (λ t. teq t path) (line_for (path_line base) action e))
            (λ e. matches (some a) (some (x ∷ cs)) e && same_action e.action action) es
            (All-map (λ e k. entry_hits action e k) es h))

    unfoldable pub rule_hits :
        (action : Action) (owners : List Owner) (rules : List AccessRule) → Bool
    rule_hits action owners rules =
        any
          (λ (r : AccessRule).
            applies owners (some a) (some (x ∷ cs)) r && same_action r.action action)
          rules

    expanded_hits :
        (action : Action) (owners : List Owner) (rules : List AccessRule)
        → any
            (λ e. matches (some a) (some (x ∷ cs)) e && same_action e.action action)
            (expand_rules owners rules)
          ≡ rule_hits action owners rules
    unfolding rule_hits
    expanded_hits action owners rules =
        any-expand_rules owners (some a) (some (x ∷ cs)) (λ b. same_action b action) rules

    -- A query with the address, the server name if any, and the ClientID in its path.
    abbrev pub doh_query : Query
    doh_query = record { address = a; sni = sni; path = some path }

    pub serves_doh :
        (rules : List AccessRule) (owners : List Owner) (policy : Action)
        → All Faithful (expand_rules owners rules)
        → is_among sni (access_lists rules owners policy base).deny_sni ≡ false
        → is_among sni (access_lists rules owners policy base).allow_sni ≡ false
        → serves covers (access_lists rules owners policy base) doh_query ≡ (
            not (rule_hits deny owners rules)
            && (not (is_deny policy) || (is_loopback covers a || rule_hits allow owners rules)))
    unfolding serves access_lists refused_first passes_gate
    serves_doh rules owners policy h no_deny no_allow =
        let d = list_hits deny (expand_rules owners rules) h ∙ expanded_hits deny owners rules in
        let w = list_hits allow (expand_rules owners rules) h ∙ expanded_hits allow owners rules in
        ground (arith, d, w, no_deny, no_allow)

    pub allowed_hits :
        (remote : Text) (rules : List AccessRule) (owners : List Owner) (policy : Action)
        → parsed (some remote) ≡ some a
        → (evaluate_access (some remote) (some (x ∷ cs)) rules owners policy).allowed ≡ (
            not (rule_hits deny owners rules)
            && (rule_hits allow owners rules || not (is_deny policy)))
    unfolding rule_hits
    allowed_hits remote rules owners policy e =
        evaluate_access_allowed (some remote) (some (x ∷ cs)) rules owners policy
        ∙ rw e (
            rw
              (
                any_ext
                    (λ (r : AccessRule).
                      applies owners (some a) (some (x ∷ cs)) r && is_deny r.action)
                    (λ (r : AccessRule).
                      applies owners (some a) (some (x ∷ cs)) r && same_action r.action deny)
                    (λ r. ground arith) rules,
                any_ext
                    (λ (r : AccessRule).
                      applies owners (some a) (some (x ∷ cs)) r && not (is_deny r.action))
                    (λ (r : AccessRule).
                      applies owners (some a) (some (x ∷ cs)) r && same_action r.action allow)
                    (λ r. ground arith) rules,
              )
              refl)
