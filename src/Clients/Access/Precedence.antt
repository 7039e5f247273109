-- ===== src/Clients/Access/Precedence.antt =====
-- `evaluate_access` against the precedence that it documents.
use alderpoint_dns.Base.{
  Text, Bool, true, false, not, ◌&&◌, ◌||◌, Option, none, some, List, [], ◌∷◌, map, keep, any,
  any-append, ◌≡◌, refl, sym, ◌∙◌, arith,
}
use alderpoint_dns.Net.{Address}
use alderpoint_dns.Clients.Types.{RuleKind, value_of, client, Action, Identifier, AccessRule}
use alderpoint_dns.Clients.Access.{
  Owner, get_client, Entry, entry_of, owner_entries, expand_rule, expand_rules, matches,
  matches_value, is_deny, decide, parsed, evaluate_access,
}

-- Whether a rule applies to a query: it is about a matching value, or about an enabled client one of
-- whose identifiers matches.
abbrev pub owner_matches : Option Address → Option Text → Option Owner → Bool
owner_matches address cid none = false
owner_matches address cid (some o) =
    o.client.enabled
    && any (λ (i : Identifier). matches_value address cid i.kind (some i.value)) o.identifiers

abbrev pub kind_applies : List Owner → Option Address → Option Text → RuleKind → AccessRule → Bool
kind_applies owners address cid client r = owner_matches address cid (get_client r.client_id owners)
kind_applies owners address cid (value_of kind) r = matches_value address cid kind r.value

abbrev pub applies : List Owner → Option Address → Option Text → AccessRule → Bool
applies owners address cid r = kind_applies owners address cid r.kind r

any-keep_both {ℓ} :
    {A : Type ℓ} (p q : A → Bool) (xs : List A) → any (λ x. p x && q x) xs ≡ any q (keep p xs)
unfolding any keep
any-keep_both p q [] = refl
any-keep_both p q (x ∷ xs) = ground (arith, any-keep_both p q xs)

some_left {ℓ} : {A : Type ℓ} → List A → Bool
some_left [] = false
some_left (_ ∷ _) = true

some_left-keep {ℓ} : {A : Type ℓ} (p : A → Bool) (xs : List A) → some_left (keep p xs) ≡ any p xs
unfolding some_left any keep
some_left-keep p [] = refl
some_left-keep p (x ∷ xs) = ground (arith, some_left-keep p xs)

decide_allowed :
    (policy : Action) (denies allows : List Entry)
    → (decide policy denies allows).allowed
      ≡ (not (some_left denies) && (some_left allows || not (is_deny policy)))
unfolding decide some_left
decide_allowed policy denies allows = ground arith

module _ (owners : List Owner) (address : Option Address) (cid : Option Text)
    (p : Action → Bool) where
  abbrev hit : Entry → Bool
  hit e = matches address cid e && p e.action

  any-entries :
      (a : Action) (name : Text) (is : List Identifier)
      → any hit (map (entry_of a name) is)
        ≡ (any (λ (i : Identifier). matches_value address cid i.kind (some i.value)) is && p a)
  unfolding any
  any-entries a name [] = refl
  any-entries a name (i ∷ is) = ground (arith, any-entries a name is)

  any-owner :
      (a : Action) (o : Option Owner)
      → any hit (owner_entries a o) ≡ (owner_matches address cid o && p a)
  unfolding any
  any-owner a none = refl
  any-owner a (some o) = ground (arith, any-entries a o.client.name o.identifiers)

  any-expand_rule :
      (kind : RuleKind) (r : AccessRule)
      → any hit (expand_rule owners kind r) ≡ (kind_applies owners address cid kind r && p r.action)
  unfolding any expand_rule
  any-expand_rule client r = any-owner r.action (get_client r.client_id owners)
  any-expand_rule (value_of kind) r = ground arith

  pub any-expand_rules :
      (rules : List AccessRule)
      → any hit (expand_rules owners rules)
        ≡ any (λ (r : AccessRule). applies owners address cid r && p r.action) rules
  unfolding any expand_rules
  any-expand_rules [] = refl
  any-expand_rules (r ∷ rules) =
      any-append hit (expand_rule owners r.kind r) (expand_rules owners rules)
      ∙ rw (any-expand_rule r.kind r, any-expand_rules rules) refl

-- A query is allowed exactly if no denying rule applies to it, and an allowing rule does or the
-- default is to allow, in whatever order the rules stand.
pub evaluate_access_allowed :
    (remote_ip cid : Option Text) (rules : List AccessRule) (owners : List Owner) (policy : Action)
    → (evaluate_access remote_ip cid rules owners policy).allowed ≡ (
        not (
          any
            (λ (r : AccessRule). applies owners (parsed remote_ip) cid r && is_deny r.action)
            rules)
        && (any
              (λ (r : AccessRule).
                applies owners (parsed remote_ip) cid r && not (is_deny r.action))
              rules
            || not (is_deny policy)))
unfolding evaluate_access
evaluate_access_allowed remote_ip cid rules owners policy =
    decide_allowed policy (keep (λ (e : Entry). is_deny e.action) matched)
      (keep (λ (e : Entry). not (is_deny e.action)) matched)
    ∙ rw
        (
          some_left-keep (λ (e : Entry). is_deny e.action) matched,
          some_left-keep (λ (e : Entry). not (is_deny e.action)) matched,
          sym (
              any-keep_both (matches (parsed remote_ip) cid) (λ (e : Entry). is_deny e.action)
                (expand_rules owners rules)),
          sym (
              any-keep_both (matches (parsed remote_ip) cid) (λ (e : Entry). not (is_deny e.action))
                (expand_rules owners rules)),
          any-expand_rules owners (parsed remote_ip) cid is_deny rules,
          any-expand_rules owners (parsed remote_ip) cid (λ a. not (is_deny a)) rules,
        )
        refl
  where
    matched : List Entry
    matched = keep (matches (parsed remote_ip) cid) (expand_rules owners rules)
