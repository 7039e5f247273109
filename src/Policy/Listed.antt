-- ===== src/Policy/Listed.antt =====
-- Which names the sources put in the zone, after the custom rules took theirs away.
use alderpoint_dns.Base.{
  Text, Bool, true, false, not, ◌&&◌, ◌||◌, Option, none, some, List, [], ◌∷◌, ◌++◌, any, any_ext,
  keep, All, teq, teq→eq, teq_iff, if◌then◌else◌, if_ind, ◌≡◌, refl, ap, ◌∙◌, arith, Bool-cases,
  inl, inr,
}
use alderpoint_dns.Base.Dict.{Dict, lookup}
use alderpoint_dns.Base.SortedSet.{sorted_set, any-sorted_set}
use alderpoint_dns.Base.Tables.{All-keep, All-snoc}
use alderpoint_dns.Platform.{Platform}
use alderpoint_dns.Domain.{matches_domain_re}
use alderpoint_dns.Domain.Plain.{begins_with_star, matches_domain_re-plain}
use alderpoint_dns.Sources.Types.{Domains}
use alderpoint_dns.Sources.Line.Names.{is_name}
use alderpoint_dns.Sources.Count.{contains}
use alderpoint_dns.Sources.Count.Members.{parse_rule_lines-HasNames, puts}
use alderpoint_dns.Sources.Collect.{
  Source, union, minus, parse_source, parse_sources, all_blocks, collect_rules,
}
use alderpoint_dns.Sources.Collect.Active.{some_source, contains-collect_rules}
use alderpoint_dns.Rules.Types.{Row}
use alderpoint_dns.Rules.Active.{Scope, ActiveRuleSet, collect_active}
use alderpoint_dns.Rules.Rpz.Owners.{IsPlain}
use alderpoint_dns.Policy.{
  has_key, subdomain_allows, is_within, is_empty, is_exempt, subtract_allowed, rpz_name, texts,
}
use alderpoint_dns.Policy.Names.{matches_domain_re-rpz_name}
use alderpoint_dns.Base.Ends.{parents, ends_with-parents}

abbrev AllNames : List Text → Type 0
AllNames = All (λ d. matches_domain_re d ≡ true)

-- The sources give names only.
union-names :
    (s t : Domains)
    → All (λ d. is_name d ≡ true) s
    → All (λ d. is_name d ≡ true) t
    → All (λ d. is_name d ≡ true) (union s t)
unfolding union
union-names s [] h k = h
union-names s (d ∷ t) h k =
    if_ind (All (λ d. is_name d ≡ true)) (contains d s) (λ _. union-names s t h k.1)
      (λ _. union-names (s ++ d ∷ []) t (All-snoc _ s d h k.0) k.1)

parse_source-names :
    (py : Platform) (lines : Option (List Text))
    → All (λ d. is_name d ≡ true) (parse_source py lines).blocks
unfolding parse_source
parse_source-names py none = tt
parse_source-names py (some lines) = (parse_rule_lines-HasNames py lines).blocks

all_blocks-names :
    (py : Platform) (sources : List Source) (s : Domains)
    → All (λ d. is_name d ≡ true) s
    → All (λ d. is_name d ≡ true) (all_blocks (parse_sources py sources) s)
unfolding all_blocks parse_sources
all_blocks-names py [] s h = h
all_blocks-names py (source ∷ sources) s h =
    all_blocks-names py sources _
      (union-names s (parse_source py source.lines).blocks h (parse_source-names py source.lines))

active_names :
    (py : Platform) (sources : List Source)
    → All (λ d. is_name d ≡ true) (collect_rules py sources).active_blocks
unfolding collect_rules minus
active_names py sources = All-keep _ _ _ (all_blocks-names py sources [] tt)

texts-AllNames : (ds : Domains) → All (λ d. is_name d ≡ true) ds → AllNames (texts ds)
unfolding texts
texts-AllNames [] h = tt
texts-AllNames (none ∷ ds) h = texts-AllNames ds h.1
texts-AllNames (some d ∷ ds) h = (h.0, texts-AllNames ds h.1)

-- Among names, the name of a record is the domain.
any-rpz_name :
    (n : Text) (ds : List Text)
    → AllNames ds
    → any (λ d. teq (rpz_name d) n) ds ≡ any (λ d. teq d n) ds
unfolding any
any-rpz_name n [] h = refl
any-rpz_name n (d ∷ ds) h = rw (matches_domain_re-rpz_name d h.0, any-rpz_name n ds h.1) refl

pub rpz_name-IsPlain : (ds : List Text) → AllNames ds → All (λ d. IsPlain (rpz_name d)) ds
rpz_name-IsPlain [] h = tt
rpz_name-IsPlain (d ∷ ds) h = (
  rw (matches_domain_re-rpz_name d h.0) (plain d (matches_domain_re-plain d h.0)),
  rpz_name-IsPlain ds h.1,
)
  where
    plain : (d : Text) → begins_with_star d ≡ false → IsPlain d
    plain [] e = refl
    plain (c ∷ cs) e = ground (arith, e)

any-texts : (n : Text) (ds : Domains) → any (λ d. teq d n) (texts ds) ≡ contains (some n) ds
unfolding texts contains any
any-texts n [] = refl
any-texts n (none ∷ ds) = any-texts n ds
any-texts n (some d ∷ ds) = rw (any-texts n ds) (ground (arith, teq_iff d n, teq_iff n d))

any-keep_exempt :
    (n : Text) (allows : Dict Scope) (ds : List Text)
    → any (λ d. teq d n) (keep (λ d. not (is_exempt allows d)) ds)
      ≡ (any (λ d. teq d n) ds && not (is_exempt allows n))
unfolding any keep
any-keep_exempt n allows [] = refl
any-keep_exempt n allows (d ∷ ds) = elim (Bool-cases (teq d n)) [
  | inl e ↦ rw (teq→eq d n e) (ground (arith, any-keep_exempt n allows ds, teq_iff n n))
  | inr e ↦ ground (arith, e, any-keep_exempt n allows ds)
]

is_exempt_none : (n : Text) → is_exempt [] n ≡ false
unfolding is_exempt lookup any
is_exempt_none n = refl

any-subtract_allowed :
    (n : Text) (ds : List Text) (active : ActiveRuleSet)
    → any (λ d. teq d n) (subtract_allowed ds active)
      ≡ (any (λ d. teq d n) ds && not (is_exempt active.allows n))
unfolding subtract_allowed
any-subtract_allowed n ds active = by_allows active.allows
  where
    by_allows :
        (allows : Dict Scope)
        → any
            (λ d. teq d n)
            (if is_empty allows then ds else keep (λ d. not (is_exempt allows d)) ds)
          ≡ (any (λ d. teq d n) ds && not (is_exempt allows n))
    by_allows [] = rw (is_exempt_none n) (ground arith)
    by_allows (entry ∷ allows) = any-keep_exempt n (entry ∷ allows) ds

subtract_allowed-AllNames :
    (ds : List Text) (active : ActiveRuleSet) → AllNames ds → AllNames (subtract_allowed ds active)
unfolding subtract_allowed
subtract_allowed-AllNames ds active h =
    if_ind AllNames (is_empty active.allows) (λ _. h)
      (λ _. All-keep _ (λ d. not (is_exempt active.allows d)) ds h)

-- Whether the allows take a name off the lists: an allow of the name itself, or one that reaches to
-- the names below, of the name or of a name above it.
abbrev pub is_allowed_off : Dict Scope → Text → Bool
is_allowed_off allows n =
    has_key n allows
    || any
        (λ (entry : Text × Scope). entry.1.subdomains && any (λ p. teq p entry.0) (n ∷ parents n))
        allows

any-subdomain_allows :
    (p : Text → Bool) (allows : Dict Scope)
    → any p (subdomain_allows allows)
      ≡ any (λ (entry : Text × Scope). entry.1.subdomains && p entry.0) allows
unfolding any
any-subdomain_allows p [] = refl
any-subdomain_allows p ((name, allow) ∷ allows) = ground (arith, any-subdomain_allows p allows)

is_within-parents :
    (name domain : Text) → is_within name domain ≡ any (λ p. teq p name) (domain ∷ parents domain)
unfolding any
is_within-parents name domain = ap (λ b. teq domain name || b) (ends_with-parents name domain)

is_exempt-eq-is_allowed_off :
    (allows : Dict Scope) (n : Text) → is_exempt allows n ≡ is_allowed_off allows n
unfolding is_exempt
is_exempt-eq-is_allowed_off allows n =
    ap (λ b. has_key n allows || b)
      (any-subdomain_allows (λ name. is_within name n) allows
        ∙ any_ext _ _
            (λ (entry : Text × Scope).
              ap (λ b. entry.1.subdomains && b) (is_within-parents entry.0 n))
            allows)

module _ (py : Platform) (sources : List Source) (table : List Row) (n : Text) where
  abbrev pub active : ActiveRuleSet
  active = collect_active table

  -- What the sources put in the zone, the allows of the custom rules taken away.
  abbrev pub is_listed : Bool
  is_listed =
      (some_source py (puts false (some n)) sources
        && not (some_source py (puts true (some n)) sources))
      && not (is_allowed_off active.allows n)

  abbrev pub external : List Text
  external = subtract_allowed (texts (collect_rules py sources).active_blocks) active

  pub external-AllNames : AllNames external
  external-AllNames =
      subtract_allowed-AllNames _ active (texts-AllNames _ (active_names py sources))

  pub external_listed : any (λ d. teq (rpz_name d) n) (sorted_set external) ≡ is_listed
  external_listed =
      any-sorted_set (λ d. teq (rpz_name d) n) external
      ∙ any-rpz_name n external external-AllNames
      ∙ any-subtract_allowed n (texts (collect_rules py sources).active_blocks) active
      ∙ rw
          (
            any-texts n (collect_rules py sources).active_blocks,
            contains-collect_rules py (some n) sources,
            is_exempt-eq-is_allowed_off active.allows n,
          )
          refl
