-- ===== src/Rules/Store/Deployed.antt =====
-- The zone that is compiled from a reachable table: what the theorems about the zone suppose of a
-- table follows from the way in which the table was made.
use alderpoint_dns.Base.{
  ℕ, Text, Bool, true, false, ◌&&◌, Option, some, none, List, [], ◌∷◌, keep, All, ◌≡◌, refl, ap,
  sym, ◌∙◌, Bool-cases, inl, inr, arith, subst, &&_true,
}
use mathlib.Core.Bool.{false≢true}
use alderpoint_dns.Platform.{Platform}
use alderpoint_dns.Domain.Plain.{begins_with_star, matches_domain_re-plain}
use alderpoint_dns.Rules.Types.{RuleType, Action, Row, is_valid, is_active, truthy}
use alderpoint_dns.Rules.Parse.Line.{is_rewrite_type}
use alderpoint_dns.Rules.Parse.Sound.{
  IsSound, inert, of_domain, of_regex, of_comment, is_some, regex_kind,
}
use alderpoint_dns.Rules.Evaluate.{is_rewrite}
use alderpoint_dns.Rules.Active.{collect_active}
use alderpoint_dns.Rules.Active.Views.{OfDomain}
use alderpoint_dns.Rules.Active.Summary.{HasAddress}
use alderpoint_dns.Rules.Rpz.{wild, rpz_records}
use alderpoint_dns.Rules.Rpz.Owners.{IsPlain, answers}
use alderpoint_dns.Rules.Rpz.Agreement.{ruling, verdict}
use alderpoint_dns.Rules.Rpz.Refinement.{
  IsStored, IsLevel, rules_at, rules_above, rpz_here-eq-verdict, rpz_below-eq-verdict,
}
use alderpoint_dns.Rules.Store.Good.{IsGoodRow}
use alderpoint_dns.Rules.Store.Invariant.{Reachable, Reachable-IsGoodTable}

keep-keep {ℓ} : {A : Type ℓ} (p : A → Bool) (xs : List A) → keep p (keep p xs) ≡ keep p xs
unfolding keep
keep-keep p [] = refl
keep-keep p (x ∷ xs) = ground (arith, keep-keep p xs)

All-keep_if {ℓ κ μ} :
    {A : Type ℓ} (P : A → Type κ) (Q : A → Type μ) (p : A → Bool)
    (f : (x : A) → p x ≡ true → P x → Q x) (xs : List A)
    → All P xs
    → All Q (keep p xs)
unfolding keep
All-keep_if P Q p f [] h = tt
All-keep_if P Q p f (x ∷ xs) h = elim (Bool-cases (p x)) [
  | inl e ↦ rw e (f x e h.0, All-keep_if P Q p f xs h.1)
  | inr e ↦ rw e (All-keep_if P Q p f xs h.1)
]

plain_lem : (n : Text) → begins_with_star n ≡ false → IsPlain n
plain_lem [] h = refl
plain_lem (c ∷ cs) h = rw h refl

named-OfDomain : (o : Option Text) (n : Text) → o ≡ some n → IsPlain n → OfDomain IsPlain o
named-OfDomain o n e h = subst (OfDomain IsPlain) (sym e) h

unnamed-OfDomain : (o : Option Text) → o ≡ none → OfDomain IsPlain o
unnamed-OfDomain o e = subst (OfDomain IsPlain) (sym e) tt

rewrite_address-truthy :
    (t : RuleType) (address : Option Text) (b : Bool)
    → (is_rewrite_type t ≡ true → (truthy address && b) ≡ true)
    → is_rewrite t ≡ true
    → truthy address ≡ true
unfolding is_rewrite
rewrite_address-truthy RuleType.rewrite address b h e = (&&_true (truthy address) b (h refl)).0
rewrite_address-truthy RuleType.block address b h e = absurd (false≢true e)
rewrite_address-truthy RuleType.allow address b h e = absurd (false≢true e)
rewrite_address-truthy RuleType.regex_block address b h e = absurd (false≢true e)
rewrite_address-truthy RuleType.regex_allow address b h e = absurd (false≢true e)
rewrite_address-truthy RuleType.comment address b h e = absurd (false≢true e)
rewrite_address-truthy RuleType.unsupported address b h e = absurd (false≢true e)

not_rewrite : (r : Row) → is_rewrite r.rule_type ≡ false → HasAddress r
not_rewrite r h = λ e. absurd (false≢true (sym h ∙ e))

regex_not_rewrite : (t : RuleType) (a : Action) → regex_kind t a ≡ true → is_rewrite t ≡ false
unfolding is_rewrite
regex_not_rewrite t a h = ground (arith, h)

comment_not_rewrite : (t : RuleType) → t ≡ RuleType.comment → is_rewrite t ≡ false
unfolding is_rewrite
comment_not_rewrite t h = ap is_rewrite h

module _ (py : Platform) where
  active-IsStored : (r : Row) → is_active r ≡ true → IsGoodRow py r → IsStored r
  active-IsStored r e good = go good.parsed.sound
    where
      valid : is_valid r.validation_state ≡ true
      valid = ground (arith, e)

      go : IsSound py r.rule → IsStored r
      go (inert i) = absurd (false≢true (sym i.state ∙ valid))
      go (of_domain d) = (
        named-OfDomain r.domain d.name d.named
            (plain_lem d.name (matches_domain_re-plain d.name d.matches)),
        rewrite_address-truthy r.rule_type r.rewrite_address (is_some r.address_family) d.addressed,
      )
      go (of_regex x) = (
        unnamed-OfDomain r.domain x.unnamed,
        not_rewrite r (regex_not_rewrite r.rule_type r.action x.kind),
      )
      go (of_comment c) = (
        unnamed-OfDomain r.domain c.unnamed,
        not_rewrite r (comment_not_rewrite r.rule_type c.type),
      )

  active_rows : (t : List Row) → Reachable py t → All IsStored (keep is_active t)
  active_rows t r =
      All-keep_if (IsGoodRow py) IsStored is_active active-IsStored t
        (Reachable-IsGoodTable py t r).rows

  collect_active-keep : (t : List Row) → collect_active (keep is_active t) ≡ collect_active t
  unfolding collect_active
  collect_active-keep t = rw (keep-keep is_active t) refl

  -- For a table that operations make of the empty one, the records that are compiled at a name which
  -- is no wildcard give the verdict of `evaluate_domain` on the active rules of that name, and there
  -- is no record where there is no such rule.
  pub deployed_here-eq-verdict :
      (n : Text) (t : List Row)
      → IsPlain n
      → Reachable py t
      → ruling (answers n (rpz_records (collect_active t)).lines) ≡ verdict (rules_at n t)
  deployed_here-eq-verdict n t plain r =
      ap (λ s. ruling (answers n (rpz_records s).lines)) (sym (collect_active-keep t))
      ∙ rpz_here-eq-verdict n (keep is_active t) plain (active_rows t r)
      ∙ ap verdict (rw (keep-keep is_active t) refl)

  -- Below the name the same holds of the rules that reach below it, if its active allow and block
  -- rules have one priority.
  pub deployed_below-eq-verdict :
      (n : Text) (p : ℕ) (t : List Row)
      → IsPlain n
      → All (IsLevel n p) (keep is_active t)
      → Reachable py t
      → ruling (answers (wild n) (rpz_records (collect_active t)).lines) ≡ verdict (rules_above n t)
  deployed_below-eq-verdict n p t plain level r =
      ap (λ s. ruling (answers (wild n) (rpz_records s).lines)) (sym (collect_active-keep t))
      ∙ rpz_below-eq-verdict n p (keep is_active t) plain (active_rows t r) level
      ∙ ap verdict (rw (keep-keep is_active t) refl)
