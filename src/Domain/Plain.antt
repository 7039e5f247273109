-- ===== src/Domain/Plain.antt =====
-- A domain name does not begin with an asterisk, so no name is the wildcard of another.
use alderpoint_dns.Base.{
  Text, Bool, true, false, List, [], ◌∷◌, ◌≡◌, refl, ◌==◌, all, arith, Bool-cases, inl, inr, sym,
  ◌∙◌, ap, ℕ,
}
use mathlib.Core.Bool.{false≢true}
use alderpoint_dns.Base.Str.{split, onto}
use alderpoint_dns.Domain.{is_edge_char, is_label, matches_domain_re}

abbrev pub begins_with_star : Text → Bool
begins_with_star [] = false
begins_with_star (c ∷ cs) = c == 42

onto_star : (ps : List Text) → all is_label (onto 42 ps) ≡ false
unfolding all is_label is_edge_char
onto_star [] = refl
onto_star (p ∷ ps) = refl

split_star : (cs : Text) → all is_label (split b'.' (42 ∷ cs)) ≡ false
unfolding split
split_star cs = onto_star (split b'.' cs)

star-matches_domain_re : (cs : Text) → matches_domain_re (42 ∷ cs) ≡ false
unfolding matches_domain_re
star-matches_domain_re cs = rw (split_star cs) (ground arith)

pub matches_domain_re-plain : (n : Text) → matches_domain_re n ≡ true → begins_with_star n ≡ false
matches_domain_re-plain [] h = refl
matches_domain_re-plain (c ∷ cs) h = elim (Bool-cases (c == 42)) [
  | inr e ↦ e
  | inl e ↦
      let star : c ≡ 42 = ground (arith, e) in
      absurd (
        false≢true (
          sym (star-matches_domain_re cs)
          ∙ ap (λ (d : ℕ). matches_domain_re (d ∷ cs)) (sym star)
          ∙ h))
]
