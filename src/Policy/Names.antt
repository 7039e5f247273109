-- ===== src/Policy/Names.antt =====
-- A domain name ends in no dot.
use alderpoint_dns.Base.{
  ℕ, Text, true, false, List, [], ◌∷◌, all, ◌==◌, if◌then◌else◌, ◌≡◌, refl, arith, Bool-cases, inl,
  inr, ◌⊎◌, subst, sym, ◌∙◌,
}
use alderpoint_dns.Base.Str.{split, onto}
use alderpoint_dns.Domain.{is_label, matches_domain_re}
use alderpoint_dns.Policy.{rpz_name, is_blank}

abbrev rest_of : List Text → List Text
rest_of [] = []
rest_of (_ ∷ ps) = ps

rest-onto :
    (c : ℕ) (ps : List Text) → all is_label (rest_of (onto c ps)) ≡ all is_label (rest_of ps)
unfolding all
rest-onto c [] = refl
rest-onto c (p ∷ ps) = refl

nonempty_name : (s : Text) → all is_label (split b'.' s) ≡ true → is_blank s ≡ false
unfolding all split is_label
nonempty_name [] h = ground (arith, h)
nonempty_name (c ∷ s) h = refl

all-rest : (ps : List Text) → all is_label ps ≡ true → all is_label (rest_of ps) ≡ true
unfolding all
all-rest [] h = refl
all-rest (p ∷ ps) h = ground (arith, h)

-- Every label but the first is one, so none of them is empty.
rpz_name-rest : (s : Text) → all is_label (rest_of (split b'.' s)) ≡ true → rpz_name s ≡ s
unfolding rpz_name split
rpz_name-rest [] h = refl
rpz_name-rest (c ∷ s) h = by_char (Bool-cases (b'.' == c)) (rpz_name-rest s) h
  where
    by_char :
        ((b'.' == c) ≡ true) ⊎ ((b'.' == c) ≡ false)
        → (all is_label (rest_of (split b'.' s)) ≡ true → rpz_name s ≡ s)
        → all is_label (rest_of (split b'.' (c ∷ s))) ≡ true
        → rpz_name (c ∷ s) ≡ c ∷ s
    by_char (inl e) shorter k =
        let labels =
          subst
            (λ b.
              all is_label (rest_of (if b then [] ∷ split b'.' s else onto c (split b'.' s)))
              ≡ true)
            e k in
        rw (e, shorter (all-rest (split b'.' s) labels), nonempty_name s labels) refl
    by_char (inr e) shorter k =
        let labels =
          subst
            (λ b.
              all is_label (rest_of (if b then [] ∷ split b'.' s else onto c (split b'.' s)))
              ≡ true)
            e k in
        rw (e, shorter (sym (rest-onto c (split b'.' s)) ∙ labels)) refl

pub matches_domain_re-rpz_name : (d : Text) → matches_domain_re d ≡ true → rpz_name d ≡ d
unfolding matches_domain_re
matches_domain_re-rpz_name d h = rpz_name-rest d (all-rest (split b'.' d) (ground (arith, h)))
