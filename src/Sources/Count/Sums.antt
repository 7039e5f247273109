-- ===== src/Sources/Count/Sums.antt =====
-- The counts of a source agree with each other and with its sets.
use alderpoint_dns.Base.{
  ℕ, suc, ◌+◌, ◌≤◌, Text, Bool, true, false, List, [], ◌∷◌, ◌++◌, length, ltb, if◌then◌else◌,
  Option, none, some, ◌≡◌, refl, sym, ◌∙◌, All, if_ind, teq_iff, arith, Bool-cases, inl, inr,
}
use alderpoint_dns.Base.Str.{strip}
use alderpoint_dns.Base.Tables.{IsApart, snoc-IsApart, any-none}
use alderpoint_dns.Platform.{Platform}
use alderpoint_dns.Sources.Types.{
  Rejection, invalid, unsupported, Verdict, skip, rejected, accepted, Sample, same_domain, Domains,
}
use alderpoint_dns.Sources.Line.{parse_source_line}
use alderpoint_dns.Sources.Count.{
  Parsed, contains, is_allow, add_sample, sample_cap, reject, add_domain, accept, count_rule,
  count_verdict, count_verdicts, is_passed_over, count_entry, count_line, count_lines, empty,
  finish, parse_rule_lines,
}

-- A count that stops at the cap.
abbrev pub up_to_cap : ℕ → ℕ
up_to_cap n = if ltb n sample_cap then n else sample_cap

-- What the counts keep on the way.
record IsCounted (p : Parsed) : Type 0 where
  pub blocks : IsApart same_domain p.blocks
  pub allows : IsApart same_domain p.allows
  pub accepted : length p.blocks + length p.allows ≡ p.stats.accepted_domains
  pub exceptions : length p.allows ≡ p.stats.exceptions
  pub bounded : p.stats.accepted_domains ≤ p.stats.parsed_rules
  pub samples :
      length p.stats.rejected_samples
      ≡ up_to_cap (p.stats.invalid_rules + p.stats.unsupported_rules)

pub length-snoc {ℓ} : {A : Type ℓ} (xs : List A) (x : A) → length (xs ++ x ∷ []) ≡ suc (length xs)
length-snoc [] x = refl
length-snoc (y ∷ xs) x = rw (length-snoc xs x) refl

length-add_sample :
    (n : ℕ) (s : Sample) (samples : List Sample)
    → length samples ≡ up_to_cap n
    → length (add_sample s samples) ≡ up_to_cap (suc n)
length-add_sample n s samples h = elim (Bool-cases (ltb (length samples) sample_cap)) [
  | inl e ↦ rw e (length-snoc samples s ∙ ground (arith, h, e))
  | inr e ↦ rw e (ground (arith, h, e))
]

reject-IsCounted :
    (line : ℕ) (raw : Text) (kind : Rejection) (reason : Text) (p : Parsed)
    → IsCounted p
    → IsCounted (record p { stats = reject line raw kind reason p.stats })
unfolding reject
reject-IsCounted line raw invalid reason p h = record {
  blocks = h.blocks;
  allows = h.allows;
  accepted = h.accepted;
  exceptions = h.exceptions;
  bounded = h.bounded;
  samples =
      length-add_sample (p.stats.invalid_rules + p.stats.unsupported_rules) _
        p.stats.rejected_samples h.samples
      ∙ ground arith;
}
reject-IsCounted line raw unsupported reason p h = record {
  blocks = h.blocks;
  allows = h.allows;
  accepted = h.accepted;
  exceptions = h.exceptions;
  bounded = h.bounded;
  samples =
      length-add_sample (p.stats.invalid_rules + p.stats.unsupported_rules) _
        p.stats.rejected_samples h.samples
      ∙ ground arith;
}

pub same_domain_sym : (s t : Option Text) → same_domain s t ≡ same_domain t s
same_domain_sym none none = refl
same_domain_sym none (some t) = refl
same_domain_sym (some s) none = refl
same_domain_sym (some s) (some t) = ground (arith, teq_iff s t, teq_iff t s)

-- A domain that a set does not have can be added to it.
add-IsApart :
    (domain : Option Text) (domains : Domains)
    → IsApart same_domain domains
    → contains domain domains ≡ false
    → IsApart same_domain (domains ++ domain ∷ [])
unfolding contains
add-IsApart domain domains apart h =
    snoc-IsApart same_domain domains domain apart
      (flip domains (any-none (same_domain domain) domains h))
  where
    flip :
        (ds : Domains)
        → All (λ d. same_domain domain d ≡ false) ds
        → All (λ d. same_domain d domain ≡ false) ds
    flip [] h = tt
    flip (d ∷ ds) h = (same_domain_sym d domain ∙ h.0, flip ds h.1)

count_rule-IsCounted : (p : Parsed) → IsCounted p → IsCounted (count_rule p)
count_rule-IsCounted p h = record {
  blocks = h.blocks;
  allows = h.allows;
  accepted = h.accepted;
  exceptions = h.exceptions;
  bounded = omega (arith, h.bounded);
  samples = h.samples;
}

accept-IsCounted :
    (allow : Bool) (domain : Option Text) (p : Parsed)
    → IsCounted p
    → IsCounted (accept allow domain p)
unfolding accept add_domain
accept-IsCounted true domain p h =
    if_ind IsCounted (contains domain p.allows) (λ _. count_rule-IsCounted p h)
      (λ e. record {
        blocks = h.blocks;
        allows = add-IsApart domain p.allows h.allows e;
        accepted = ground (arith, h.accepted, length-snoc p.allows domain);
        exceptions = ground (arith, h.exceptions, length-snoc p.allows domain);
        bounded = omega (arith, h.bounded);
        samples = h.samples;
      })
accept-IsCounted false domain p h =
    if_ind IsCounted (contains domain p.blocks) (λ _. count_rule-IsCounted p h)
      (λ e. record {
        blocks = add-IsApart domain p.blocks h.blocks e;
        allows = h.allows;
        accepted = ground (arith, h.accepted, length-snoc p.blocks domain);
        exceptions = h.exceptions;
        bounded = omega (arith, h.bounded);
        samples = h.samples;
      })

count_verdicts-IsCounted :
    (line : ℕ) (raw : Text) (vs : List Verdict) (p : Parsed)
    → IsCounted p
    → IsCounted (count_verdicts line raw vs p)
unfolding count_verdicts count_verdict
count_verdicts-IsCounted line raw [] p h = h
count_verdicts-IsCounted line raw (skip ∷ vs) p h = count_verdicts-IsCounted line raw vs p h
count_verdicts-IsCounted line raw (rejected kind reason ∷ vs) p h =
    count_verdicts-IsCounted line raw vs _ (reject-IsCounted line raw kind reason p h)
count_verdicts-IsCounted line raw (accepted action domain ∷ vs) p h =
    count_verdicts-IsCounted line raw vs _ (accept-IsCounted (is_allow action) domain p h)

count_lines-IsCounted :
    (py : Platform) (line : ℕ) (texts : List Text) (p : Parsed)
    → IsCounted p
    → IsCounted (count_lines py line texts p)
unfolding count_lines count_line
count_lines-IsCounted py line [] p h = h
count_lines-IsCounted py line (text ∷ texts) p h = count_lines-IsCounted py (suc line) texts _ (
    if_ind IsCounted (is_passed_over (strip text)) (λ _. h)
      (λ _.
        count_verdicts-IsCounted line (strip text) (parse_source_line py (strip text))
          (count_entry p) (entry h)))
  where
    entry : IsCounted p → IsCounted (count_entry p)
    entry h = record {
      blocks = h.blocks;
      allows = h.allows;
      accepted = h.accepted;
      exceptions = h.exceptions;
      bounded = h.bounded;
      samples = h.samples;
    }

-- The sets and the counts that are returned.
pub record IsBalanced (p : Parsed) : Type 0 where
  pub blocks : IsApart same_domain p.blocks
  pub allows : IsApart same_domain p.allows
  pub unique : p.stats.unique_active_domains ≡ length p.blocks
  pub exceptions : p.stats.exceptions ≡ length p.allows
  pub accepted : p.stats.accepted_domains ≡ p.stats.unique_active_domains + p.stats.exceptions
  pub parsed : p.stats.parsed_rules ≡ p.stats.accepted_domains + p.stats.duplicate_domains
  pub samples :
      length p.stats.rejected_samples
      ≡ up_to_cap (p.stats.invalid_rules + p.stats.unsupported_rules)

-- The blocks and the allows of a source have no domain twice, the counts of unique domains,
-- exceptions, accepted and parsed rules and duplicates fit them, and there is a sample of each
-- rejected entry up to twenty.
pub parse_rule_lines-IsBalanced :
    (py : Platform) (lines : List Text) → IsBalanced (parse_rule_lines py lines)
unfolding parse_rule_lines
parse_rule_lines-IsBalanced py lines = balanced (count_lines py 1 lines empty) (
    count_lines-IsCounted py 1 lines empty (record {
      blocks = tt;
      allows = tt;
      accepted = refl;
      exceptions = refl;
      bounded = omega arith;
      samples = refl;
    }))
  where
    balanced : (p : Parsed) → IsCounted p → IsBalanced (finish p)
    balanced p h = record {
      blocks = h.blocks;
      allows = h.allows;
      unique = refl;
      exceptions = sym h.exceptions;
      accepted = omega (arith, h.accepted, h.exceptions);
      parsed = omega (arith, h.bounded);
      samples = h.samples;
    }
