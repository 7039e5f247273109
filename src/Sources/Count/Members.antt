-- ===== src/Sources/Count/Members.antt =====
-- The sets of a source hold what its lines say, and names only.
use alderpoint_dns.Base.{
  ℕ, suc, Text, Bool, true, false, not, ◌&&◌, ◌||◌, Option, none, some, List, [], ◌∷◌, ◌++◌, any,
  any-append, All, if_ind, ◌≡◌, refl, ◌∙◌, arith, teq_iff,
}
use alderpoint_dns.Base.Str.{strip}
use alderpoint_dns.Base.Tables.{All-snoc}
use alderpoint_dns.Platform.{Platform}
use alderpoint_dns.Sources.Types.{Verdict, skip, rejected, accepted, same_domain, Domains}
use alderpoint_dns.Sources.Line.{parse_source_line}
use alderpoint_dns.Sources.Line.Names.{is_name, IsNamed, parse_source_line-IsNamed}
use alderpoint_dns.Sources.Count.{
  Parsed, contains, is_allow, add_domain, accept, count_verdict, count_verdicts, is_passed_over,
  count_entry, count_line, count_lines, empty, finish, parse_rule_lines,
}

abbrev pub set_of : Bool → Parsed → Domains
set_of true p = p.allows
set_of false p = p.blocks

abbrev same_side : Bool → Bool → Bool
same_side true b = b
same_side false b = not b

-- A result that puts a domain in the set of allows or of blocks.
abbrev pub puts : Bool → Option Text → Verdict → Bool
puts allow domain skip = false
puts allow domain (rejected _ _) = false
puts allow domain (accepted action d) = same_side allow (is_allow action) && same_domain domain d

-- Some line that is not passed over has a result of a kind.
unfoldable pub some_line : Platform → (Verdict → Bool) → List Text → Bool
some_line py p [] = false
some_line py p (text ∷ texts) =
    (not (is_passed_over (strip text)) && any p (parse_source_line py (strip text)))
    || some_line py p texts

same_domain_trans :
    (d e f : Option Text) → same_domain d e ≡ true → same_domain e f ≡ same_domain d f
same_domain_trans none none f h = refl
same_domain_trans (some d) (some e) none h = refl
same_domain_trans (some d) (some e) (some f) h =
    ground (arith, teq_iff d e, teq_iff e f, teq_iff d f, h)
same_domain_trans none (some e) f h = ground (arith, h)
same_domain_trans (some d) none f h = ground (arith, h)

pub contains_same :
    (d e : Option Text) (domains : Domains)
    → same_domain d e ≡ true
    → contains e domains ≡ contains d domains
unfolding contains any
contains_same d e [] h = refl
contains_same d e (f ∷ domains) h = rw (same_domain_trans d e f h, contains_same d e domains h) refl

pub contains-snoc :
    (d e : Option Text) (domains : Domains)
    → contains d (domains ++ e ∷ []) ≡ (contains d domains || same_domain d e)
unfolding contains any
contains-snoc d e domains = any-append (same_domain d) domains (e ∷ []) ∙ ground arith

contains-accept :
    (allow side : Bool) (d e : Option Text) (p : Parsed)
    → contains d (set_of side (accept allow e p))
      ≡ (contains d (set_of side p) || (same_side side allow && same_domain d e))
unfolding accept add_domain
contains-accept true true d e p =
    ground (arith, contains-snoc d e p.allows, contains_same d e p.allows)
contains-accept true false d e p = ground arith
contains-accept false true d e p = ground arith
contains-accept false false d e p =
    ground (arith, contains-snoc d e p.blocks, contains_same d e p.blocks)

contains-count_verdicts :
    (side : Bool) (d : Option Text) (line : ℕ) (raw : Text) (vs : List Verdict) (p : Parsed)
    → contains d (set_of side (count_verdicts line raw vs p))
      ≡ (contains d (set_of side p) || any (puts side d) vs)
unfolding count_verdicts count_verdict any
contains-count_verdicts side d line raw [] p = ground arith
contains-count_verdicts side d line raw (skip ∷ vs) p = contains-count_verdicts side d line raw vs p
contains-count_verdicts true d line raw (rejected kind reason ∷ vs) p =
    contains-count_verdicts true d line raw vs _
contains-count_verdicts false d line raw (rejected kind reason ∷ vs) p =
    contains-count_verdicts false d line raw vs _
contains-count_verdicts side d line raw (accepted action e ∷ vs) p =
    contains-count_verdicts side d line raw vs (accept (is_allow action) e p)
    ∙ ground (arith, contains-accept (is_allow action) side d e p)

contains-count_line :
    (py : Platform) (side : Bool) (d : Option Text) (line : ℕ) (raw : Text) (p : Parsed)
    → contains d (set_of side (count_line py line raw p)) ≡ (
        contains d (set_of side p)
        || (not (is_passed_over raw) && any (puts side d) (parse_source_line py raw)))
unfolding count_line
contains-count_line py true d line raw p =
    ground
      (arith, contains-count_verdicts true d line raw (parse_source_line py raw) (count_entry p))
contains-count_line py false d line raw p =
    ground
      (arith, contains-count_verdicts false d line raw (parse_source_line py raw) (count_entry p))

contains-count_lines :
    (py : Platform) (side : Bool) (d : Option Text) (line : ℕ) (texts : List Text) (p : Parsed)
    → contains d (set_of side (count_lines py line texts p))
      ≡ (contains d (set_of side p) || some_line py (puts side d) texts)
unfolding count_lines some_line
contains-count_lines py side d line [] p = ground arith
contains-count_lines py side d line (text ∷ texts) p =
    contains-count_lines py side d (suc line) texts (count_line py line (strip text) p)
    ∙ ground (arith, contains-count_line py side d line (strip text) p)

-- A domain is in a set if and only if some line puts it there.
pub contains-parse_rule_lines :
    (py : Platform) (side : Bool) (d : Option Text) (lines : List Text)
    → contains d (set_of side (parse_rule_lines py lines)) ≡ some_line py (puts side d) lines
unfolding parse_rule_lines contains any
contains-parse_rule_lines py true d lines = contains-count_lines py true d 1 lines empty
contains-parse_rule_lines py false d lines = contains-count_lines py false d 1 lines empty

-- Both sets hold names only.
pub record HasNames (p : Parsed) : Type 0 where
  pub blocks : All (λ d. is_name d ≡ true) p.blocks
  pub allows : All (λ d. is_name d ≡ true) p.allows

accept-HasNames :
    (allow : Bool) (d : Option Text) (p : Parsed)
    → is_name d ≡ true
    → HasNames p
    → HasNames (accept allow d p)
unfolding accept add_domain
accept-HasNames true d p e h =
    if_ind HasNames (contains d p.allows) (λ _. record { blocks = h.blocks; allows = h.allows })
      (λ _. record { blocks = h.blocks; allows = All-snoc _ p.allows d h.allows e })
accept-HasNames false d p e h =
    if_ind HasNames (contains d p.blocks) (λ _. record { blocks = h.blocks; allows = h.allows })
      (λ _. record { blocks = All-snoc _ p.blocks d h.blocks e; allows = h.allows })

count_verdicts-HasNames :
    (line : ℕ) (raw : Text) (vs : List Verdict) (p : Parsed)
    → All IsNamed vs
    → HasNames p
    → HasNames (count_verdicts line raw vs p)
unfolding count_verdicts count_verdict
count_verdicts-HasNames line raw [] p n h = h
count_verdicts-HasNames line raw (skip ∷ vs) p n h = count_verdicts-HasNames line raw vs p n.1 h
count_verdicts-HasNames line raw (rejected kind reason ∷ vs) p n h =
    count_verdicts-HasNames line raw vs _ n.1 (record { blocks = h.blocks; allows = h.allows })
count_verdicts-HasNames line raw (accepted action d ∷ vs) p n h =
    count_verdicts-HasNames line raw vs _ n.1 (accept-HasNames (is_allow action) d p n.0.1 h)

count_lines-HasNames :
    (py : Platform) (line : ℕ) (texts : List Text) (p : Parsed)
    → HasNames p
    → HasNames (count_lines py line texts p)
unfolding count_lines count_line
count_lines-HasNames py line [] p h = h
count_lines-HasNames py line (text ∷ texts) p h = count_lines-HasNames py (suc line) texts _ (
    if_ind HasNames (is_passed_over (strip text)) (λ _. h)
      (λ _.
        count_verdicts-HasNames line (strip text) (parse_source_line py (strip text))
          (count_entry p) (parse_source_line-IsNamed py (strip text))
          (record { blocks = h.blocks; allows = h.allows })))

-- Every domain that a source blocks or allows, by the fast path, the hosts format or the shared
-- parser, matches DOMAIN_RE.
pub parse_rule_lines-HasNames :
    (py : Platform) (lines : List Text) → HasNames (parse_rule_lines py lines)
unfolding parse_rule_lines
parse_rule_lines-HasNames py lines =
    finished (count_lines py 1 lines empty)
      (count_lines-HasNames py 1 lines empty (record { blocks = tt; allows = tt }))
  where
    finished : (p : Parsed) → HasNames p → HasNames (finish p)
    finished p h = record { blocks = h.blocks; allows = h.allows }
