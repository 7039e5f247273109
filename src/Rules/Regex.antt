-- ===== src/Rules/Regex.antt =====
-- app/custom_rules.py: the checks of a regex and the pattern that is deployed. A scan by index is a
-- recursion on the rest of the pattern, in which `skip` counts the characters that the index jumps
-- over.
use alderpoint_dns.Base.{
  ℕ, zero, suc, ◌+◌, ◌%◌, ◌-◌, Text, codes, Bool, true, false, ◌&&◌, ◌||◌, Option, none, some, List,
  [], ◌∷◌, ◌++◌, length, ◌==◌, if◌then◌else◌,
}
use alderpoint_dns.Base.Str.{mem_char, find, ends_with, drop_last, strip_right}
use alderpoint_dns.Platform.{Platform, is_alnum}

-- The characters of a class after its opening, up to and with the closing bracket.
unfoldable pub class_body : Text → Option ℕ
class_body [] = none
class_body (c ∷ []) = if c == 92 then none else if c == 93 then some 1 else none
class_body (c ∷ d ∷ s) =
    let after_escape = class_body s in
    let rest = class_body (d ∷ s) in
    if c == 92
    then elim after_escape [ none ↦ none | some k ↦ some (k + 2) ]
    else if c == 93
    then some 1
    else elim rest [ none ↦ none | some k ↦ some (k + 1) ]

abbrev plus : ℕ → Option ℕ → Option ℕ
plus n none = none
plus n (some k) = some (k + n)

-- A bracket that stands first is a member of the class.
unfoldable pub class_members : Text → Option ℕ
unfolding class_body
class_members [] = none
class_members (c ∷ s) = if c == 93 then plus 1 (class_body s) else class_body (c ∷ s)

-- `_class_end`, from the character after the opening bracket.
unfoldable pub class_end : Text → Option ℕ
unfolding class_members
class_end [] = none
class_end (c ∷ s) = if c == 94 then plus 1 (class_members s) else class_members (c ∷ s)

abbrev starts_question : Text → Bool
starts_question [] = false
starts_question (c ∷ s) = c == 63

module _ (py : Platform) where
  -- The loop of `posix_ere_incompatibility`, with its flag `last_quantifiable`.
  unfoldable pub scan_posix : ℕ → Bool → Text → Option Text
  unfolding class_end
  scan_posix skip last [] = none
  scan_posix (suc skip) last (c ∷ s) = scan_posix skip last s
  scan_posix zero last (c ∷ s) =
      let after_escape = scan_posix 1 false s in
      let after_class = λ (k : ℕ). scan_posix k false s in
      let next = scan_posix 0 (mem_char c (codes "*+?}")) s in
      if c == 92
      then (elim s [
        | [] ↦ some (codes "pattern ends with a trailing backslash")
        | d ∷ _ ↦
            if is_alnum py d
            then some
                (codes "escape sequence \\" ++ d ∷ codes " is not portable to POSIX extended regex")
            else after_escape
      ])
      else if c == 91
      then (elim (class_end s) [
        | none ↦ some (codes "unterminated character class")
        | some k ↦ after_class k
      ])
      else if c == 40 && starts_question s
      then some (codes "group constructs starting with (? are not portable to POSIX extended regex")
      else if c == 63 && last
      then some (codes "non-greedy quantifiers are not portable to POSIX extended regex")
      else next

  unfoldable pub posix_ere_incompatibility : Text → Option Text
  unfolding scan_posix
  posix_ere_incompatibility = scan_posix 0 false

abbrev mark : List Bool → List Bool
mark [] = []
mark (_ ∷ stack) = true ∷ stack

abbrev starts_quantifier : Text → Bool
starts_quantifier [] = false
starts_quantifier (c ∷ s) = mem_char c (codes "*+{")

-- `stack.pop() if len(stack) > 1 else False`; the top of the stack stands first.
abbrev pop_group : List Bool → Bool × List Bool
pop_group [] = (false, [])
pop_group (b ∷ []) = (false, b ∷ [])
pop_group (b ∷ c ∷ stack) = (b, c ∷ stack)

abbrev nested_reason : Text
nested_reason =
    codes
      "pattern contains a quantified atom nested inside a quantified group (catastrophic backtracking risk, e.g. (a+)+)"

-- The loop of `nested_quantifier_risk`.
unfoldable pub scan_nested : ℕ → List Bool → Bool → Text → Option Text
unfolding class_end mem_char find
scan_nested skip stack last [] = none
scan_nested (suc skip) stack last (c ∷ s) = scan_nested skip stack last s
scan_nested zero stack last (c ∷ s) =
    let after_escape = scan_nested 1 stack true s in
    let after_class = λ (k : ℕ). scan_nested k stack true s in
    let opened = scan_nested 0 (false ∷ stack) false s in
    let closed = scan_nested 0 (pop_group stack).1 true s in
    let quantified = scan_nested 0 (if last then mark stack else stack) false s in
    let brace = scan_nested 0 stack false s in
    let repeated = λ (k : ℕ). scan_nested (k + 1) (if last then mark stack else stack) false s in
    let anchor = scan_nested 0 stack false s in
    let next = scan_nested 0 stack true s in
    if c == 92
    then after_escape
    else if c == 91
    then (elim (class_end s) [ none ↦ none | some k ↦ after_class k ])
    else if c == 40
    then opened
    else if c == 41
    then (if starts_quantifier s && (pop_group stack).0 then some nested_reason else closed)
    else if c == 42 || c == 43
    then quantified
    else if c == 123
    then (elim (find 125 s) [ none ↦ brace | some k ↦ repeated k ])
    else if c == 124 || (c == 94 || c == 36)
    then anchor
    else next

unfoldable pub nested_quantifier_risk : Text → Option Text
unfolding scan_nested
nested_quantifier_risk = scan_nested 0 (false ∷ []) false

unfoldable pub deployed_pattern : Text → Text
unfolding ends_with drop_last strip_right
deployed_pattern pattern =
    if ends_with (codes "$") pattern
    then (let body = drop_last pattern in
        if (length body - length (strip_right (λ c. c == 92) body)) % 2 == 0
        then body ++ codes "\\.?$"
        else pattern)
    else pattern
