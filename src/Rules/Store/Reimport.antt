-- ===== src/Rules/Store/Reimport.antt =====
-- Importing the same text a second time.
use alderpoint_dns.Base.{
  ℕ, ◌+◌, Text, Bool, true, false, List, [], ◌∷◌, All, ◌≡◌, refl, sym, ◌∙◌, subst, Bool-cases, inl,
  inr,
}
use alderpoint_dns.Base.Str.{strip, split_lines}
use alderpoint_dns.Platform.{Platform}
use alderpoint_dns.Rules.Types.{Row}
use alderpoint_dns.Rules.Parse.Line.{parse_rule}
use alderpoint_dns.Rules.Store.{
  Insertion, Summary, is_blank_line, add_lines, add_rules_bulk, no_summary,
}
use alderpoint_dns.Rules.Store.Adding.{
  holds, insert_rules-absorbs, Holds, one_line, add_lines-Holds,
}

module _ (py : Platform) (given : Insertion) where
  one_line-absorbs :
      (i : ℕ) (line : Text) (t : List Row) (s : Summary)
      → Holds py given t line
      → (one_line py given i line (t, s)).0 ≡ t
  one_line-absorbs i line t s h = elim (Bool-cases (is_blank_line (strip line))) [
    | inl e ↦ rw e refl
    | inr e ↦ rw e (insert_rules-absorbs given t (parse_rule py given.plain line) (h e))
  ]

  add_lines-absorbs :
      (t : List Row) (i : ℕ) (lines : List Text) (state : List Row × Summary)
      → state.0 ≡ t
      → All (Holds py given t) lines
      → (add_lines py given i lines state).0 ≡ t
  unfolding add_lines
  add_lines-absorbs t i [] state e h = e
  add_lines-absorbs t i (line ∷ lines) (t', s) e h =
      add_lines-absorbs t (i + 1) lines (one_line py given i line (t', s))
        (one_line-absorbs i line t' s (subst (λ x. Holds py given x line) (sym e) h.0) ∙ e) h.1

-- With one reading of plain domains, the table is the same after a second import of a text as after
-- the first, whatever source, comment, state and time the second gives.
pub add_rules_bulk_again :
    (py : Platform) (given again : Insertion) (text : Text) (t : List Row)
    → again.plain ≡ given.plain
    → (add_rules_bulk py again text (add_rules_bulk py given text t).0).0
      ≡ (add_rules_bulk py given text t).0
unfolding add_rules_bulk
add_rules_bulk_again py given again text t same =
    add_lines-absorbs py again after 1 (split_lines text) (after, no_summary) refl
      (subst
        (λ (b : Bool).
          All
            (λ line.
              is_blank_line (strip line) ≡ false
              → All (λ rule. holds after rule ≡ true) (parse_rule py b line))
            (split_lines text))
        (sym same) (add_lines-Holds py given 1 (split_lines text) (t, no_summary)))
  where
    after : List Row
    after = (add_lines py given 1 (split_lines text) (t, no_summary)).0
