-- ===== src/Rules/Store/Adding.antt =====
-- What `add_rules_bulk` adds: each rule once, however often it is imported, and as many rows as its
-- summary counts.
use alderpoint_dns.Base.{
  ℕ, ◌+◌, Text, Bool, true, false, Option, some, none, List, [], ◌∷◌, ◌++◌, keep, any, All, ◌≡◌,
  refl, ap, ◌∙◌, if◌then◌else◌, if_ind, arith, teq_refl, length, any-append, All-map,
}
use alderpoint_dns.Base.Str.{strip, split_lines}
use alderpoint_dns.Platform.{Platform}
use alderpoint_dns.Rules.Types.{Action, ParsedRule, Row}
use alderpoint_dns.Rules.Parse.Line.{parse_rule}
use alderpoint_dns.Rules.Store.{
  Insertion, added, duplicate, Report, Summary, first_of, same_action, is_twin, find_duplicate,
  new_row, insert_rule, insert_rules, count_state, count_report, count_reports, is_blank_line,
  add_lines, add_rules_bulk, no_summary,
}

-- Whether the table holds a rule with this normal form and action.
abbrev pub holds : List Row → ParsedRule → Bool
holds t rule = any (is_twin rule.normalized rule.action) t

first_of-keep : (p : Row → Bool) (t : List Row) → first_of (keep p t) ≡ none → any p t ≡ false
unfolding keep any
first_of-keep p [] h = refl
first_of-keep p (r ∷ rows) h = ground (arith, first_of-keep p rows)

find_duplicate-none :
    (rule : ParsedRule) (t : List Row)
    → find_duplicate rule.normalized rule.action t ≡ none
    → holds t rule ≡ false
unfolding find_duplicate
find_duplicate-none rule t h = first_of-keep (is_twin rule.normalized rule.action) t h

first_of-keep-some :
    (p : Row → Bool) (t : List Row) (x : Row) → first_of (keep p t) ≡ some x → any p t ≡ true
unfolding keep any
first_of-keep-some p [] x h = ground (arith, h)
first_of-keep-some p (r ∷ rows) x h = ground (arith, h, first_of-keep-some p rows x)

find_duplicate-some :
    (rule : ParsedRule) (t : List Row) (x : Row)
    → find_duplicate rule.normalized rule.action t ≡ some x
    → holds t rule ≡ true
unfolding find_duplicate
find_duplicate-some rule t x h = first_of-keep-some (is_twin rule.normalized rule.action) t x h

same_action_refl : (a : Action) → same_action a a ≡ true
same_action_refl a = ground arith

abbrev is_new : Report → ℕ
is_new report = elim report.status [ added ↦ 1 | duplicate ↦ 0 ]

module _ (given : Insertion) where
  -- What one insertion does to a table.
  pub record Inserted (t : List Row) (rule : ParsedRule) : Type 0 where
    pub has : holds (insert_rule given t rule).0 rule ≡ true
    pub keeps : (q : Row → Bool) → any q t ≡ true → any q (insert_rule given t rule).0 ≡ true
    pub absorbs : holds t rule ≡ true → (insert_rule given t rule).0 ≡ t
    pub grows : length (insert_rule given t rule).0 ≡ length t + is_new (insert_rule given t rule).1

  length-append_one : (t : List Row) (r : Row) → length (t ++ r ∷ []) ≡ length t + 1
  length-append_one [] r = refl
  length-append_one (x ∷ t) r = omega (arith, length-append_one t r)

  insert_rule-Inserted : (t : List Row) (rule : ParsedRule) → Inserted t rule
  unfolding insert_rule any
  insert_rule-Inserted t rule = go (find_duplicate rule.normalized rule.action t) refl
    where
      go : (o : Option Row) → find_duplicate rule.normalized rule.action t ≡ o → Inserted t rule
      go (some x) e = record {
        has = rw (e, insert_rule) (find_duplicate-some rule t x e);
        keeps = λ q h. rw (e, insert_rule) h;
        absorbs = λ h. rw (e, insert_rule) refl;
        grows = rw (e, insert_rule) (omega arith);
      }
      go none e = record {
        has =
            rw (e, insert_rule)
              (rw
                (
                  any-append (is_twin rule.normalized rule.action) t (new_row given t rule ∷ []),
                  teq_refl rule.normalized,
                  same_action_refl rule.action,
                )
                (ground arith));
        keeps = λ q h.
            rw (e, insert_rule)
              (rw (any-append q t (new_row given t rule ∷ [])) (ground (arith, h)));
        absorbs = λ h. ground (arith, h, find_duplicate-none rule t e);
        grows = rw (e, insert_rule) (length-append_one t (new_row given t rule));
      }

  insert_rules-keeps :
      (t : List Row) (rules : List ParsedRule) (q : Row → Bool)
      → any q t ≡ true
      → any q (insert_rules given t rules).0 ≡ true
  unfolding insert_rules
  insert_rules-keeps t [] q h = h
  insert_rules-keeps t (rule ∷ rules) q h =
      insert_rules-keeps (insert_rule given t rule).0 rules q
        ((insert_rule-Inserted t rule).keeps q h)

  pub insert_rules-has :
      (t : List Row) (rules : List ParsedRule)
      → All (λ rule. holds (insert_rules given t rules).0 rule ≡ true) rules
  unfolding insert_rules
  insert_rules-has t [] = tt
  insert_rules-has t (rule ∷ rules) = (
    insert_rules-keeps (insert_rule given t rule).0 rules (is_twin rule.normalized rule.action)
        (insert_rule-Inserted t rule).has,
    insert_rules-has (insert_rule given t rule).0 rules,
  )

  pub insert_rules-absorbs :
      (t : List Row) (rules : List ParsedRule)
      → All (λ rule. holds t rule ≡ true) rules
      → (insert_rules given t rules).0 ≡ t
  unfolding insert_rules
  insert_rules-absorbs t [] h = refl
  insert_rules-absorbs t (rule ∷ rules) h =
      ap (λ t'. (insert_rules given t' rules).0) ((insert_rule-Inserted t rule).absorbs h.0)
      ∙ insert_rules-absorbs t rules h.1

  abbrev new_reports : List Report → ℕ
  new_reports [] = 0
  new_reports (report ∷ reports) = is_new report + new_reports reports

  insert_rules-grows :
      (t : List Row) (rules : List ParsedRule)
      → length (insert_rules given t rules).0
        ≡ length t + new_reports (insert_rules given t rules).1
  unfolding insert_rules
  insert_rules-grows t [] = omega arith
  insert_rules-grows t (rule ∷ rules) = omega (
    arith,
    insert_rules-grows (insert_rule given t rule).0 rules,
    (insert_rule-Inserted t rule).grows,
  )

-- The rows that a summary counts.
abbrev pub stored : Summary → ℕ
stored s = s.added_active + (s.added_inactive + (s.invalid + (s.unsupported + s.comments)))

count_report-stored :
    (b : Bool) (report : Report) (s : Summary)
    → stored (count_report b report s) ≡ stored s + is_new report
unfolding count_report count_state
count_report-stored b report s = ground arith

module _ (py : Platform) (given : Insertion) where
  count_reports-stored :
      (b : Bool) (reports : List Report) (s : Summary)
      → stored (count_reports b reports s) ≡ stored s + new_reports given reports
  unfolding count_reports
  count_reports-stored b [] s = omega arith
  count_reports-stored b (report ∷ reports) s = omega (
    arith,
    count_reports-stored b reports (count_report b report s),
    count_report-stored b report s,
  )

  abbrev pub line_rules : Text → List ParsedRule
  line_rules line = parse_rule py given.plain line

  -- The state after one line.
  abbrev pub one_line : ℕ → Text → List Row × Summary → List Row × Summary
  one_line i line (t, s) = if is_blank_line (strip line) then (t, s) else (
    (insert_rules given t (line_rules line)).0,
    count_reports given.enabled (insert_rules given t (line_rules line)).1 (record s {
      lines = s.lines ++ (i, strip line, (insert_rules given t (line_rules line)).1) ∷ [];
    }),
  )

  one_line-grows :
      (i : ℕ) (line : Text) (state : List Row × Summary)
      → length (one_line i line state).0 + stored state.1
        ≡ length state.0 + stored (one_line i line state).1
  one_line-grows i line (t, s) =
      if_ind (λ (x : List Row × Summary). length x.0 + stored s ≡ length t + stored x.1)
        (is_blank_line (strip line)) (λ _. refl)
        (λ _. omega (
          arith,
          insert_rules-grows given t (line_rules line),
          count_reports-stored given.enabled (insert_rules given t (line_rules line)).1 (record s {
            lines = s.lines ++ (i, strip line, (insert_rules given t (line_rules line)).1) ∷ [];
          }),
        ))

  add_lines-grows :
      (i : ℕ) (lines : List Text) (state : List Row × Summary)
      → length (add_lines py given i lines state).0 + stored state.1
        ≡ length state.0 + stored (add_lines py given i lines state).1
  unfolding add_lines
  add_lines-grows i [] state = refl
  add_lines-grows i (line ∷ lines) state =
      omega
        (arith, add_lines-grows (i + 1) lines (one_line i line state), one_line-grows i line state)

  -- The table grows by as many rows as the summary counts as active, inactive, invalid, unsupported
  -- and comments.
  pub add_rules_bulk-stored :
      (text : Text) (t : List Row)
      → length (add_rules_bulk py given text t).0
        ≡ length t + stored (add_rules_bulk py given text t).1
  unfolding add_rules_bulk
  add_rules_bulk-stored text t = omega (arith, add_lines-grows 1 (split_lines text) (t, no_summary))

  add_lines-keeps :
      (q : Row → Bool) (i : ℕ) (lines : List Text) (state : List Row × Summary)
      → any q state.0 ≡ true
      → any q (add_lines py given i lines state).0 ≡ true
  unfolding add_lines
  add_lines-keeps q i [] state h = h
  add_lines-keeps q i (line ∷ lines) (t, s) h =
      add_lines-keeps q (i + 1) lines (one_line i line (t, s)) (
        if_ind (λ (x : List Row × Summary). any q x.0 ≡ true) (is_blank_line (strip line)) (λ _. h)
          (λ _. insert_rules-keeps given t (line_rules line) q h))

  -- Every rule of a line that is not blank stands in the table.
  abbrev pub Holds : List Row → Text → Type 0
  Holds t line =
      is_blank_line (strip line) ≡ false
      → All (λ rule. holds t rule ≡ true) (parse_rule py given.plain line)

  pub add_lines-Holds :
      (i : ℕ) (lines : List Text) (state : List Row × Summary)
      → All (Holds (add_lines py given i lines state).0) lines
  unfolding add_lines
  add_lines-Holds i [] state = tt
  add_lines-Holds i (line ∷ lines) (t, s) = (
    λ blank.
        All-map
          (λ (rule : ParsedRule) h.
            add_lines-keeps (is_twin rule.normalized rule.action) (i + 1) lines
              (one_line i line (t, s)) (rw blank h))
          (line_rules line) (insert_rules-has given t (line_rules line)),
    add_lines-Holds (i + 1) lines (one_line i line (t, s)),
  )
