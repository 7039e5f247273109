-- ===== src/Rules/Store/Good.antt =====
-- Good tables of the custom rules, in which each row holds a rule as the parser returns it, and the
-- operations on such tables.
use alderpoint_dns.Base.{
  ℕ, ◌+◌, Text, codes, Bool, true, false, not, ◌&&◌, Option, some, none, List, [], ◌∷◌, All, ◌≡◌,
  refl, sym, subst, if_ind, Option-cases, inl, inr, arith, All-append,
}
use alderpoint_dns.Platform.{Platform}
use alderpoint_dns.Base.Str.{strip}
use alderpoint_dns.Rules.Types.{ParsedRule, Row, is_valid}
use alderpoint_dns.Rules.Parse.Line.{parse_rule}
use alderpoint_dns.Rules.Parse.Sound.{IsSound}
use alderpoint_dns.Rules.Parse.Sound.Lines.{parse_rule-IsSound}
use alderpoint_dns.Rules.Store.{
  Result, error, ok, Insertion, Edit, Summary, find_duplicate, get_rule, change_row, delete_rule,
  stored_enabled, new_row, insert_rule, insert_rules, add_lines, set_enabled, toggle_rule,
  bulk_set_enabled, bulk_delete, update_rule, replace_rule, edit_row, switch, single, is_blank_line,
}
use alderpoint_dns.Rules.Store.Outside.{
  protect, protection_toggle, rollback_rules, ids-protection_toggle, All-protection_toggle,
}
use alderpoint_dns.Rules.Store.Rows.{
  ids, IsDistinct, keep-IsDistinct, next_id_above, append-IsDistinct, ids-change_row, All-keep,
  All-change_row, All-change_found,
}

-- A rule is one of a list.
pub data IsAmong (r : ParsedRule) : List ParsedRule → Type 0 where
  first : (rules : List ParsedRule) → IsAmong r (r ∷ rules)
  later : (next : ParsedRule) (rules : List ParsedRule) → IsAmong r rules → IsAmong r (next ∷ rules)

-- A rule that the parser returns for some text, as it is.
pub record IsReturned (py : Platform) (r : ParsedRule) : Type 0 where
  pub plain : Bool
  pub text : Text
  pub among : IsAmong r (parse_rule py plain text)
  pub sound : IsSound py r

-- A row holds a rule as the parser returns it, and is enabled only if that rule is valid.
pub record IsGoodRow (py : Platform) (r : Row) : Type 0 where
  pub parsed : IsReturned py r.rule
  pub on : r.enabled ≡ true → is_valid r.validation_state ≡ true

-- The rows are good, and their ids are distinct.
pub record IsGoodTable (py : Platform) (t : List Row) : Type 0 where
  pub rows : All (IsGoodRow py) t
  pub distinct : IsDistinct (ids t)

module _ (py : Platform) where
  abbrev pub Good : List Row → Type 0
  Good = IsGoodTable py

  abbrev pub GoodResult : Result (List Row) → Type 0
  GoodResult (error why) = Unit
  GoodResult (ok t) = Good t

  returned_all :
      (plain : Bool) (text : Text) (rules : List ParsedRule)
      → ((r : ParsedRule) → IsAmong r rules → IsAmong r (parse_rule py plain text))
      → All (IsSound py) rules
      → All (IsReturned py) rules
  returned_all plain text [] inject h = tt
  returned_all plain text (r ∷ rules) inject h = (
    record { plain = plain; text = text; among = inject r (first rules); sound = h.0 },
    returned_all plain text rules (λ q m. inject q (later r rules m)) h.1,
  )

  pub parse_rule-IsReturned :
      (plain : Bool) (text : Text) → All (IsReturned py) (parse_rule py plain text)
  parse_rule-IsReturned plain text =
      returned_all plain text (parse_rule py plain text) (λ r m. m)
        (parse_rule-IsSound py plain text)

  stored_valid :
      (rule : ParsedRule) (b : Bool)
      → stored_enabled rule b ≡ true
      → is_valid rule.validation_state ≡ true
  stored_valid rule b h = ground arith

  insert_rule-Good :
      (given : Insertion) (t : List Row) (rule : ParsedRule)
      → IsReturned py rule
      → Good t
      → Good (insert_rule given t rule).0
  unfolding insert_rule
  insert_rule-Good given t rule sound good =
      elim (Option-cases (find_duplicate rule.normalized rule.action t)) [
        | inr (existing, e) ↦ rw (e, insert_rule) good
        | inl e ↦
            rw (e, insert_rule)
              (record {
                rows =
                    All-append (IsGoodRow py) t (new_row given t rule ∷ []) good.rows
                      (record { parsed = sound; on = stored_valid rule given.enabled }, tt);
                distinct =
                    append-IsDistinct t (new_row given t rule) good.distinct (next_id_above t);
              })
      ]

  pub insert_rules-Good :
      (given : Insertion) (t : List Row) (rules : List ParsedRule)
      → All (IsReturned py) rules
      → Good t
      → Good (insert_rules given t rules).0
  unfolding insert_rules
  insert_rules-Good given t [] sound good = good
  insert_rules-Good given t (rule ∷ rules) sound good =
      insert_rules-Good given (insert_rule given t rule).0 rules sound.1
        (insert_rule-Good given t rule sound.0 good)

  pub add_lines-Good :
      (given : Insertion) (i : ℕ) (lines : List Text) (state : List Row × Summary)
      → Good state.0
      → Good (add_lines py given i lines state).0
  unfolding add_lines
  add_lines-Good given i [] state good = good
  add_lines-Good given i (line ∷ lines) (t, s) good = add_lines-Good given (i + 1) lines _ (
      if_ind (λ (state : List Row × Summary). Good state.0) (is_blank_line (strip line)) (λ _. good)
        (λ _.
          insert_rules-Good given t (parse_rule py given.plain line)
            (parse_rule-IsReturned given.plain line) good))

  changed :
      (k : ℕ) (change : Row → Row) (keeps : (r : Row) → (change r).id ≡ r.id) (t : List Row)
      → IsDistinct (ids t)
      → IsDistinct (ids (change_row k change t))
  changed k change keeps t d = subst IsDistinct (sym (ids-change_row k change keeps t)) d

  edit_row-Good :
      (given : Edit) (rule : ParsedRule) (r : Row)
      → IsReturned py rule
      → IsGoodRow py (edit_row given rule r)
  edit_row-Good given rule r sound = record { parsed = sound; on = λ e. ground (arith, e) }

  replace_rule-Good :
      (given : Edit) (k : ℕ) (rule : ParsedRule) (t : List Row)
      → IsReturned py rule
      → Good t
      → GoodResult (replace_rule given k rule t)
  unfolding replace_rule
  replace_rule-Good given k rule t sound good =
      if_ind GoodResult _ {x = error _} {y = ok (change_row k (edit_row given rule) t)} (λ _. tt)
        (λ _. record {
          rows =
              All-change_row (IsGoodRow py) k (edit_row given rule)
                (λ r _. edit_row-Good given rule r sound) t good.rows;
          distinct = changed k (edit_row given rule) (λ _. refl) t good.distinct;
        })

  pub update_rule-Good :
      (given : Edit) (k : ℕ) (text : Text) (t : List Row)
      → Good t
      → GoodResult (update_rule py given k text t)
  unfolding update_rule
  update_rule-Good given k text t good =
      go (get_rule k t) (parse_rule py given.plain text) (parse_rule-IsReturned given.plain text)
    where
      go :
          (o : Option Row) (rules : List ParsedRule)
          → All (IsReturned py) rules
          → GoodResult (elim o [
            | none ↦ error (codes "rule not found")
            | some row ↦ elim (single rules) [
              | none ↦ error (codes "an edit must contain exactly one rule")
              | some rule ↦ replace_rule given k rule t
            ]
          ])
      go none rules sound = tt
      go (some row) [] sound = tt
      go (some row) (rule ∷ []) sound = replace_rule-Good given k rule t sound.0 good
      go (some row) (rule ∷ next ∷ rules) sound = tt

  switched :
      (now : Text) (b : Bool) (k : ℕ) (row : Row) (t : List Row)
      → get_rule k t ≡ some row
      → (b && not (is_valid row.validation_state)) ≡ false
      → Good t
      → Good (change_row k (switch now b) t)
  switched now b k row t e allowed good = record {
    rows =
        All-change_found (IsGoodRow py) k (switch now b) row t e good.distinct good.rows
          (λ g. record { parsed = g.parsed; on = λ on. ground (arith, allowed, on) });
    distinct = changed k (switch now b) (λ _. refl) t good.distinct;
  }

  pub set_enabled-Good :
      (now : Text) (k : ℕ) (b : Bool) (t : List Row) → Good t → GoodResult (set_enabled now k b t)
  unfolding set_enabled
  set_enabled-Good now k b t good = elim (Option-cases (get_rule k t)) [
    | inl e ↦ rw (e, GoodResult, set_enabled) tt
    | inr (row, e) ↦
        rw (e, GoodResult, set_enabled)
          (if_ind GoodResult (b && not (is_valid row.validation_state)) (λ _. tt)
            (λ allowed. switched now b k row t e allowed good))
  ]

  pub toggle_rule-Good :
      (now : Text) (k : ℕ) (t : List Row) → Good t → GoodResult (toggle_rule now k t)
  unfolding toggle_rule
  toggle_rule-Good now k t good = elim (Option-cases (get_rule k t)) [
    | inl e ↦ rw (e, GoodResult, toggle_rule) tt
    | inr (row, e) ↦
        rw (e, GoodResult, toggle_rule) (set_enabled-Good now k (not row.enabled) t good)
  ]

  pub delete_rule-Good : (k : ℕ) (t : List Row) → Good t → Good (delete_rule k t)
  unfolding delete_rule
  delete_rule-Good k t good = record {
    rows = All-keep (IsGoodRow py) _ t good.rows;
    distinct = keep-IsDistinct _ t good.distinct;
  }

  pub bulk_set_enabled-Good :
      (now : Text) (b : Bool) (ks : List ℕ) (t : List Row)
      → Good t
      → Good (bulk_set_enabled now b ks t).0
  unfolding bulk_set_enabled
  bulk_set_enabled-Good now b [] t good = good
  bulk_set_enabled-Good now b (k ∷ ks) t good = elim (Option-cases (get_rule k t)) [
    | inl e ↦ rw (e, bulk_set_enabled) (bulk_set_enabled-Good now b ks t good)
    | inr (row, e) ↦
        rw (e, bulk_set_enabled)
          (if_ind (λ (x : List Row × ℕ × ℕ). Good x.0) (b && not (is_valid row.validation_state))
            (λ _. bulk_set_enabled-Good now b ks t good)
            (λ allowed.
              bulk_set_enabled-Good now b ks (change_row k (switch now b) t)
                (switched now b k row t e allowed good)))
  ]

  pub bulk_delete-Good : (ks : List ℕ) (t : List Row) → Good t → Good (bulk_delete ks t).0
  unfolding bulk_delete
  bulk_delete-Good [] t good = good
  bulk_delete-Good (k ∷ ks) t good =
      bulk_delete-Good ks (delete_rule k t) (delete_rule-Good k t good)

  protect-IsGoodRow : (b : Bool) (r : Row) → IsGoodRow py r → IsGoodRow py (protect b r)
  protect-IsGoodRow true r good =
      if_ind (IsGoodRow py) (is_valid r.validation_state)
        (λ valid. record { parsed = good.parsed; on = λ _. valid }) (λ _. good)
  protect-IsGoodRow false r good = record { parsed = good.parsed; on = λ on. ground (arith, on) }

  pub protection_toggle-Good : (b : Bool) (t : List Row) → Good t → Good (protection_toggle b t)
  protection_toggle-Good b t good = record {
    rows = All-protection_toggle (IsGoodRow py) b t (protect-IsGoodRow b) good.rows;
    distinct = subst IsDistinct (sym (ids-protection_toggle b t)) good.distinct;
  }

  pub rollback_rules-Good : (job_id : ℕ) (t : List Row) → Good t → Good (rollback_rules job_id t)
  unfolding rollback_rules
  rollback_rules-Good job_id t good = record {
    rows = All-keep (IsGoodRow py) _ t good.rows;
    distinct = keep-IsDistinct _ t good.distinct;
  }
