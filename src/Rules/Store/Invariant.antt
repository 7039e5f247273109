-- ===== src/Rules/Store/Invariant.antt =====
-- The states that the table can reach by the operations of app/custom_rules.py and by what other files
-- write in it, and the invariant that these keep.
use alderpoint_dns.Base.{ℕ, Text, Bool, List, [], ◌≡◌, subst}
use alderpoint_dns.Platform.{Platform}
use alderpoint_dns.Base.Str.{split_lines}
use alderpoint_dns.Rules.Types.{Row}
use alderpoint_dns.Rules.Parse.Line.{parse_rule}
use alderpoint_dns.Rules.Store.{
  ok, Insertion, Edit, delete_rule, add_rule, add_rules_bulk, no_summary, set_enabled, toggle_rule,
  bulk_set_enabled, bulk_delete, update_rule,
}
use alderpoint_dns.Rules.Store.Outside.{protection_toggle, rollback_rules}
use alderpoint_dns.Rules.Store.Good.{
  IsGoodTable, GoodResult, insert_rules-Good, add_lines-Good, parse_rule-IsReturned,
  update_rule-Good, set_enabled-Good, toggle_rule-Good, delete_rule-Good, bulk_set_enabled-Good,
  bulk_delete-Good, protection_toggle-Good, rollback_rules-Good,
}

-- One operation that returns, or one write of another file.
pub data Step (py : Platform) : List Row → List Row → Type 0 where
  adds : (given : Insertion) (text : Text) (t : List Row) → Step py t (add_rule py given text t).0
  adds_bulk :
      (given : Insertion) (text : Text) (t : List Row)
      → Step py t (add_rules_bulk py given text t).0
  updates :
      (given : Edit) (k : ℕ) (text : Text) (t t' : List Row)
      → update_rule py given k text t ≡ ok t'
      → Step py t t'
  sets :
      (now : Text) (k : ℕ) (b : Bool) (t t' : List Row)
      → set_enabled now k b t ≡ ok t'
      → Step py t t'
  toggles : (now : Text) (k : ℕ) (t t' : List Row) → toggle_rule now k t ≡ ok t' → Step py t t'
  deletes : (k : ℕ) (t : List Row) → Step py t (delete_rule k t)
  sets_bulk :
      (now : Text) (b : Bool) (ks : List ℕ) (t : List Row)
      → Step py t (bulk_set_enabled now b ks t).0
  deletes_bulk : (ks : List ℕ) (t : List Row) → Step py t (bulk_delete ks t).0
  protects : (b : Bool) (t : List Row) → Step py t (protection_toggle b t)
  rolls_back : (job_id : ℕ) (t : List Row) → Step py t (rollback_rules job_id t)

-- The tables that operations make of the empty one.
pub data Reachable (py : Platform) : List Row → Type 0 where
  start : Reachable py []
  after : (t t' : List Row) → Reachable py t → Step py t t' → Reachable py t'

module _ (py : Platform) where
  -- Every operation that returns keeps the invariant.
  pub Step-IsGoodTable : (t t' : List Row) → Step py t t' → IsGoodTable py t → IsGoodTable py t'
  unfolding add_rule add_rules_bulk
  Step-IsGoodTable _ _ (adds given text t) good =
      insert_rules-Good py given t (parse_rule py given.plain text)
        (parse_rule-IsReturned py given.plain text) good
  Step-IsGoodTable _ _ (adds_bulk given text t) good =
      add_lines-Good py given 1 (split_lines text) (t, no_summary) good
  Step-IsGoodTable _ _ (updates given k text t t' e) good =
      subst (GoodResult py) e (update_rule-Good py given k text t good)
  Step-IsGoodTable _ _ (sets now k b t t' e) good =
      subst (GoodResult py) e (set_enabled-Good py now k b t good)
  Step-IsGoodTable _ _ (toggles now k t t' e) good =
      subst (GoodResult py) e (toggle_rule-Good py now k t good)
  Step-IsGoodTable _ _ (deletes k t) good = delete_rule-Good py k t good
  Step-IsGoodTable _ _ (sets_bulk now b ks t) good = bulk_set_enabled-Good py now b ks t good
  Step-IsGoodTable _ _ (deletes_bulk ks t) good = bulk_delete-Good py ks t good
  Step-IsGoodTable _ _ (protects b t) good = protection_toggle-Good py b t good
  Step-IsGoodTable _ _ (rolls_back job_id t) good = rollback_rules-Good py job_id t good

  -- In every table that the operations of app/custom_rules.py, `protection_toggle` and a rollback of
  -- a migration make of the empty one the ids are distinct, every rule is one that the parser returns
  -- for some text, and only a valid rule is enabled.
  pub Reachable-IsGoodTable : (t : List Row) → Reachable py t → IsGoodTable py t
  Reachable-IsGoodTable _ start = record { rows = tt; distinct = tt }
  Reachable-IsGoodTable _ (after t t' r s) = Step-IsGoodTable t t' s (Reachable-IsGoodTable t r)
