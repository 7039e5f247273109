-- ===== src/Clients/Store/Reachable.antt =====
-- The databases that operations make.
use alderpoint_dns.Base.{ℕ, Text, Bool, Option, List, [], ◌≡◌, refl, sym, subst}
use alderpoint_dns.Base.Results.{Result, ok, or_raise, Returns, Returns-bind}
use alderpoint_dns.Platform.{Platform}
use alderpoint_dns.Clients.Types.{
  Action, Database, ClientsError, action_of, kind_of, bad_action, bad_kind, bad_policy,
}
use alderpoint_dns.Base.Str.{strip}
use alderpoint_dns.Clients.Identifiers.{normalize_identifier}
use alderpoint_dns.Clients.Store.{
  init_db, edited, switched, check_names, normalize_all, create_client, update_client,
  set_client_enabled, delete_client, add_identifier, remove_identifier, set_default_policy,
  add_access_rule, remove_access_rule,
}
use alderpoint_dns.Clients.Store.Invariant.{IsGood, init_db-IsGood}
use alderpoint_dns.Clients.Store.Steps.{
  Kept, insert_client-Kept, update_found-Kept, delete_found-Kept, attach-Kept, detach-Kept,
  add_rule_of-Kept, remove_found-Kept,
}

-- What an operation returns.
pub data Operation : Type 0 where
  creates : (name description : Text) → (identifiers : List Text) → (enabled : Bool) → Operation
  updates : ℕ → (name description : Text) → Bool → Operation
  switches : ℕ → Bool → Operation
  deletes : ℕ → Operation
  adds_identifier : ℕ → Text → Operation
  removes_identifier : ℕ → Operation
  sets_policy : Text → Operation
  adds_rule : (action kind : Text) → Option Text → Option ℕ → Operation
  removes_rule : ℕ → Operation

module _ (py : Platform) where
  unfoldable pub run : Operation → Text → Database → Result ClientsError Database
  run (creates name description identifiers enabled) now db =
      create_client py name description identifiers enabled now db
  run (updates k name description enabled) now db =
      update_client py k name description enabled now db
  run (switches k enabled) now db = set_client_enabled py k enabled now db
  run (deletes k) now db = delete_client py k now db
  run (adds_identifier k raw) now db = add_identifier py k raw now db
  run (removes_identifier k) now db = remove_identifier py k now db
  run (sets_policy policy) now db = set_default_policy py policy now db
  run (adds_rule action kind value k) now db = add_access_rule py action kind value k now db
  run (removes_rule k) now db = remove_access_rule py k now db

  create_client-Kept :
      (name description : Text) (identifiers : List Text) (enabled : Bool) (now : Text)
      (db : Database)
      → IsGood db
      → Kept (create_client py name description identifiers enabled now db)
  unfolding create_client
  create_client-Kept name description identifiers enabled now db good =
      Returns-bind IsGood (check_names (strip name) description) _ (λ _ _.
        Returns-bind IsGood (normalize_all py identifiers) _ (λ keys _.
          insert_client-Kept (strip name) description enabled keys now (init_db py now db)
            (init_db-IsGood py now db good)))

  update_client-Kept :
      (k : ℕ) (name description : Text) (enabled : Bool) (now : Text) (db : Database)
      → IsGood db
      → Kept (update_client py k name description enabled now db)
  unfolding update_client
  update_client-Kept k name description enabled now db good =
      Returns-bind IsGood (check_names (strip name) description) _ (λ _ _.
        update_found-Kept k (edited (strip name) description enabled now) (init_db py now db)
          (λ _. refl) (init_db-IsGood py now db good))

  set_default_policy-Kept :
      (policy now : Text) (db : Database) → IsGood db → Kept (set_default_policy py policy now db)
  unfolding set_default_policy
  set_default_policy-Kept policy now db good =
      Returns-bind IsGood (or_raise (action_of policy) bad_policy) _
        (λ a _. set a (init_db-IsGood py now db good))
    where
      set :
          {d : Database} (a : Action)
          → IsGood d
          → IsGood (record d { default_policy = a; policy_updated_at = now })
      set a good = record {
        client_ids = good.client_ids;
        identifier_ids = good.identifier_ids;
        keys = good.keys;
        owned = good.owned;
        rule_ids = good.rule_ids;
        rules_apart = good.rules_apart;
        rules_fit = good.rules_fit;
      }

  add_access_rule-Kept :
      (action kind : Text) (value : Option Text) (k : Option ℕ) (now : Text) (db : Database)
      → IsGood db
      → Kept (add_access_rule py action kind value k now db)
  unfolding add_access_rule
  add_access_rule-Kept action kind value k now db good =
      Returns-bind IsGood (or_raise (action_of action) bad_action) _ (λ a _.
        Returns-bind IsGood (or_raise (kind_of kind) bad_kind) _ (λ kd _.
          add_rule_of-Kept py a kd value k now (init_db py now db) (init_db-IsGood py now db good)))

  add_identifier-Kept :
      (k : ℕ) (raw now : Text) (db : Database) → IsGood db → Kept (add_identifier py k raw now db)
  unfolding add_identifier
  add_identifier-Kept k raw now db good =
      Returns-bind IsGood (normalize_identifier py raw) _
        (λ key _. attach-Kept k key now (init_db py now db) (init_db-IsGood py now db good))

  pub run-Kept : (op : Operation) (now : Text) (db : Database) → IsGood db → Kept (run op now db)
  unfolding run set_client_enabled delete_client remove_identifier remove_access_rule
  run-Kept (creates name description identifiers enabled) now db good =
      create_client-Kept name description identifiers enabled now db good
  run-Kept (updates k name description enabled) now db good =
      update_client-Kept k name description enabled now db good
  run-Kept (switches k enabled) now db good =
      update_found-Kept k (switched enabled now) (init_db py now db) (λ _. refl)
        (init_db-IsGood py now db good)
  run-Kept (deletes k) now db good =
      delete_found-Kept k (init_db py now db) (init_db-IsGood py now db good)
  run-Kept (adds_identifier k raw) now db good = add_identifier-Kept k raw now db good
  run-Kept (removes_identifier k) now db good =
      detach-Kept k now (init_db py now db) (init_db-IsGood py now db good)
  run-Kept (sets_policy policy) now db good = set_default_policy-Kept policy now db good
  run-Kept (adds_rule action kind value k) now db good =
      add_access_rule-Kept action kind value k now db good
  run-Kept (removes_rule k) now db good =
      remove_found-Kept k (init_db py now db) (init_db-IsGood py now db good)

  -- The databases that operations make of a new one, which may hold legacy aliases.
  pub data Reachable : Database → Type 0 where
    fresh : (db : Database) → db.clients ≡ [] → db.identifiers ≡ [] → db.rules ≡ [] → Reachable db
    after :
        (op : Operation) (now : Text) (db db' : Database)
        → Reachable db
        → run op now db ≡ ok db'
        → Reachable db'

  fresh-IsGood : (db : Database) → db.clients ≡ [] → db.identifiers ≡ [] → db.rules ≡ [] → IsGood db
  fresh-IsGood db c i r =
      subst (λ x. IsGood (record db { clients = x })) (sym c)
        (subst (λ x. IsGood (record db { clients = []; identifiers = x })) (sym i)
          (subst (λ x. IsGood (record db { clients = []; identifiers = []; rules = x })) (sym r)
            (record {
              client_ids = tt;
              identifier_ids = tt;
              keys = tt;
              owned = tt;
              rule_ids = tt;
              rules_apart = tt;
              rules_fit = tt;
            })))

  -- In every database that operations make of a new one, the ids of each table are distinct, no
  -- identifier and no access rule stands twice, every identifier belongs to a client that there
  -- is, and every access rule is about such a client or has a value of its own.
  pub Reachable-IsGood : (db : Database) → Reachable db → IsGood db
  Reachable-IsGood db (fresh _ c i r) = fresh-IsGood db c i r
  Reachable-IsGood db (after op now before _ r e) =
      subst (Returns IsGood) e (run-Kept op now before (Reachable-IsGood before r))
