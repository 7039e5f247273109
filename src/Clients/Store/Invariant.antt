-- ===== src/Clients/Store/Invariant.antt =====
-- What every operation keeps: rows are apart, and references point at rows that there are.
use alderpoint_dns.Base.{
  ℕ, Text, Bool, true, false, Option, none, some, List, [], ◌∷◌, ◌++◌, any, All, All-map,
  any-append, ◌==◌, ◌≡◌, ◌∙◌, arith, Bool-cases, inl, inr,
}
use alderpoint_dns.Base.Results.{Result, error, ok}
use alderpoint_dns.Base.Tables.{fresh_id_ne, IsApart, All-snoc, snoc-IsApart, any-none}
use alderpoint_dns.Platform.{Platform}
use alderpoint_dns.Clients.Types.{
  Kind, RuleKind, value_of, client, Client, Identifier, AccessRule, Alias, Database, ClientsError,
}
use alderpoint_dns.Clients.Identifiers.{normalize_identifier}
use alderpoint_dns.Clients.Store.{
  has_client, is_identifier, new_identifier, new_client, add_migrated, migrate_rows, init_db,
  is_twin,
}

abbrev pub same_client : Client → Client → Bool
same_client c d = c.id == d.id

abbrev pub same_id : Identifier → Identifier → Bool
same_id i j = i.id == j.id

abbrev pub same_key : Identifier → Identifier → Bool
same_key i j = is_identifier j.kind j.value i

abbrev pub same_rule_id : AccessRule → AccessRule → Bool
same_rule_id r s = r.id == s.id

abbrev pub same_rule : AccessRule → AccessRule → Bool
same_rule r s = is_twin s.action s.kind s.value s.client_id r

-- A rule about a client names one that there is and has no value; any other has a value alone.
abbrev pub fits : List Client → RuleKind → Option Text → Option ℕ → Bool
fits clients client none (some k) = has_client k clients
fits clients (value_of kind) (some value) none = true
fits clients _ _ _ = false

abbrev pub rule_fits : List Client → AccessRule → Bool
rule_fits clients r = fits clients r.kind r.value r.client_id

abbrev pub is_owned : List Client → Identifier → Bool
is_owned clients i = has_client i.client_id clients

pub record IsGood (db : Database) : Type 0 where
  pub client_ids : IsApart same_client db.clients
  pub identifier_ids : IsApart same_id db.identifiers
  pub keys : IsApart same_key db.identifiers
  pub owned : All (λ i. is_owned db.clients i ≡ true) db.identifiers
  pub rule_ids : IsApart same_rule_id db.rules
  pub rules_apart : IsApart same_rule db.rules
  pub rules_fit : All (λ r. rule_fits db.clients r ≡ true) db.rules

-- Rows stay owned and fitting when the new clients include the old.
abbrev pub Includes : List Client → List Client → Type 0
Includes old new = (k : ℕ) → has_client k old ≡ true → has_client k new ≡ true

fits-Includes :
    (old new : List Client)
    → Includes old new
    → (kind : RuleKind) (value : Option Text) (o : Option ℕ) → fits old kind value o ≡ true
    → fits new kind value o ≡ true
fits-Includes old new f client none (some k) h = f k h
fits-Includes old new f client none none h = h
fits-Includes old new f client (some v) o h = h
fits-Includes old new f (value_of kind) (some value) none h = h
fits-Includes old new f (value_of kind) (some value) (some k) h = h
fits-Includes old new f (value_of kind) none o h = h

pub with_clients-IsGood :
    (db : Database) (clients : List Client)
    → IsGood db
    → IsApart same_client clients
    → Includes db.clients clients
    → IsGood (record db { clients = clients })
with_clients-IsGood db clients good apart f = record {
  client_ids = apart;
  identifier_ids = good.identifier_ids;
  keys = good.keys;
  owned = All-map (λ i h. f i.client_id h) db.identifiers good.owned;
  rule_ids = good.rule_ids;
  rules_apart = good.rules_apart;
  rules_fit =
      All-map (λ r h. fits-Includes db.clients clients f r.kind r.value r.client_id h) db.rules
        good.rules_fit;
}

pub add_client-IsGood :
    (name description : Text) (enabled : Bool) (created updated : Text) (db : Database)
    → IsGood db
    → IsGood (record db {
      clients = db.clients ++ new_client name description enabled created updated db.clients ∷ [];
    })
add_client-IsGood name description enabled created updated db good =
    with_clients-IsGood db (db.clients ++ c ∷ []) good
      (snoc-IsApart same_client db.clients c good.client_ids
        (fresh_id_ne (λ (d : Client). d.id) db.clients))
      (λ k h. rw (any-append (λ (d : Client). d.id == k) db.clients (c ∷ [])) (ground (arith, h)))
  where
    c : Client
    c = new_client name description enabled created updated db.clients

pub last_client : (clients : List Client) (c : Client) → has_client c.id (clients ++ c ∷ []) ≡ true
unfolding any
last_client clients c = any-append (λ (d : Client). d.id == c.id) clients (c ∷ []) ∙ ground arith

pub snoc_identifier-IsGood :
    (k : ℕ) (kind : Kind) (value ts : Text) (db : Database)
    → has_client k db.clients ≡ true
    → any (is_identifier kind value) db.identifiers ≡ false
    → IsGood db
    → IsGood (record db {
      identifiers = db.identifiers ++ new_identifier k kind value ts db.identifiers ∷ [];
    })
snoc_identifier-IsGood k kind value ts db there new good = record {
  client_ids = good.client_ids;
  identifier_ids =
      snoc-IsApart same_id db.identifiers i good.identifier_ids
        (fresh_id_ne (λ (j : Identifier). j.id) db.identifiers);
  keys =
      snoc-IsApart same_key db.identifiers i good.keys
        (any-none (is_identifier kind value) db.identifiers new);
  owned = All-snoc (λ j. is_owned db.clients j ≡ true) db.identifiers i good.owned there;
  rule_ids = good.rule_ids;
  rules_apart = good.rules_apart;
  rules_fit = good.rules_fit;
}
  where
    i : Identifier
    i = new_identifier k kind value ts db.identifiers

add_migrated-IsGood :
    (now : Text) (row : Alias) (key : Kind × Text) (db : Database)
    → IsGood db
    → IsGood (add_migrated now row key db)
unfolding add_migrated
add_migrated-IsGood now row (kind, value) db good =
    elim (Bool-cases (any (is_identifier kind value) db.identifiers)) [
      | inl e ↦ rw e good
      | inr e ↦ rw e (
          snoc_identifier-IsGood _ kind value _ _ (last_client db.clients _) e
            (add_client-IsGood _ _ _ _ _ db good))
    ]

migrate_rows-IsGood :
    (py : Platform) (now : Text) (rows : List Alias) (db : Database)
    → IsGood db
    → IsGood (migrate_rows py now rows db)
unfolding migrate_rows
migrate_rows-IsGood py now [] db good = good
migrate_rows-IsGood py now (row ∷ rows) db good =
    migrate_rows-IsGood py now rows _ (go (normalize_identifier py row.cidr))
  where
    go :
        (r : Result ClientsError (Kind × Text))
        → IsGood (elim r [ error _ ↦ db | ok key ↦ add_migrated now row key db ])
    go (error e) = good
    go (ok key) = add_migrated-IsGood now row key db good

pub init_db-IsGood :
    (py : Platform) (now : Text) (db : Database) → IsGood db → IsGood (init_db py now db)
unfolding init_db
init_db-IsGood py now db good = migrate_rows-IsGood py now db.aliases db good
