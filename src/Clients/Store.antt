-- ===== src/Clients/Store.antt =====
-- app/clients.py: the operations on clients, identifiers and access rules. Each takes the text of the
-- present time and begins with `init_db`, which copies the legacy aliases. An operation that raises
-- is rolled back to what `init_db` left, which the next one makes again. What app/importer.py and
-- app/replication.py write in the tables is left out.

pub mod Invariant
pub mod Steps
pub mod Reachable
use alderpoint_dns.Base.{
  ℕ, Text, Bool, true, false, not, ◌&&◌, ◌||◌, Option, none, some, List, [], ◌∷◌, ◌++◌, map, keep,
  any, length, ltb, ◌==◌, teq, if◌then◌else◌,
}
use alderpoint_dns.Base.Results.{error, ok, ◌>>=◌, ◌>>◌, raise_if, or_raise}
use alderpoint_dns.Base.Str.{strip}
use alderpoint_dns.Base.Tables.{fresh_id}
use alderpoint_dns.Platform.{Platform}
use alderpoint_dns.Net.Network.{ip_network, show_network}
use alderpoint_dns.Clients.Types.{
  Kind, clientid, RuleKind, value_of, client, Action, Client, Identifier, AccessRule, Alias,
  Database, Result, ClientsError, name_required, name_long, description_long, client_not_found,
  identifier_taken, identifier_not_found, client_unselected, action_of, kind_of, bad_policy,
  bad_action, bad_kind, rule_exists, rule_not_found, same_kind, same_rule_kind, same_action,
  same_text, same_number,
}
use alderpoint_dns.Clients.Identifiers.{normalize_identifier, validate_clientid, is_blank}

abbrev pub has_client : ℕ → List Client → Bool
has_client k = any (λ (c : Client). c.id == k)

abbrev pub is_identifier : Kind → Text → Identifier → Bool
is_identifier kind value i = same_kind i.kind kind && teq i.value value

-- `first or second`
abbrev or_text : Text → Text → Text
or_text [] second = second
or_text (c ∷ cs) second = c ∷ cs

abbrev pub new_identifier : ℕ → Kind → Text → Text → List Identifier → Identifier
new_identifier client_id kind value ts identifiers = record {
  id = fresh_id (λ (i : Identifier). i.id) identifiers;
  client_id = client_id;
  kind = kind;
  value = value;
  created_at = ts;
}

abbrev pub new_client : Text → Text → Bool → Text → Text → List Client → Client
new_client name description enabled created updated clients = record {
  id = fresh_id (λ (c : Client). c.id) clients;
  name = name;
  description = description;
  enabled = enabled;
  created_at = created;
  updated_at = updated;
}

-- The client and the identifier that one legacy row becomes.
unfoldable pub add_migrated : Text → Alias → Kind × Text → Database → Database
add_migrated now row (kind, value) db =
    let created = or_text row.created_at now in
    let c =
      new_client (or_text row.display_name value) row.description true created
        (or_text row.updated_at created) db.clients in
    if any (is_identifier kind value) db.identifiers then db else record db {
      clients = db.clients ++ c ∷ [];
      identifiers = db.identifiers ++ new_identifier c.id kind value created db.identifiers ∷ [];
    }

unfoldable pub migrate_rows : Platform → Text → List Alias → Database → Database
migrate_rows py now [] db = db
migrate_rows py now (row ∷ rows) db =
    migrate_rows py now rows (elim (normalize_identifier py row.cidr) [
      | error _ ↦ db
      | ok key ↦ add_migrated now row key db
    ])

-- `init_db`, on tables that there are.
unfoldable pub init_db : Platform → Text → Database → Database
init_db py now db = migrate_rows py now db.aliases db

unfoldable pub insert_identifier : ℕ → Kind → Text → Text → Database → Result Database
insert_identifier client_id kind value ts db = do
  raise_if (any (is_identifier kind value) db.identifiers) (identifier_taken value)
  ok (record db {
    identifiers = db.identifiers ++ new_identifier client_id kind value ts db.identifiers ∷ [];
  })

unfoldable pub insert_identifiers : ℕ → List (Kind × Text) → Text → Database → Result Database
insert_identifiers client_id [] ts db = ok db
insert_identifiers client_id ((kind, value) ∷ keys) ts db = do
  db' ← insert_identifier client_id kind value ts db
  insert_identifiers client_id keys ts db'

unfoldable pub normalize_all : Platform → List Text → Result (List (Kind × Text))
normalize_all py [] = ok []
normalize_all py (v ∷ vs) = do
  key ← normalize_identifier py v
  keys ← normalize_all py vs
  ok (key ∷ keys)

unfoldable pub check_names : Text → Text → Result (Unit {0})
check_names name description = do
  raise_if (is_blank name) name_required
  raise_if (ltb 200 (length name)) name_long
  raise_if (ltb 2000 (length description)) description_long

-- Adds the client, then its identifiers.
unfoldable pub insert_client :
    Text → Text → Bool → List (Kind × Text) → Text → Database → Result Database
insert_client name description enabled keys now db =
    let c = new_client name description enabled now now db.clients in
    insert_identifiers c.id keys now (record db { clients = db.clients ++ c ∷ [] })

unfoldable pub create_client :
    Platform → Text → Text → List Text → Bool → Text → Database → Result Database
create_client py name description identifiers enabled now db = do
  check_names (strip name) description
  keys ← normalize_all py identifiers
  insert_client (strip name) description enabled keys now (init_db py now db)

-- UPDATE … WHERE id=?
unfoldable pub change_client : ℕ → (Client → Client) → Database → Database
change_client k change db = record db {
  clients = map (λ (c : Client). if c.id == k then change c else c) db.clients;
}

abbrev pub edited : Text → Text → Bool → Text → Client → Client
edited name description enabled now c = record c {
  name = name;
  description = description;
  enabled = enabled;
  updated_at = now;
}

unfoldable pub update_found : ℕ → (Client → Client) → Database → Result Database
update_found k change db = do
  raise_if (not (has_client k db.clients)) client_not_found
  ok (change_client k change db)

unfoldable pub update_client : Platform → ℕ → Text → Text → Bool → Text → Database → Result Database
update_client py k name description enabled now db = do
  check_names (strip name) description
  update_found k (edited (strip name) description enabled now) (init_db py now db)

abbrev pub switched : Bool → Text → Client → Client
switched enabled now c = record c { enabled = enabled; updated_at = now }

unfoldable pub set_client_enabled : Platform → ℕ → Bool → Text → Database → Result Database
set_client_enabled py k enabled now db = update_found k (switched enabled now) (init_db py now db)

-- `_legacy_alias_cidr`; `none` also for a ClientID.
unfoldable pub legacy_alias_cidr : Kind → Text → Option Text
legacy_alias_cidr clientid value = none
legacy_alias_cidr _ value = elim (ip_network value) [
  | none ↦ none
  | some net ↦ some (show_network net)
]

abbrev pub matches_cidr : Alias → Identifier → Bool
matches_cidr row i = elim (legacy_alias_cidr i.kind i.value) [
  | none ↦ false
  | some cidr ↦ teq row.cidr cidr
]

-- `_delete_legacy_aliases_for_identifiers`
unfoldable pub delete_legacy_aliases : List Identifier → Database → Database
delete_legacy_aliases identifiers db = record db {
  aliases = keep (λ (row : Alias). not (any (matches_cidr row) identifiers)) db.aliases;
}

abbrev pub is_rule_of : ℕ → AccessRule → Bool
is_rule_of k r = elim r.kind [ client ↦ same_number r.client_id (some k) | value_of _ ↦ false ]

abbrev pub is_of : ℕ → Identifier → Bool
is_of k i = i.client_id == k

-- The deletions of `delete_client`, in their order.
unfoldable pub delete_rows : ℕ → Database → Database
unfolding delete_legacy_aliases
delete_rows k db0 =
    let db = delete_legacy_aliases (keep (is_of k) db0.identifiers) db0 in
    record db {
      rules = keep (λ (r : AccessRule). not (is_rule_of k r)) db.rules;
      identifiers = keep (λ (i : Identifier). not (is_of k i)) db.identifiers;
      clients = keep (λ (c : Client). not (c.id == k)) db.clients;
    }

unfoldable pub delete_found : ℕ → Database → Result Database
delete_found k db = do
  raise_if (not (has_client k db.clients)) client_not_found
  ok (delete_rows k db)

unfoldable pub delete_client : Platform → ℕ → Text → Database → Result Database
delete_client py k now db = delete_found k (init_db py now db)

abbrev pub touched : Text → Client → Client
touched now c = record c { updated_at = now }

unfoldable pub attach : ℕ → Kind × Text → Text → Database → Result Database
attach k (kind, value) now db = do
  raise_if (not (has_client k db.clients)) client_not_found
  db' ← insert_identifier k kind value now db
  ok (change_client k (touched now) db')

unfoldable pub add_identifier : Platform → ℕ → Text → Text → Database → Result Database
add_identifier py k raw now db = do
  key ← normalize_identifier py raw
  attach k key now (init_db py now db)

abbrev pub first_of {ℓ} : {A : Type ℓ} → List A → Option A
first_of [] = none
first_of (x ∷ _) = some x

unfoldable pub detach : ℕ → Text → Database → Result Database
unfolding delete_legacy_aliases
detach k now db = do
  row ←
      or_raise (first_of (keep (λ (i : Identifier). i.id == k) db.identifiers)) identifier_not_found
  let db' = delete_legacy_aliases (row ∷ []) db
  ok (
      change_client row.client_id (touched now)
        (record db' { identifiers = keep (λ (i : Identifier). not (i.id == k)) db'.identifiers }))

unfoldable pub remove_identifier : Platform → ℕ → Text → Database → Result Database
remove_identifier py k now db = detach k now (init_db py now db)

unfoldable pub set_default_policy : Platform → Text → Text → Database → Result Database
set_default_policy py policy now db = do
  action ← or_raise (action_of policy) bad_policy
  ok (record (init_db py now db) { default_policy = action; policy_updated_at = now })

abbrev pub is_twin : Action → RuleKind → Option Text → Option ℕ → AccessRule → Bool
is_twin action kind value client_id r =
    (same_action r.action action && same_rule_kind r.kind kind)
    && (same_text r.value value && same_number r.client_id client_id)

unfoldable pub insert_rule :
    Action → RuleKind → Option Text → Option ℕ → Text → Database → Result Database
insert_rule action kind value client_id now db = do
  raise_if (any (is_twin action kind value client_id) db.rules) rule_exists
  ok (record db {
    rules =
        db.rules
        ++ record {
          id = fresh_id (λ (r : AccessRule). r.id) db.rules;
          action = action;
          kind = kind;
          value = value;
          client_id = client_id;
          created_at = now;
        }
          ∷ [];
  })

-- A rule about a client; `0`, as no number, selects none.
unfoldable pub add_client_rule : Action → Option ℕ → Text → Database → Result Database
add_client_rule action none now db = error client_unselected
add_client_rule action (some k) now db = do
  raise_if (k == 0) client_unselected
  raise_if (not (has_client k db.clients)) client_not_found
  insert_rule action client none (some k) now db

-- The kind of an address is read off its value.
unfoldable pub rule_key : Platform → Kind → Text → Result (Kind × Text)
rule_key py clientid value = do v ← validate_clientid py value; ok (clientid, v)
rule_key py _ value = normalize_identifier py value

unfoldable pub add_value_rule : Platform → Action → Kind → Text → Text → Database → Result Database
add_value_rule py action kind value now db = do
  key ← rule_key py kind value
  insert_rule action (value_of key.0) (some key.1) none now db

-- A missing value is read as the empty text.
abbrev pub given : Option Text → Text
given none = []
given (some s) = s

unfoldable pub add_rule_of :
    Platform → Action → RuleKind → Option Text → Option ℕ → Text → Database → Result Database
add_rule_of py action client value client_id now db = add_client_rule action client_id now db
add_rule_of py action (value_of kind) value client_id now db =
    add_value_rule py action kind (given value) now db

unfoldable pub add_access_rule :
    Platform → Text → Text → Option Text → Option ℕ → Text → Database → Result Database
add_access_rule py action kind value client_id now db = do
  a ← or_raise (action_of action) bad_action
  k ← or_raise (kind_of kind) bad_kind
  add_rule_of py a k value client_id now (init_db py now db)

unfoldable pub remove_found : ℕ → Database → Result Database
remove_found k db = do
  raise_if (not (any (λ (r : AccessRule). r.id == k) db.rules)) rule_not_found
  ok (record db { rules = keep (λ (r : AccessRule). not (r.id == k)) db.rules })

unfoldable pub remove_access_rule : Platform → ℕ → Text → Database → Result Database
remove_access_rule py k now db = remove_found k (init_db py now db)
