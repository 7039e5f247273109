-- ===== src/Clients/Store/Steps.antt =====
-- The operations keep the invariant, so every database that they make has it.
use alderpoint_dns.Base.{
  ℕ, Text, Bool, true, false, not, Option, none, some, List, [], ◌∷◌, map, keep, any, ◌==◌,
  if◌then◌else◌, ◌≡◌, refl, ap, ◌∙◌, subst, arith, if_ind,
}
use alderpoint_dns.Base.Results.{
  Result, ok, ◌>>=◌, or_raise, Returns, Returns-bind, Returns-raise_if,
}
use alderpoint_dns.Base.Tables.{
  fresh_id_ne, All-keep, All-keep_if, keep-IsApart, snoc-IsApart, All-snoc, map-IsApart, any-none,
  any-map, any-keep,
}
use alderpoint_dns.Platform.{Platform}
use alderpoint_dns.Clients.Types.{
  Kind, RuleKind, value_of, client, Action, Client, Identifier, AccessRule, Alias, Database,
  ClientsError, same_number, identifier_not_found,
}
use alderpoint_dns.Clients.Store.{
  has_client, is_identifier, insert_identifier, given, insert_identifiers, insert_client,
  change_client, update_found, delete_legacy_aliases, is_rule_of, is_of, delete_rows, delete_found,
  attach, detach, is_twin, insert_rule, add_client_rule, rule_key, add_value_rule, add_rule_of,
  remove_found, touched, first_of,
}
use alderpoint_dns.Clients.Store.Invariant.{
  IsGood, fits, rule_fits, is_owned, same_client, same_id, same_key, same_rule, same_rule_id,
  add_client-IsGood, with_clients-IsGood, snoc_identifier-IsGood, last_client,
}

abbrev pub Kept : Result ClientsError Database → Type 0
Kept = Returns IsGood

-- The result is good and has the same clients.
abbrev Beside : List Client → Database → Type 0
Beside clients db = IsGood db × (db.clients ≡ clients)

insert_identifier-Beside :
    (k : ℕ) (kind : Kind) (value ts : Text) (db : Database)
    → has_client k db.clients ≡ true
    → IsGood db
    → Returns (Beside db.clients) (insert_identifier k kind value ts db)
unfolding insert_identifier
insert_identifier-Beside k kind value ts db there good =
    Returns-raise_if (Beside db.clients) (any (is_identifier kind value) db.identifiers) _ _
      (λ new. (snoc_identifier-IsGood k kind value ts db there new good, refl))

insert_identifiers-Kept :
    (k : ℕ) (keys : List (Kind × Text)) (ts : Text) (db : Database)
    → has_client k db.clients ≡ true
    → IsGood db
    → Kept (insert_identifiers k keys ts db)
unfolding insert_identifiers
insert_identifiers-Kept k [] ts db there good = good
insert_identifiers-Kept k ((kind, value) ∷ keys) ts db there good =
    Returns-bind IsGood (insert_identifier k kind value ts db) (insert_identifiers k keys ts)
      (λ db' e.
        let b =
          subst (Returns (Beside db.clients)) e
            (insert_identifier-Beside k kind value ts db there good) in
        insert_identifiers-Kept k keys ts db' (ap (has_client k) b.1 ∙ there) b.0)

pub insert_client-Kept :
    (name description : Text) (enabled : Bool) (keys : List (Kind × Text)) (now : Text)
    (db : Database)
    → IsGood db
    → Kept (insert_client name description enabled keys now db)
unfolding insert_client
insert_client-Kept name description enabled keys now db good =
    insert_identifiers-Kept _ keys now _ (last_client db.clients _)
      (add_client-IsGood name description enabled now now db good)

change_client-IsGood :
    (k : ℕ) (change : Client → Client) (db : Database)
    → ((c : Client) → (change c).id ≡ c.id)
    → IsGood db
    → IsGood (change_client k change db)
unfolding change_client
change_client-IsGood k change db keeps good =
    with_clients-IsGood db (map at db.clients) good
      (map-IsApart same_client at (λ c d. rw (at_id c, at_id d) refl) db.clients good.client_ids)
      (λ j h. any-map (λ (c : Client). c.id == j) at (λ c. rw (at_id c) refl) db.clients ∙ h)
  where
    at : Client → Client
    at c = if c.id == k then change c else c

    at_id : (c : Client) → (at c).id ≡ c.id
    at_id c =
        if_ind (λ (d : Client). d.id ≡ c.id) (c.id == k) {x = change c} {y = c} (λ _. keeps c)
          (λ _. refl)

pub update_found-Kept :
    (k : ℕ) (change : Client → Client) (db : Database)
    → ((c : Client) → (change c).id ≡ c.id)
    → IsGood db
    → Kept (update_found k change db)
unfolding update_found
update_found-Kept k change db keeps good =
    Returns-raise_if IsGood (not (has_client k db.clients)) _ _
      (λ _. change_client-IsGood k change db keeps good)

with_aliases-IsGood :
    (db : Database) (aliases : List Alias) → IsGood db → IsGood (record db { aliases = aliases })
with_aliases-IsGood db aliases good = record {
  client_ids = good.client_ids;
  identifier_ids = good.identifier_ids;
  keys = good.keys;
  owned = good.owned;
  rule_ids = good.rule_ids;
  rules_apart = good.rules_apart;
  rules_fit = good.rules_fit;
}

with_identifiers-IsGood :
    (p : Identifier → Bool) (db : Database)
    → IsGood db
    → IsGood (record db { identifiers = keep p db.identifiers })
with_identifiers-IsGood p db good = record {
  client_ids = good.client_ids;
  identifier_ids = keep-IsApart same_id p db.identifiers good.identifier_ids;
  keys = keep-IsApart same_key p db.identifiers good.keys;
  owned = All-keep (λ i. is_owned db.clients i ≡ true) p db.identifiers good.owned;
  rule_ids = good.rule_ids;
  rules_apart = good.rules_apart;
  rules_fit = good.rules_fit;
}

with_rules-IsGood :
    (p : AccessRule → Bool) (db : Database)
    → IsGood db
    → IsGood (record db { rules = keep p db.rules })
with_rules-IsGood p db good = record {
  client_ids = good.client_ids;
  identifier_ids = good.identifier_ids;
  keys = good.keys;
  owned = good.owned;
  rule_ids = keep-IsApart same_rule_id p db.rules good.rule_ids;
  rules_apart = keep-IsApart same_rule p db.rules good.rules_apart;
  rules_fit = All-keep (λ r. rule_fits db.clients r ≡ true) p db.rules good.rules_fit;
}

delete_legacy_aliases-IsGood :
    (is : List Identifier) (db : Database) → IsGood db → IsGood (delete_legacy_aliases is db)
unfolding delete_legacy_aliases
delete_legacy_aliases-IsGood is db good = with_aliases-IsGood db _ good

-- Another client is still there when one is deleted.
other_client :
    (j k : ℕ) (clients : List Client)
    → (j == k) ≡ false
    → has_client j (keep (λ (c : Client). not (c.id == k)) clients) ≡ has_client j clients
other_client j k clients ne =
    any-keep (λ (c : Client). c.id == j) (λ (c : Client). not (c.id == k))
      (λ c h. ground (arith, h, ne)) clients

fits_without :
    (k : ℕ) (clients : List Client) (kind : RuleKind) (value : Option Text) (o : Option ℕ)
    → not (elim kind [ client ↦ same_number o (some k) | value_of _ ↦ false ]) ≡ true
    → fits clients kind value o ≡ true
    → fits (keep (λ (c : Client). not (c.id == k)) clients) kind value o ≡ true
fits_without k clients client none (some j) e h = other_client j k clients (ground (arith, e)) ∙ h
fits_without k clients client none none e h = h
fits_without k clients client (some v) o e h = h
fits_without k clients (value_of kind) (some value) none e h = h
fits_without k clients (value_of kind) (some value) (some j) e h = h
fits_without k clients (value_of kind) none o e h = h

delete_rows-IsGood : (k : ℕ) (db : Database) → IsGood db → IsGood (delete_rows k db)
unfolding delete_rows
delete_rows-IsGood k db good = record {
  client_ids = keep-IsApart same_client _ db.clients good.client_ids;
  identifier_ids = keep-IsApart same_id _ db.identifiers good.identifier_ids;
  keys = keep-IsApart same_key _ db.identifiers good.keys;
  owned =
      All-keep_if (λ i. is_owned db.clients i ≡ true)
        (λ i. is_owned (keep (λ (c : Client). not (c.id == k)) db.clients) i ≡ true)
        (λ (i : Identifier). not (is_of k i))
        (λ i e h. other_client i.client_id k db.clients (ground (arith, e)) ∙ h) db.identifiers
        good.owned;
  rule_ids = keep-IsApart same_rule_id _ db.rules good.rule_ids;
  rules_apart = keep-IsApart same_rule _ db.rules good.rules_apart;
  rules_fit =
      All-keep_if (λ r. rule_fits db.clients r ≡ true)
        (λ r. rule_fits (keep (λ (c : Client). not (c.id == k)) db.clients) r ≡ true)
        (λ (r : AccessRule). not (is_rule_of k r))
        (λ r e h. fits_without k db.clients r.kind r.value r.client_id e h) db.rules good.rules_fit;
}

pub delete_found-Kept : (k : ℕ) (db : Database) → IsGood db → Kept (delete_found k db)
unfolding delete_found
delete_found-Kept k db good =
    Returns-raise_if IsGood (not (has_client k db.clients)) _ _ (λ _. delete_rows-IsGood k db good)

pub attach-Kept :
    (k : ℕ) (key : Kind × Text) (now : Text) (db : Database)
    → IsGood db
    → Kept (attach k key now db)
unfolding attach
attach-Kept k (kind, value) now db good =
    Returns-raise_if IsGood (not (has_client k db.clients)) _ _ (λ there.
      Returns-bind IsGood (insert_identifier k kind value now db)
        (λ db'. ok (change_client k (touched now) db'))
        (λ db' e.
          let b =
            subst (Returns (Beside db.clients)) e
              (insert_identifier-Beside k kind value now db (ground (arith, there)) good) in
          change_client-IsGood k (touched now) db' (λ _. refl) b.0))

pub detach-Kept : (k : ℕ) (now : Text) (db : Database) → IsGood db → Kept (detach k now db)
unfolding detach
detach-Kept k now db good = go (first_of (keep (λ (i : Identifier). i.id == k) db.identifiers))
  where
    go :
        (o : Option Identifier)
        → Kept (
            or_raise o identifier_not_found >>= λ row. ok (
              change_client row.client_id
                (touched now)
                (record (delete_legacy_aliases (row ∷ []) db) {
                  identifiers =
                      keep
                        (λ (i : Identifier). not (i.id == k))
                        (delete_legacy_aliases (row ∷ []) db).identifiers;
                })))
    go none = tt
    go (some row) =
        change_client-IsGood row.client_id (touched now) _ (λ _. refl)
          (with_identifiers-IsGood (λ (i : Identifier). not (i.id == k)) _
            (delete_legacy_aliases-IsGood (row ∷ []) db good))

insert_rule-Kept :
    (action : Action) (kind : RuleKind) (value : Option Text) (o : Option ℕ) (now : Text)
    (db : Database)
    → fits db.clients kind value o ≡ true
    → IsGood db
    → Kept (insert_rule action kind value o now db)
unfolding insert_rule
insert_rule-Kept action kind value o now db fit good =
    Returns-raise_if IsGood (any (is_twin action kind value o) db.rules) _ _ (λ new. record {
      client_ids = good.client_ids;
      identifier_ids = good.identifier_ids;
      keys = good.keys;
      owned = good.owned;
      rule_ids =
          snoc-IsApart same_rule_id db.rules _ good.rule_ids
            (fresh_id_ne (λ (r : AccessRule). r.id) db.rules);
      rules_apart =
          snoc-IsApart same_rule db.rules _ good.rules_apart
            (any-none (is_twin action kind value o) db.rules new);
      rules_fit = All-snoc (λ r. rule_fits db.clients r ≡ true) db.rules _ good.rules_fit fit;
    })

add_client_rule-Kept :
    (action : Action) (o : Option ℕ) (now : Text) (db : Database)
    → IsGood db
    → Kept (add_client_rule action o now db)
unfolding add_client_rule
add_client_rule-Kept action none now db good = tt
add_client_rule-Kept action (some k) now db good = Returns-raise_if IsGood (k == 0) _ _ (λ _.
    Returns-raise_if IsGood (not (has_client k db.clients)) _ _
      (λ there. insert_rule-Kept action client none (some k) now db (ground (arith, there)) good))

pub add_rule_of-Kept :
    (py : Platform) (action : Action) (kind : RuleKind) (value : Option Text) (o : Option ℕ)
    (now : Text) (db : Database)
    → IsGood db
    → Kept (add_rule_of py action kind value o now db)
unfolding add_rule_of add_value_rule
add_rule_of-Kept py action client value o now db good = add_client_rule-Kept action o now db good
add_rule_of-Kept py action (value_of kind) value o now db good =
    Returns-bind IsGood (rule_key py kind (given value))
      (λ key. insert_rule action (value_of key.0) (some key.1) none now db)
      (λ key _. insert_rule-Kept action (value_of key.0) (some key.1) none now db refl good)

pub remove_found-Kept : (k : ℕ) (db : Database) → IsGood db → Kept (remove_found k db)
unfolding remove_found
remove_found-Kept k db good =
    Returns-raise_if IsGood (not (any (λ (r : AccessRule). r.id == k) db.rules)) _ _
      (λ _. with_rules-IsGood (λ (r : AccessRule). not (r.id == k)) db good)
