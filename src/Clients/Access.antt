-- ===== src/Clients/Access.antt =====
-- app/clients.py: `evaluate_access`, with `_expand_rules`, `_rule_matches_ip` and
-- `effective_access_for_client`.
pub mod Precedence
use alderpoint_dns.Base.{
  ℕ, Text, codes, Bool, true, false, not, ◌&&◌, Option, none, some, List, [], ◌∷◌, ◌++◌, map, keep,
  ◌==◌, teq, if◌then◌else◌,
}
use alderpoint_dns.Net.{Address, v4, v6, ip_address, show_address}
use alderpoint_dns.Net.Network.{Network, ip_network, contains}
use alderpoint_dns.Clients.Types.{
  Kind, ipv4, ipv4_cidr, ipv6, ipv6_cidr, clientid, RuleKind, value_of, client, Action, allow, deny,
  Client, Identifier, AccessRule, same_action, same_text,
}

-- An entry of `clients_by_id`.
pub record Owner : Type 0 where
  pub client : Client
  pub identifiers : List Identifier

-- `clients_by_id.get(k)`
unfoldable pub get_client : Option ℕ → List Owner → Option Owner
get_client none owners = none
get_client (some k) [] = none
get_client (some k) (o ∷ owners) =
    let rest = get_client (some k) owners in if o.client.id == k then some o else rest

-- One effective entry; a value that is NULL matches nothing.
pub record Entry : Type 0 where
  pub action : Action
  pub kind : Kind
  pub value : Option Text
  pub source : Text

abbrev pub kind_name : Kind → Text
kind_name ipv4 = codes "ipv4"
kind_name ipv4_cidr = codes "ipv4_cidr"
kind_name ipv6 = codes "ipv6"
kind_name ipv6_cidr = codes "ipv6_cidr"
kind_name clientid = codes "clientid"

abbrev pub entry_of : Action → Text → Identifier → Entry
entry_of action name i = record {
  action = action;
  kind = i.kind;
  value = some i.value;
  source = codes "client:" ++ name;
}

abbrev pub owner_entries : Action → Option Owner → List Entry
owner_entries action none = []
owner_entries action (some o) =
    if o.client.enabled then map (entry_of action o.client.name) o.identifiers else []

unfoldable pub expand_rule : List Owner → RuleKind → AccessRule → List Entry
expand_rule owners client r = owner_entries r.action (get_client r.client_id owners)
expand_rule owners (value_of kind) r =
    record {
      action = r.action;
      kind = kind;
      value = r.value;
      source = codes "rule:" ++ kind_name kind;
    }
    ∷ []

unfoldable pub expand_rules : List Owner → List AccessRule → List Entry
expand_rules owners [] = []
expand_rules owners (r ∷ rules) = expand_rule owners r.kind r ++ expand_rules owners rules

-- `==` of two addresses.
abbrev pub same_address : Address → Address → Bool
same_address (v4 n) (v4 m) = n == m
same_address (v6 g gs s) (v6 h hs t) = g == h && (teq gs hs && same_text s t)
same_address _ _ = false

abbrev is_address : Text → Address → Bool
is_address value address = elim (ip_address value) [
  | none ↦ false
  | some a ↦ same_address a address
]

abbrev pub is_within : Text → Address → Bool
is_within value address = elim (ip_network value) [ none ↦ false | some net ↦ contains net address ]

-- `_rule_matches_ip`
unfoldable pub rule_matches_ip : Kind → Text → Address → Bool
rule_matches_ip ipv4 value address = is_address value address
rule_matches_ip ipv6 value address = is_address value address
rule_matches_ip ipv4_cidr value address = is_within value address
rule_matches_ip ipv6_cidr value address = is_within value address
rule_matches_ip clientid value address = false

-- A ClientID that is empty is none.
abbrev pub carries : Option Text → Text → Bool
carries none value = false
carries (some []) value = false
carries (some (c ∷ cs)) value = teq value (c ∷ cs)

abbrev pub reaches : Option Address → Kind → Text → Bool
reaches none kind value = false
reaches (some a) kind value = rule_matches_ip kind value a

abbrev pub matches_value : Option Address → Option Text → Kind → Option Text → Bool
matches_value address cid kind none = false
matches_value address cid clientid (some value) = carries cid value
matches_value address cid kind (some value) = reaches address kind value

abbrev pub matches : Option Address → Option Text → Entry → Bool
matches address cid e = matches_value address cid e.kind e.value

pub record AccessDecision : Type 0 where
  pub allowed : Bool
  pub reason : Text

abbrev value_text : Option Text → Text
value_text none = codes "None"
value_text (some v) = v

abbrev because : Text → Entry → Text
because verb e =
    verb
    ++ (e.source
        ++ (codes " (" ++ (kind_name e.kind ++ (codes "=" ++ (value_text e.value ++ codes ")")))))

abbrev pub policy_name : Action → Text
policy_name allow = codes "allow"
policy_name deny = codes "deny"

abbrev pub is_deny : Action → Bool
is_deny deny = true
is_deny allow = false

-- The first denying match, or else the first allowing one, or else the default.
unfoldable pub decide : Action → List Entry → List Entry → AccessDecision
decide policy (m ∷ _) allows = record { allowed = false; reason = because (codes "denied by ") m }
decide policy [] (m ∷ _) = record { allowed = true; reason = because (codes "allowed by ") m }
decide policy [] [] = record {
  allowed = not (is_deny policy);
  reason = codes "default policy (" ++ (policy_name policy ++ codes ")");
}

-- An address that is empty, or that is none, matches no rule.
abbrev pub parsed : Option Text → Option Address
parsed none = none
parsed (some []) = none
parsed (some (c ∷ cs)) = ip_address (c ∷ cs)

unfoldable pub evaluate_access :
    Option Text → Option Text → List AccessRule → List Owner → Action → AccessDecision
unfolding decide
evaluate_access remote_ip cid rules owners policy =
    let matched = keep (matches (parsed remote_ip) cid) (expand_rules owners rules) in
    decide policy (keep (λ (e : Entry). is_deny e.action) matched)
      (keep (λ (e : Entry). not (is_deny e.action)) matched)

-- The address by which an identifier is judged: its own, or the first of its network.
abbrev address_of : Kind → Text → Option Text
address_of ipv4 value = some value
address_of ipv6 value = some value
address_of clientid value = none
address_of _ value = elim (ip_network value) [
  | none ↦ none
  | some net ↦ some (show_address net.address)
]

abbrev clientid_of : Kind → Text → Option Text
clientid_of clientid value = some value
clientid_of _ value = none

unfoldable pub effective_access :
    Owner → List AccessRule → List Owner → Action → Identifier → AccessDecision
effective_access owner rules owners policy i =
    if not owner.client.enabled
    then record { allowed = false; reason = codes "client disabled" }
    else evaluate_access (address_of i.kind i.value) (clientid_of i.kind i.value) rules owners
        policy

unfoldable pub effective_access_for_client :
    Owner → List AccessRule → List Owner → Action → List (Identifier × AccessDecision)
unfolding effective_access
effective_access_for_client owner rules owners policy =
    map (λ (i : Identifier). (i, effective_access owner rules owners policy i)) owner.identifiers
