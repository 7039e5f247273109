-- ===== src/Clients/Tests.antt =====
-- Clients, identifiers and access rules at work.
use alderpoint_dns.Base.{
  Text, codes, Bool, true, false, not, ◌&&◌, ◌||◌, none, some, List, [], ◌∷◌, any, Option, ◌≡◌,
  refl,
}
use alderpoint_dns.Base.Results.{error, ok}
use alderpoint_dns.Net.{Address, v4}
use alderpoint_dns.Platform.{plain_python}
use alderpoint_dns.Clients.Types.{
  ipv4, ipv4_cidr, value_of, client, allow, deny, Client, Identifier, AccessRule, Database, Result,
}
use alderpoint_dns.Clients.Labels.Roundtrip.{clientid_from_dns_label-clientid_dns_label}
use alderpoint_dns.Clients.Store.Reachable.{Operation, creates, fresh, after, Reachable-IsGood}
use alderpoint_dns.Clients.Store.Invariant.{IsGood}
use alderpoint_dns.Clients.Access.{Owner, is_deny, parsed}
use alderpoint_dns.Clients.Access.Precedence.{applies, evaluate_access_allowed}
use alderpoint_dns.Base.{teq, tle}
use alderpoint_dns.Base.{keep, any, all}
use alderpoint_dns.Base.Str.{
  is_space, starts_with, ends_with, mem_char, has, strip_left, strip_right, strip_by, strip, drop,
  take, drop_last, char_at, partition, find, split, words, is_break, split_lines, join, is_digit,
  is_hex, is_letter, is_control, lower_ascii, upper_ascii,
}
use alderpoint_dns.Net.{parse_v4, parse_v6, ip_address, decimal, is_v4}
use alderpoint_dns.Platform.{is_ascii, lower, upper, is_alnum}
use alderpoint_dns.Base.Tables.{fresh_id}
use alderpoint_dns.Net.Network.{
  Network, clear_host, from_groups, number_of, to_groups, ip_network, show_network, contains,
}
use alderpoint_dns.Clients.Types.{action_of, kind_of}
use alderpoint_dns.Clients.Identifiers.{
  is_low_hex, check_clientid, validate_clientid, normalize_address, normalize_identifier,
  clientid_doh_path,
}
use alderpoint_dns.Clients.Labels.{
  nibble, hex_char, bytes_of, hex_of, char_32, quintets, encode_32, clientid_dns_label,
  clientid_sni_hostname, value_32, values_32, join_32, decode_32, from_text,
  clientid_from_dns_label,
}
use alderpoint_dns.Clients.Store.{
  add_migrated, migrate_rows, init_db, insert_identifier, insert_identifiers, normalize_all,
  check_names, insert_client, create_client, change_client, update_found, update_client,
  set_client_enabled, legacy_alias_cidr, delete_legacy_aliases, delete_rows, delete_found,
  delete_client, attach, add_identifier, detach, remove_identifier, set_default_policy, insert_rule,
  add_client_rule, rule_key, add_value_rule, add_rule_of, add_access_rule, remove_found,
  remove_access_rule,
}
use alderpoint_dns.Clients.Store.Reachable.{run}
use alderpoint_dns.Clients.Access.{
  get_client, expand_rule, expand_rules, rule_matches_ip, decide, evaluate_access, effective_access,
  effective_access_for_client,
}
use alderpoint_dns.Base.SortedSet.{place, sorted_set}
use alderpoint_dns.Clients.Enforcement.{
  collect, AccessData, access_lists, is_line_safe, has_safe_lines, render_access_data,
  refused_first, passes_gate, serves,
}

program : Unit {0}
unfolding teq tle keep any all is_space starts_with ends_with mem_char has strip_left strip_right
    strip_by strip drop take drop_last char_at partition find split words is_break split_lines join
    is_digit is_hex is_letter is_control lower_ascii upper_ascii parse_v4 parse_v6 ip_address
    decimal is_v4 clear_host from_groups is_ascii lower upper is_alnum fresh_id number_of to_groups
    ip_network show_network contains action_of kind_of is_low_hex check_clientid validate_clientid
    normalize_address normalize_identifier clientid_doh_path nibble hex_char bytes_of hex_of char_32
    quintets encode_32 clientid_dns_label clientid_sni_hostname value_32 values_32 join_32 decode_32
    from_text clientid_from_dns_label add_migrated migrate_rows init_db insert_identifier
    insert_identifiers normalize_all check_names insert_client create_client change_client
    update_found update_client set_client_enabled legacy_alias_cidr delete_legacy_aliases
    delete_rows delete_found delete_client attach add_identifier detach remove_identifier
    set_default_policy insert_rule add_client_rule rule_key add_value_rule add_rule_of
    add_access_rule remove_found remove_access_rule run get_client expand_rule expand_rules
    rule_matches_ip decide evaluate_access effective_access effective_access_for_client place
    sorted_set collect access_lists is_line_safe has_safe_lines render_access_data refused_first
    passes_gate serves
program = tt

-- A short and a long ClientID.
abbrev short_id : Text
short_id = codes "0123456789abcdef0123456789abcdef0123456789abcdef"

abbrev long_id : Text
long_id = codes "0123456789abcdef0123456789abcdef0123456789abcdef0123456789abcdef"

long_id-checked : check_clientid long_id ≡ ok long_id
unfolding program
long_id-checked = refl

clientid_from_dns_label-clientid_dns_label_example :
    clientid_from_dns_label plain_python (clientid_dns_label long_id) ≡ ok long_id
clientid_from_dns_label-clientid_dns_label_example =
    clientid_from_dns_label-clientid_dns_label plain_python long_id long_id-checked

abbrev today : Text
today = codes "2026-01-01"

abbrev nothing : Database
nothing = record {
  clients = [];
  identifiers = [];
  rules = [];
  default_policy = allow;
  policy_updated_at = today;
  aliases = [];
}

abbrev one_client : Operation
one_client = creates (codes "Phone") [] (codes "192.168.1.30" ∷ []) true

phone : Client
phone = record {
  id = 1;
  name = codes "Phone";
  description = [];
  enabled = true;
  created_at = today;
  updated_at = today;
}

phone_address : Identifier
phone_address = record {
  id = 1;
  client_id = 1;
  kind = ipv4;
  value = codes "192.168.1.30";
  created_at = today;
}

database_of : Result Database → Database
database_of (error _) = nothing
database_of (ok db) = db

with_phone : Database
unfolding program database_of
with_phone = database_of (run plain_python one_client today nothing)

creates_phone : run plain_python one_client today nothing ≡ ok with_phone
unfolding program with_phone database_of
creates_phone = refl

Reachable-IsGood_example : IsGood with_phone
Reachable-IsGood_example =
    Reachable-IsGood plain_python with_phone
      (after one_client today nothing with_phone (fresh nothing refl refl refl) creates_phone)

owners : List Owner
owners = record { client = phone; identifiers = phone_address ∷ [] } ∷ []

-- The phone is denied, its network is allowed.
rules : List AccessRule
rules =
    record {
      id = 1;
      action = allow;
      kind = value_of ipv4_cidr;
      value = some (codes "192.168.1.0/24");
      client_id = none;
      created_at = today;
    }
    ∷ record {
      id = 2;
      action = deny;
      kind = client;
      value = none;
      client_id = some 1;
      created_at = today;
    }
    ∷ []

abbrev allowed_at : Text → Bool
allowed_at remote = (evaluate_access (some remote) none rules owners deny).allowed

decisions :
    (allowed_at (codes "192.168.1.30") ≡ false)
    × (allowed_at (codes "192.168.1.31") ≡ true)
    × (allowed_at (codes "192.168.2.1") ≡ false)
unfolding program rules owners phone phone_address
decisions = (refl, refl, refl)

evaluate_access_allowed_example :
    (evaluate_access (some (codes "192.168.1.30")) none rules owners deny).allowed ≡ (
      not (
        any
          (λ (r : AccessRule).
            applies owners (parsed (some (codes "192.168.1.30"))) none r && is_deny r.action)
          rules)
      && (any
            (λ (r : AccessRule).
              applies owners (parsed (some (codes "192.168.1.30"))) none r
              && not (is_deny r.action))
            rules
          || not (is_deny deny)))
evaluate_access_allowed_example =
    evaluate_access_allowed (some (codes "192.168.1.30")) none rules owners deny

-- A netmask group that covers the addresses of its networks.
abbrev covers : Text → Address → Bool
covers = rule_matches_ip ipv4_cidr

abbrev at : Address
at = v4 3232235806

-- A server name that the rules do not know.
abbrev server_name : Option Text
server_name = some (codes "dns.example")

abbrev of_network : Address → Option Network → Bool
of_network a none = false
of_network a (some net) = contains net a

no_data : AccessData
no_data = record {
  allow_v4 = [];
  allow_v6 = [];
  deny_v4 = [];
  deny_v6 = [];
  allow_sni = [];
  deny_sni = [];
  allow_path = [];
  deny_path = [];
  default_policy = allow;
}

data_of : Result AccessData → AccessData
data_of (error _) = no_data
data_of (ok d) = d

files : AccessData
unfolding program data_of rules owners phone phone_address
files = data_of (render_access_data rules owners deny (codes "/dns-query"))

-- The query comes from the machine itself, and no rule is about it.
abbrev here : Address
here = v4 2130706433
