-- ===== src/Clients/Types.antt =====
-- app/clients.py: the tables, as `init_db` declares them, and what is raised.
use alderpoint_dns.Base.{
  ℕ, Text, Bool, true, false, Option, none, some, List, ◌==◌, teq, codes, if◌then◌else◌,
}
use alderpoint_dns.Base.Results

pub data Kind : Type 0 where
  ipv4 ipv4_cidr ipv6 ipv6_cidr clientid : Kind

-- A rule is about a value of a kind, or about a client.
pub data RuleKind : Type 0 where
  value_of : Kind → RuleKind
  client : RuleKind

pub data Action : Type 0 where
  allow deny : Action

pub record Client : Type 0 where
  pub id : ℕ
  pub name : Text
  pub description : Text
  pub enabled : Bool
  pub created_at : Text
  pub updated_at : Text

pub record Identifier : Type 0 where
  pub id : ℕ
  pub client_id : ℕ
  pub kind : Kind
  pub value : Text
  pub created_at : Text

pub record AccessRule : Type 0 where
  pub id : ℕ
  pub action : Action
  pub kind : RuleKind
  pub value : Option Text
  pub client_id : Option ℕ
  pub created_at : Text

-- A row of the legacy table `client_aliases`; a missing table has no rows.
pub record Alias : Type 0 where
  pub cidr : Text
  pub display_name : Text
  pub description : Text
  pub created_at : Text
  pub updated_at : Text

pub record Database : Type 0 where
  pub clients : List Client
  pub identifiers : List Identifier
  pub rules : List AccessRule
  pub default_policy : Action
  pub policy_updated_at : Text
  pub aliases : List Alias

-- What a `raise` of the module says, without the words of `ipaddress`.
pub data ClientsError : Type 0 where
  identifier_required bad_identifier clientid_required clientid_not_hex bad_label : ClientsError
  clientid_short clientid_long clientid_length : ℕ → ClientsError
  name_required name_long description_long client_not_found : ClientsError
  identifier_taken : Text → ClientsError
  identifier_not_found bad_policy bad_action client_unselected bad_kind : ClientsError
  rule_exists rule_not_found unsafe_entry : ClientsError

abbrev pub Result : Type 0 → Type 0
Result A = Results.Result ClientsError A

abbrev pub same_kind : Kind → Kind → Bool
same_kind ipv4 ipv4 = true
same_kind ipv4_cidr ipv4_cidr = true
same_kind ipv6 ipv6 = true
same_kind ipv6_cidr ipv6_cidr = true
same_kind clientid clientid = true
same_kind _ _ = false

abbrev pub same_rule_kind : RuleKind → RuleKind → Bool
same_rule_kind (value_of k) (value_of l) = same_kind k l
same_rule_kind client client = true
same_rule_kind _ _ = false

abbrev pub same_action : Action → Action → Bool
same_action allow allow = true
same_action deny deny = true
same_action _ _ = false

-- `IS` of SQL.
abbrev pub same_text : Option Text → Option Text → Bool
same_text none none = true
same_text (some s) (some t) = teq s t
same_text _ _ = false

abbrev pub same_number : Option ℕ → Option ℕ → Bool
same_number none none = true
same_number (some a) (some b) = a == b
same_number _ _ = false

-- The columns `action` and `kind` as text; `none` is any other text.
unfoldable pub action_of : Text → Option Action
unfolding teq
action_of s =
    if teq s (codes "allow") then some allow else if teq s (codes "deny") then some deny else none

unfoldable pub kind_of : Text → Option RuleKind
unfolding teq
kind_of s =
    if teq s (codes "client")
    then some client
    else if teq s (codes "clientid")
    then some (value_of clientid)
    else if teq s (codes "ipv4")
    then some (value_of ipv4)
    else if teq s (codes "ipv4_cidr")
    then some (value_of ipv4_cidr)
    else if teq s (codes "ipv6")
    then some (value_of ipv6)
    else if teq s (codes "ipv6_cidr")
    then some (value_of ipv6_cidr)
    else none
