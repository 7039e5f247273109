-- ===== src/Clients/Enforcement.antt =====
-- app/clients.py: `render_access_data`, the lines of the data files, and what the loader of
-- `render_access_lua` makes dnsdist do with them. A file is the list of its lines, which hold no end of
-- a line, since each is checked; how they are joined and read back is left out. Which addresses a line of a netmask group covers is
-- dnsdist's, a parameter here.
pub mod Masks
pub mod Hits
pub mod Agreement
use alderpoint_dns.Base.{
  ℕ, Text, codes, Bool, true, false, not, all, ltb, ◌==◌, ◌&&◌, ◌||◌, Option, none, some, List, [],
  ◌∷◌, ◌++◌, any, teq, tle, if◌then◌else◌,
}
use alderpoint_dns.Base.Results.{ok, ◌>>=◌, ◌>>◌, raise_if}
use alderpoint_dns.Base.SortedSet.{sorted_set}
use alderpoint_dns.Net.{Address}
use alderpoint_dns.Clients.Types.{
  Kind, ipv4, ipv4_cidr, ipv6, ipv6_cidr, clientid, Action, allow, deny, AccessRule, same_action,
  Result, unsafe_entry,
}
use alderpoint_dns.Clients.Identifiers.{clientid_doh_path}
use alderpoint_dns.Clients.Labels.{clientid_sni_hostname}
use alderpoint_dns.Clients.Access.{Owner, Entry, expand_rules, is_deny}

-- The lines that a list gets from the entries.
unfoldable pub collect : (Entry → Option Text) → List Entry → List Text
collect f [] = []
collect f (e ∷ es) = let rest = collect f es in elim (f e) [ none ↦ rest | some line ↦ line ∷ rest ]

abbrev pub v4_line : Kind → Text → Option Text
v4_line ipv4 value = some (value ++ codes "/32")
v4_line ipv4_cidr value = some value
v4_line _ value = none

abbrev pub v6_line : Kind → Text → Option Text
v6_line ipv6 value = some (value ++ codes "/128")
v6_line ipv6_cidr value = some value
v6_line _ value = none

abbrev pub sni_line : Kind → Text → Option Text
sni_line clientid value = some (clientid_sni_hostname value)
sni_line _ value = none

abbrev pub path_line : Text → Kind → Text → Option Text
path_line base clientid value = some (clientid_doh_path base value)
path_line base _ value = none

-- The line of an entry in a list of its action.
abbrev pub line_for : (Kind → Text → Option Text) → Action → Entry → Option Text
line_for f action e = elim e.value [
  | none ↦ none
  | some value ↦ if same_action e.action action then f e.kind value else none
]

pub record AccessData : Type 0 where
  pub allow_v4 : List Text
  pub allow_v6 : List Text
  pub deny_v4 : List Text
  pub deny_v6 : List Text
  pub allow_sni : List Text
  pub deny_sni : List Text
  pub allow_path : List Text
  pub deny_path : List Text
  pub default_policy : Action

abbrev pub lines : (Kind → Text → Option Text) → Action → List Entry → List Text
lines f action entries = sorted_set (collect (line_for f action) entries)

-- The lists before they are checked.
unfoldable pub access_lists : List AccessRule → List Owner → Action → Text → AccessData
access_lists rules owners policy base =
    let entries = expand_rules owners rules in
    record {
      allow_v4 = lines v4_line allow entries;
      allow_v6 = lines v6_line allow entries;
      deny_v4 = lines v4_line deny entries;
      deny_v6 = lines v6_line deny entries;
      allow_sni = lines sni_line allow entries;
      deny_sni = lines sni_line deny entries;
      allow_path = lines (path_line base) allow entries;
      deny_path = lines (path_line base) deny entries;
      default_policy = policy;
    }

-- `_check_line_safe`: an entry with a control character is refused.
unfoldable pub is_line_safe : Text → Bool
is_line_safe entry = not (any (λ c. ltb c 32 || c == 127) entry)

abbrev are_safe : List Text → Bool
are_safe = all is_line_safe

unfoldable pub has_safe_lines : AccessData → Bool
unfolding is_line_safe
has_safe_lines d =
    ((are_safe d.allow_v4 && are_safe d.allow_v6) && (are_safe d.deny_v4 && are_safe d.deny_v6))
    && ((are_safe d.allow_sni && are_safe d.deny_sni)
        && (are_safe d.allow_path && are_safe d.deny_path))

-- The lines of each file; a text with a line that is not safe raises, and there are no files.
unfoldable pub render_access_data : List AccessRule → List Owner → Action → Text → Result AccessData
unfolding access_lists has_safe_lines
render_access_data rules owners policy base = do
  raise_if (not (has_safe_lines (access_lists rules owners policy base))) unsafe_entry
  ok (access_lists rules owners policy base)

-- A query as dnsdist sees it: plain, with a server name, with a path of DoH, or both.
pub record Query : Type 0 where
  pub address : Address
  pub sni : Option Text
  pub path : Option Text

abbrev pub is_among : Option Text → List Text → Bool
is_among none names = false
is_among (some s) names = any (λ t. teq t s) names

module _ (covers : Text → Address → Bool) where
  -- A netmask group covers what one of its masks covers.
  abbrev pub group_covers : List Text → Address → Bool
  group_covers masks a = any (λ m. covers m a) masks

  abbrev pub is_loopback : Address → Bool
  is_loopback a = covers (codes "127.0.0.1/32") a || covers (codes "::1/128") a

  unfoldable pub refused_first : AccessData → Query → Bool
  refused_first d q =
      (group_covers d.deny_v4 q.address || group_covers d.deny_v6 q.address)
      || (is_among q.sni d.deny_sni || is_among q.path d.deny_path)

  -- The gate of a default that denies.
  unfoldable pub passes_gate : AccessData → Query → Bool
  passes_gate d q =
      (is_loopback q.address
        || (group_covers d.allow_v4 q.address || group_covers d.allow_v6 q.address))
      || (is_among q.sni d.allow_sni || is_among q.path d.allow_path)

  -- Whether the loader's rules let a query through.
  unfoldable pub serves : AccessData → Query → Bool
  unfolding refused_first passes_gate
  serves d q = not (refused_first d q) && (not (is_deny d.default_policy) || passes_gate d q)
