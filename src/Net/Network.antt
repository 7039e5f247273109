-- ===== src/Net/Network.antt =====
-- `ipaddress.ip_network` of a text with `strict=False`, `address in network` and `str(network)`.
pub mod Hosts
use alderpoint_dns.Base.{
  ℕ, zero, suc, ◌+◌, ◌-◌, ◌*◌, ◌/◌, ◌%◌, ◌^◌, Text, codes, Bool, false, not, ◌||◌, Option, none,
  some, List, [], ◌∷◌, ◌++◌, length, all, ltb, ◌==◌, if◌then◌else◌,
}
use alderpoint_dns.Base.Str.{is_digit, split}
use alderpoint_dns.Net.{Address, v4, v6, ◌>>=◌, value_of, parse_v4, parse_v6, decimal, show_address}

-- The address has no bit set beyond the prefix.
pub record Network : Type 0 where
  pub address : Address
  pub prefix : ℕ

unfoldable pub from_groups : ℕ → List ℕ → ℕ
from_groups n [] = n
from_groups n (g ∷ gs) = from_groups (n * 65536 + g) gs

-- `int(address)`
unfoldable pub number_of : Address → ℕ
unfolding from_groups
number_of (v4 n) = n
number_of (v6 g gs _) = from_groups g gs

unfoldable pub to_groups : ℕ → ℕ → List ℕ → List ℕ
to_groups zero n acc = acc
to_groups (suc k) n acc = to_groups k (n / 65536) ((n % 65536) ∷ acc)

-- The leading `p` of `w` bits, the others cleared.
abbrev pub masked : ℕ → ℕ → ℕ → ℕ
masked w p n = n / 2 ^ (w - p) * 2 ^ (w - p)

-- The decimal length of a prefix, at most `w`.
prefix_of : ℕ → Text → Option ℕ
unfolding value_of is_digit all
prefix_of w s =
    if not (all is_digit s) || length s == 0
    then none
    else if ltb w (value_of 10 s 0)
    then none
    else some (value_of 10 s 0)

-- The prefix length of a netmask, if there is one up to `p`.
find_mask : ℕ → ℕ → Option ℕ
find_mask zero n = if n == 0 then some 0 else none
find_mask (suc p) n =
    let rest = find_mask p n in if n == 2 ^ 32 - 2 ^ (32 - suc p) then some (suc p) else rest

-- A netmask, or else a hostmask.
mask_of : Text → Option ℕ
unfolding parse_v4 find_mask
mask_of s = elim (parse_v4 s) [
  | none ↦ none
  | some n ↦ elim (find_mask 32 n) [ some p ↦ some p | none ↦ find_mask 32 (2 ^ 32 - 1 - n) ]
]

v4_prefix : Option Text → Option ℕ
unfolding prefix_of mask_of
v4_prefix none = some 32
v4_prefix (some s) = elim (prefix_of 32 s) [ some p ↦ some p | none ↦ mask_of s ]

v6_prefix : Option Text → Option ℕ
unfolding prefix_of
v6_prefix none = some 128
v6_prefix (some s) = prefix_of 128 s

-- An address with its host bits cleared; a scope stays only where there are none to clear.
unfoldable pub clear_host : ℕ → Address → Network
clear_host p (v4 n) = record { address = v4 (masked 32 p n); prefix = p }
clear_host p (v6 g gs scope) =
    let n = number_of (v6 g gs scope) in
    if masked 128 p n == n
    then record { address = v6 g gs scope; prefix = p }
    else elim (to_groups 8 (masked 128 p n) []) [
      | [] ↦ record { address = v6 g gs scope; prefix = p }
      | h ∷ hs ↦ record { address = v6 h hs none; prefix = p }
    ]

v6_network : Text → Option Text → Option Network
unfolding v6_prefix clear_host parse_v6
v6_network address mask = do a ← parse_v6 address; p ← v6_prefix mask; some (clear_host p a)

v4_network : Text → Option Text → Option Network
unfolding v4_prefix clear_host parse_v4
v4_network address mask = do n ← parse_v4 address; p ← v4_prefix mask; some (clear_host p (v4 n))

either_network : Text → Option Text → Option Network
unfolding v4_network v6_network
either_network address mask = elim (v4_network address mask) [
  | some net ↦ some net
  | none ↦ v6_network address mask
]

network_parts : List Text → Option Network
unfolding either_network
network_parts (address ∷ []) = either_network address none
network_parts (address ∷ mask ∷ []) = either_network address (some mask)
network_parts _ = none

-- `none` is a ValueError.
unfoldable pub ip_network : Text → Option Network
unfolding network_parts split
ip_network s = network_parts (split b'/' s)

unfoldable pub show_network : Network → Text
show_network net = show_address net.address ++ (codes "/" ++ decimal net.prefix)

-- Whether a network address and a prefix cover an address.
covers : Address → ℕ → Address → Bool
unfolding number_of
covers (v4 n) p (v4 m) = masked 32 p m == n
covers (v6 g gs s) p (v6 h hs t) = masked 128 p (number_of (v6 h hs t)) == number_of (v6 g gs s)
covers _ p _ = false

-- `address in network`
unfoldable pub contains : Network → Address → Bool
unfolding covers
contains net = covers net.address net.prefix
