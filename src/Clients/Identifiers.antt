-- ===== src/Clients/Identifiers.antt =====
-- app/clients.py: `normalize_identifier`, ClientIDs and their forms in a DNS label and a path.
use alderpoint_dns.Base.{
  ℕ, Text, codes, Bool, true, false, not, ◌&&◌, ◌||◌, none, some, [], ◌∷◌, ◌++◌, length, all, ltb,
  leb, ◌==◌, if◌then◌else◌,
}
use alderpoint_dns.Base.Results.{error, ok, ◌>>=◌, ◌>>◌, raise_if}
use alderpoint_dns.Base.Str.{is_digit, is_hex, strip, strip_right, mem_char}
use alderpoint_dns.Platform.{Platform, lower}
use alderpoint_dns.Net.{Address, ip_address, show_address, is_v4}
use alderpoint_dns.Net.Network.{Network, ip_network, show_network}
use alderpoint_dns.Clients.Types.{
  Kind, ipv4, ipv4_cidr, ipv6, ipv6_cidr, clientid, Result, identifier_required, bad_identifier,
  clientid_required, clientid_not_hex, clientid_short, clientid_long, clientid_length,
}

abbrev pub min_hex : ℕ
min_hex = 48

abbrev pub max_hex : ℕ
max_hex = 64

-- `0123456789abcdef`
unfoldable pub is_low_hex : ℕ → Bool
unfolding is_digit
is_low_hex c = is_digit c || (leb 97 c && leb c 102)

abbrev pub is_blank : Text → Bool
is_blank [] = true
is_blank (_ ∷ _) = false

-- The checks of `validate_clientid`, on the text in lower case.
unfoldable pub check_clientid : Text → Result Text
unfolding all is_low_hex
check_clientid text = do
  raise_if (is_blank text) clientid_required
  raise_if (not (all is_low_hex text)) clientid_not_hex
  raise_if (ltb (length text) min_hex) (clientid_short (length text))
  raise_if (ltb max_hex (length text)) (clientid_long (length text))
  raise_if (not (length text == min_hex || length text == max_hex)) (clientid_length (length text))
  ok text

unfoldable pub validate_clientid : Platform → Text → Result Text
unfolding check_clientid
validate_clientid py raw = check_clientid (lower py (strip raw))

abbrev network_kind : Network → Kind
network_kind net = if is_v4 net.address then ipv4_cidr else ipv6_cidr

abbrev address_kind : Address → Kind
address_kind a = if is_v4 a then ipv4 else ipv6

unfoldable pub normalize_address : Text → Result (Kind × Text)
normalize_address text =
    if mem_char b'/' text
    then (elim (ip_network text) [
      | none ↦ error bad_identifier
      | some net ↦ ok (network_kind net, show_network net)
    ])
    else elim (ip_address text) [
      | none ↦ error bad_identifier
      | some a ↦ ok (address_kind a, show_address a)
    ]

-- A text of hexadecimal digits has no slash, dot or colon.
unfoldable pub normalize_identifier : Platform → Text → Result (Kind × Text)
unfolding normalize_address all
normalize_identifier py raw =
    let text = strip raw in
    if is_blank text
    then error identifier_required
    else if leb (length text) max_hex && all is_hex text
    then (do value ← validate_clientid py text; ok (clientid, value))
    else normalize_address text

-- HTTP paths have no limit on a label, so the ClientID stands there as it is.
unfoldable pub clientid_doh_path : Text → Text → Text
unfolding strip_right
clientid_doh_path base value = strip_right (λ c. c == b'/') base ++ (codes "/" ++ value)
