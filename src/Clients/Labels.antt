-- ===== src/Clients/Labels.antt =====
-- app/clients.py: the form of a ClientID in a DNS label, and back. `base64.b32encode` and
-- `b32decode` stand here with their padding, which the label leaves out.
pub mod Digits
pub mod Roundtrip
use alderpoint_dns.Base.{
  ℕ, ◌+◌, ◌-◌, ◌*◌, ◌/◌, ◌%◌, Text, codes, Bool, true, false, not, ◌&&◌, ◌||◌, Option, none, some,
  List, [], ◌∷◌, ◌++◌, length, all, map, ltb, leb, ◌==◌, if◌then◌else◌,
}
use alderpoint_dns.Base.Results.{error, ok}
use alderpoint_dns.Base.Str.{is_digit, strip, strip_right}
use alderpoint_dns.Platform.{Platform, lower, upper}
use alderpoint_dns.Clients.Types.{Result, bad_label}
use alderpoint_dns.Clients.Identifiers.{is_low_hex, is_blank, min_hex, max_hex}

abbrev pub max_label : ℕ
max_label = 63

unfoldable pub nibble : ℕ → ℕ
nibble c = if ltb c 58 then c - 48 else c - 87

unfoldable pub hex_char : ℕ → ℕ
hex_char n = if ltb n 10 then n + 48 else n + 87

-- `bytes.fromhex` of an even number of digits.
unfoldable pub bytes_of : Text → List ℕ
unfolding nibble
bytes_of [] = []
bytes_of (_ ∷ []) = []
bytes_of (a ∷ b ∷ s) = (nibble a * 16 + nibble b) ∷ bytes_of s

-- `raw.hex()`
unfoldable pub hex_of : List ℕ → Text
unfolding hex_char
hex_of [] = []
hex_of (b ∷ bs) = hex_char (b / 16) ∷ hex_char (b % 16) ∷ hex_of bs

-- The digits `a-z2-7`.
unfoldable pub char_32 : ℕ → ℕ
char_32 v = if ltb v 26 then v + 97 else v + 24

-- The groups of five bits; a last group is filled up with zeros.
unfoldable pub quintets : List ℕ → List ℕ
quintets [] = []
quintets (a ∷ []) = (a / 8) ∷ (a % 8 * 4) ∷ []
quintets (a ∷ b ∷ []) = (a / 8) ∷ (a % 8 * 4 + b / 64) ∷ (b / 2 % 32) ∷ (b % 2 * 16) ∷ []
quintets (a ∷ b ∷ c ∷ []) =
    (a / 8) ∷ (a % 8 * 4 + b / 64) ∷ (b / 2 % 32) ∷ (b % 2 * 16 + c / 16) ∷ (c % 16 * 2) ∷ []
quintets (a ∷ b ∷ c ∷ d ∷ []) =
    (a / 8)
    ∷ (a % 8 * 4 + b / 64)
    ∷ (b / 2 % 32)
    ∷ (b % 2 * 16 + c / 16)
    ∷ (c % 16 * 2 + d / 128)
    ∷ (d / 4 % 32)
    ∷ (d % 4 * 8)
    ∷ []
quintets (a ∷ b ∷ c ∷ d ∷ e ∷ rest) =
    (a / 8)
    ∷ (a % 8 * 4 + b / 64)
    ∷ (b / 2 % 32)
    ∷ (b % 2 * 16 + c / 16)
    ∷ (c % 16 * 2 + d / 128)
    ∷ (d / 4 % 32)
    ∷ (d % 4 * 8 + e / 32)
    ∷ (e % 32)
    ∷ quintets rest

-- `b32encode(raw).decode("ascii").rstrip("=").lower()`
unfoldable pub encode_32 : List ℕ → Text
unfolding quintets char_32
encode_32 raw = map char_32 (quintets raw)

unfoldable pub clientid_dns_label : Text → Text
unfolding bytes_of encode_32
clientid_dns_label value =
    if leb (length value) max_label then value else encode_32 (bytes_of value)

abbrev pub sni_suffix : Text
sni_suffix = codes "clientid.alderpointdns.local"

unfoldable pub clientid_sni_hostname : Text → Text
unfolding clientid_dns_label
clientid_sni_hostname value = clientid_dns_label value ++ (codes "." ++ sni_suffix)

-- The value of a digit `A-Z2-7`.
unfoldable pub value_32 : ℕ → Option ℕ
value_32 c =
    if leb 65 c && leb c 90
    then some (c - 65)
    else if leb 50 c && leb c 55
    then some (c - 24)
    else none

unfoldable pub values_32 : Text → Option (List ℕ)
values_32 [] = some []
values_32 (c ∷ s) = elim (value_32 c) [
  | none ↦ none
  | some v ↦ elim (values_32 s) [ none ↦ none | some vs ↦ some (v ∷ vs) ]
]

-- The bytes of the digits; what is left of a last group stands for zero bits.
unfoldable pub join_32 : List ℕ → List ℕ
join_32 (p ∷ q ∷ r ∷ s ∷ t ∷ u ∷ v ∷ w ∷ rest) =
    (p * 8 + q / 4)
    ∷ (q % 4 * 64 + r * 2 + s / 16)
    ∷ (s % 16 * 16 + t / 2)
    ∷ (t % 2 * 128 + u * 4 + v / 8)
    ∷ (v % 8 * 32 + w)
    ∷ join_32 rest
join_32 (p ∷ q ∷ []) = (p * 8 + q / 4) ∷ []
join_32 (p ∷ q ∷ r ∷ s ∷ []) = (p * 8 + q / 4) ∷ (q % 4 * 64 + r * 2 + s / 16) ∷ []
join_32 (p ∷ q ∷ r ∷ s ∷ t ∷ []) =
    (p * 8 + q / 4) ∷ (q % 4 * 64 + r * 2 + s / 16) ∷ (s % 16 * 16 + t / 2) ∷ []
join_32 (p ∷ q ∷ r ∷ s ∷ t ∷ u ∷ v ∷ []) =
    (p * 8 + q / 4)
    ∷ (q % 4 * 64 + r * 2 + s / 16)
    ∷ (s % 16 * 16 + t / 2)
    ∷ (t % 2 * 128 + u * 4 + v / 8)
    ∷ []
join_32 _ = []

abbrev pub padding : ℕ → ℕ
padding n = (8 - n % 8) % 8

-- The numbers of padding characters that `b32decode` accepts.
abbrev pub is_padding : ℕ → Bool
is_padding n = (n == 0 || n == 1) || ((n == 3 || n == 4) || n == 6)

-- `b32decode` of a text with its padding added; `none` is an error.
unfoldable pub decode_32 : Text → Option (List ℕ)
unfolding values_32 value_32 join_32 strip_right
decode_32 text =
    let body = strip_right (λ c. c == b'=') text in
    if is_padding (length text + padding (length text) - length body)
    then (elim (values_32 body) [ none ↦ none | some vs ↦ some (join_32 vs) ])
    else none

abbrev pub is_canonical : Text → Bool
is_canonical text =
    not (is_blank text)
    && (all is_low_hex text && (length text == min_hex || length text == max_hex))

unfoldable pub from_text : Platform → Text → Result Text
unfolding decode_32 hex_of all is_low_hex
from_text py text =
    if is_canonical text
    then ok text
    else elim (decode_32 (upper py text)) [ none ↦ error bad_label | some raw ↦ ok (hex_of raw) ]

unfoldable pub clientid_from_dns_label : Platform → Text → Result Text
unfolding from_text
clientid_from_dns_label py label = from_text py (lower py (strip label))
