-- ===== src/Net.antt =====
-- `ipaddress.ip_address` of Python and the text of the addresses that it returns, which every
-- component below calls.
pub mod Network
use mathlib.Core.Bool.{false≢true}
use alderpoint_dns.Base.{
  ℕ, zero, suc, ◌+◌, ◌-◌, ◌*◌, ◌/◌, ◌%◌, Text, codes, Bool, true, false, not, ◌&&◌, ◌||◌, Option,
  none, some, List, [], ◌∷◌, ◌++◌, map, length, all, ltb, leb, ◌==◌, if◌then◌else◌, ◌≡◌, refl,
  if_ind, arith,
}
use alderpoint_dns.Base.Str.{is_digit, is_hex, split, partition, mem_char, join}

-- An IPv6 address is its eight groups of 16 bits, the first one apart, and a scope.
pub data Address : Type 0 where
  v4 : ℕ → Address
  v6 : ℕ → List ℕ → Option Text → Address

infixl 5 ◌>>=◌
abbrev ◌>>=◌ : {A B : Type 0} → Option A → (A → Option B) → Option B
none >>= f = none
some a >>= f = f a

unfoldable pub value_of : ℕ → Text → ℕ → ℕ
value_of base [] n = n
value_of base (c ∷ s) n =
    value_of base s (n * base + (if leb 97 c then c - 87 else if leb 65 c then c - 55 else c - 48))

-- An octet: one to three digits, no leading zero, at most 255.
octet : Text → Option ℕ
unfolding value_of is_digit all
octet [] = none
octet (c ∷ s) =
    let n = value_of 10 (c ∷ s) 0 in
    if not (all is_digit (c ∷ s)) || ltb 3 (length (c ∷ s))
    then none
    else if (c == 48 && ltb 0 (length s)) || ltb 255 n
    then none
    else some n

octets : List Text → Option ℕ
unfolding octet
octets (p ∷ q ∷ r ∷ s ∷ []) = do
  a ← octet p
  b ← octet q
  c ← octet r
  d ← octet s
  some (((a * 256 + b) * 256 + c) * 256 + d)
octets _ = none

unfoldable pub parse_v4 : Text → Option ℕ
unfolding octets split
parse_v4 s = octets (split b'.' s)

hextet : Text → Option ℕ
unfolding value_of is_hex all
hextet s =
    if not (all is_hex s) || (ltb 4 (length s) || length s == 0)
    then none
    else some (value_of 16 s 0)

hextets : List Text → Option (List ℕ)
unfolding hextet
hextets [] = some []
hextets (p ∷ ps) = do n ← hextet p; ns ← hextets ps; some (n ∷ ns)

zeros : ℕ → List ℕ
zeros zero = []
zeros (suc n) = 0 ∷ zeros n

-- The pieces before the first empty one that is not the last, and those after it.
gap : List Text → Option (List Text × List Text)
gap [] = none
gap (p ∷ []) = none
gap ([] ∷ q ∷ qs) = some ([], q ∷ qs)
gap ((c ∷ p) ∷ q ∷ qs) = elim (gap (q ∷ qs)) [
  | none ↦ none
  | some (high, low) ↦ some ((c ∷ p) ∷ high, low)
]

-- An empty piece at an end of the address belongs to the `::`.
high_part : Text → List Text → Option (List Text)
high_part [] [] = some []
high_part [] (_ ∷ _) = none
high_part (c ∷ p) ps = some ((c ∷ p) ∷ ps)

ends_empty : List Text → Bool
ends_empty [] = false
ends_empty ([] ∷ []) = true
ends_empty ((_ ∷ _) ∷ []) = false
ends_empty (_ ∷ q ∷ qs) = ends_empty (q ∷ qs)

low_part : List Text → Option (List Text)
unfolding ends_empty
low_part (p ∷ []) = if length p == 0 then some [] else some (p ∷ [])
low_part ps = if ends_empty ps then none else some ps

-- `::` stands for at least one group.
fill : List Text → List Text → Option (List ℕ)
unfolding hextets zeros
fill high low =
    let n = length high + length low in
    if ltb n 8 then (do a ← hextets high; b ← hextets low; some (a ++ zeros (8 - n) ++ b)) else none

groups_around : Text → List Text × List Text → Option (List ℕ)
unfolding fill high_part low_part gap
groups_around first (before, after) = elim (gap after) [
  | some _ ↦ none
  | none ↦ (do high ← high_part first before; low ← low_part after; fill high low)
]

groups : List Text → Option (List ℕ)
unfolding hextets gap groups_around
groups [] = none
groups (p ∷ ps) = if ltb 9 (length (p ∷ ps)) then none else elim (gap ps) [
  | some halves ↦ groups_around p halves
  | none ↦ if length (p ∷ ps) == 8 then hextets (p ∷ ps) else none
]

hex_digit : ℕ → ℕ
hex_digit d = if ltb d 10 then d + 48 else d + 87

-- A group in lower-case digits with no leading zero.
hex : ℕ → Text
unfolding hex_digit
hex n =
    if ltb n 16
    then hex_digit n ∷ []
    else if ltb n 256
    then hex_digit (n / 16) ∷ hex_digit (n % 16) ∷ []
    else if ltb n 4096
    then hex_digit (n / 256) ∷ hex_digit (n / 16 % 16) ∷ hex_digit (n % 16) ∷ []
    else hex_digit (n / 4096)
      ∷ hex_digit (n / 256 % 16)
      ∷ hex_digit (n / 16 % 16)
      ∷ hex_digit (n % 16)
      ∷ []

-- A final IPv4 address is written as two groups.
expand_v4 : List Text → Option (List Text)
unfolding parse_v4 hex
expand_v4 [] = some []
expand_v4 (p ∷ []) =
    if mem_char b'.' p
    then (do n ← parse_v4 p; some (hex (n / 65536) ∷ hex (n % 65536) ∷ []))
    else some (p ∷ [])
expand_v4 (p ∷ q ∷ ps) = do rest ← expand_v4 (q ∷ ps); some (p ∷ rest)

parse_groups : Text → Option (List ℕ)
unfolding groups expand_v4 split mem_char
parse_groups s =
    let parts = split b':' s in
    if ltb (length parts) 3 then none else (do ps ← expand_v4 parts; groups ps)

address_of : List ℕ → Option Text → Option Address
address_of [] scope = none
address_of (g ∷ gs) scope = some (v6 g gs scope)

unfoldable pub parse_v6 : Text → Option Address
unfolding parse_groups partition address_of
parse_v6 s =
    let (address, scoped, scope) = partition b'%' s in
    if scoped
    then (if length scope == 0 || mem_char b'%' scope
        then none
        else (do gs ← parse_groups address; address_of gs (some scope)))
    else (do gs ← parse_groups address; address_of gs none)

-- `ipaddress.ip_address`; `none` is its ValueError.
unfoldable pub ip_address : Text → Option Address
unfolding parse_v4 parse_v6
ip_address s =
    if mem_char b'/' s then none else elim (parse_v4 s) [ some n ↦ some (v4 n) | none ↦ parse_v6 s ]

unfoldable pub decimal : ℕ → Text
decimal n =
    if ltb n 10
    then (n + 48) ∷ []
    else if ltb n 100
    then (n / 10 + 48) ∷ (n % 10 + 48) ∷ []
    else (n / 100 + 48) ∷ (n / 10 % 10 + 48) ∷ (n % 10 + 48) ∷ []

-- The number of zero groups at the front.
run : List ℕ → ℕ
run [] = 0
run (g ∷ gs) = let rest = run gs in if g == 0 then suc rest else 0

-- The start and the length of the first longest run of zero groups.
longest : ℕ → List ℕ → ℕ × ℕ
unfolding run
longest i [] = (i, 0)
longest i (g ∷ gs) =
    let (j, n) = longest (i + 1) gs in
    let here = run (g ∷ gs) in if ltb here n then (j, n) else (i, here)

drop_groups : ℕ → List ℕ → List ℕ
drop_groups zero gs = gs
drop_groups (suc n) [] = []
drop_groups (suc n) (_ ∷ gs) = drop_groups n gs

take_groups : ℕ → List ℕ → List ℕ
take_groups zero gs = []
take_groups (suc n) [] = []
take_groups (suc n) (g ∷ gs) = g ∷ take_groups n gs

join_groups : List ℕ → Text
join_groups gs = join (codes ":") (map hex gs)

compress : ℕ → ℕ → List ℕ → Text
compress i n gs =
    join_groups (take_groups i gs) ++ (codes "::" ++ join_groups (drop_groups (i + n) gs))

-- Two or more zero groups are written `::`.
show_groups : List ℕ → Text
show_groups gs = let (i, n) = longest 0 gs in if ltb n 2 then join_groups gs else compress i n gs

-- `str(address)`
pub show_address : Address → Text
show_address (v4 n) =
    join (codes ".") (map decimal (n / 16777216 ∷ n / 65536 % 256 ∷ n / 256 % 256 ∷ n % 256 ∷ []))
show_address (v6 g gs none) = show_groups (g ∷ gs)
show_address (v6 g gs (some scope)) = show_groups (g ∷ gs) ++ codes "%" ++ scope

unfoldable pub is_v4 : Address → Bool
is_v4 (v4 _) = true
is_v4 (v6 _ _ _) = false

abbrev pub is_written : Text → Bool
is_written [] = false
is_written (_ ∷ _) = true

append-is_written : (s t : Text) → is_written t ≡ true → is_written (s ++ t) ≡ true
append-is_written [] t h = h
append-is_written (_ ∷ _) t h = refl

is_written-append : (s t : Text) → is_written s ≡ true → is_written (s ++ t) ≡ true
is_written-append (_ ∷ _) t h = refl
is_written-append [] t h = absurd (false≢true h)

hex-is_written : (n : ℕ) → is_written (hex n) ≡ true
unfolding hex
hex-is_written n = ground arith

join-is_written :
    (sep p : Text) (ps : List Text) → is_written p ≡ true → is_written (join sep (p ∷ ps)) ≡ true
unfolding join
join-is_written sep p [] h = h
join-is_written sep p (q ∷ ps) h = is_written-append (p ++ sep) _ (is_written-append p sep h)

decimal-is_written : (n : ℕ) → is_written (decimal n) ≡ true
unfolding decimal
decimal-is_written n = ground arith

compress-is_written : (i n : ℕ) (gs : List ℕ) → is_written (compress i n gs) ≡ true
unfolding compress
compress-is_written i n gs = append-is_written (join_groups (take_groups i gs)) _ refl

show_groups-is_written : (g : ℕ) (gs : List ℕ) → is_written (show_groups (g ∷ gs)) ≡ true
unfolding show_groups join_groups
show_groups-is_written g gs =
    let (i, n) = longest 0 (g ∷ gs) in
    if_ind (λ s. is_written s ≡ true) (ltb n 2) {x = join_groups (g ∷ gs)}
      {y = compress i n (g ∷ gs)}
      (λ _. join-is_written (codes ":") (hex g) (map hex gs) (hex-is_written g))
      (λ _. compress-is_written i n (g ∷ gs))

-- The text of an address is not empty.
pub show_address-is_written : (a : Address) → is_written (show_address a) ≡ true
unfolding show_address
show_address-is_written (v4 n) =
    join-is_written (codes ".") (decimal (n / 16777216)) _ (decimal-is_written (n / 16777216))
show_address-is_written (v6 g gs none) = show_groups-is_written g gs
show_address-is_written (v6 g gs (some scope)) =
    is_written-append (show_groups (g ∷ gs) ++ codes "%") _
      (is_written-append (show_groups (g ∷ gs)) _ (show_groups-is_written g gs))

canonical : Text → Option Text
unfolding ip_address show_address decimal show_groups join_groups compress longest take_groups
    drop_groups hex join
canonical s = do a ← ip_address s; some (show_address a)

ip_address_tests :
    (canonical (codes "192.168.1.30") ≡ some (codes "192.168.1.30"))
    × (canonical (codes "192.168.01.30") ≡ none)
    × (canonical (codes "::") ≡ some (codes "::"))
    × (canonical (codes "FE80:0:0:0:1:0:0:1%eth0") ≡ some (codes "fe80::1:0:0:1%eth0"))
    × (canonical (codes "::ffff:1.2.3.4") ≡ some (codes "::ffff:102:304"))
    × (canonical (codes "1::2::3") ≡ none)
    × (canonical (codes ":1:2:3:4:5:6:7") ≡ none)
    × (canonical (codes "1:2:3:4:5:6:7::") ≡ some (codes "1:2:3:4:5:6:7:0"))
unfolding canonical
ip_address_tests = (refl, refl, refl, refl, refl, refl, refl, refl)
