-- ===== src/Clients/Labels/Digits.antt =====
-- Hexadecimal digits, groups of five bits, and their characters.
use alderpoint_dns.Base.{
  ℕ, ◌+◌, ◌*◌, ◌/◌, ◌%◌, ◌<◌, Text, true, some, List, [], ◌∷◌, length, all, All, map, ◌≡◌, refl, ap,
  arith,
}
use alderpoint_dns.Base.Str.{is_digit, upper_ascii}
use alderpoint_dns.Clients.Identifiers.{is_low_hex}
use alderpoint_dns.Clients.Labels.{
  nibble, hex_char, bytes_of, hex_of, char_32, quintets, value_32, values_32, join_32,
}

nibble_lem : (c : ℕ) → is_low_hex c ≡ true → (nibble c < 16) × (hex_char (nibble c) ≡ c)
unfolding nibble hex_char is_low_hex is_digit
nibble_lem c h = ground arith

abbrev pub IsByte : ℕ → Type 0
IsByte b = b < 256

bytes_of_two :
    (a b : ℕ)
    → a < 16
    → b < 16
    → ((a * 16 + b) / 16 ≡ a) × ((a * 16 + b) % 16 ≡ b) × IsByte (a * 16 + b)
bytes_of_two a b h k = omega arith

-- Of an even number of digits.
pub hex_of-bytes_of :
    (s : Text) → all is_low_hex s ≡ true → length s % 2 ≡ 0 → hex_of (bytes_of s) ≡ s
unfolding hex_of bytes_of all
hex_of-bytes_of [] h e = refl
hex_of-bytes_of (a ∷ []) h e = absurd (omega (arith, e))
hex_of-bytes_of (a ∷ b ∷ s) h e =
    let x = nibble_lem a (ground (arith, h)) in
    let y = nibble_lem b (ground (arith, h)) in
    let z = bytes_of_two (nibble a) (nibble b) x.0 y.0 in
    rw (z.0, z.1, x.1, y.1)
      (ap (λ t. a ∷ b ∷ t) (hex_of-bytes_of s (ground (arith, h)) (omega (arith, e))))

pub bytes_of-IsByte : (s : Text) → all is_low_hex s ≡ true → All IsByte (bytes_of s)
unfolding bytes_of all
bytes_of-IsByte [] h = tt
bytes_of-IsByte (a ∷ []) h = tt
bytes_of-IsByte (a ∷ b ∷ s) h =
    let x = nibble_lem a (ground (arith, h)) in
    let y = nibble_lem b (ground (arith, h)) in
    ((bytes_of_two (nibble a) (nibble b) x.0 y.0).2, bytes_of-IsByte s (ground (arith, h)))

pub length-bytes_of : (s : Text) → length (bytes_of s) ≡ length s / 2
unfolding bytes_of
length-bytes_of [] = omega arith
length-bytes_of (a ∷ []) = omega arith
length-bytes_of (a ∷ b ∷ s) = omega (arith, length-bytes_of s)

pub length-quintets : (bs : List ℕ) → length (quintets bs) ≡ (length bs * 8 + 4) / 5
unfolding quintets
length-quintets [] = omega arith
length-quintets (a ∷ []) = omega arith
length-quintets (a ∷ b ∷ []) = omega arith
length-quintets (a ∷ b ∷ c ∷ []) = omega arith
length-quintets (a ∷ b ∷ c ∷ d ∷ []) = omega arith
length-quintets (a ∷ b ∷ c ∷ d ∷ e ∷ rest) = omega (arith, length-quintets rest)

abbrev pub IsFive : ℕ → Type 0
IsFive v = v < 32

pub quintets-IsFive : (bs : List ℕ) → All IsByte bs → All IsFive (quintets bs)
unfolding quintets
quintets-IsFive [] h = tt
quintets-IsFive (a ∷ []) h = omega arith
quintets-IsFive (a ∷ b ∷ []) h = omega arith
quintets-IsFive (a ∷ b ∷ c ∷ []) h = omega arith
quintets-IsFive (a ∷ b ∷ c ∷ d ∷ []) h = omega arith
quintets-IsFive (a ∷ b ∷ c ∷ d ∷ e ∷ rest) (ha, (hb, (hc, (hd, (he, h))))) = (
  omega arith,
  (
    omega arith,
    (
      omega arith,
      (
        omega arith,
        (omega arith, (omega arith, (omega arith, (omega arith, quintets-IsFive rest h)))),
      ),
    ),
  ),
)

-- The bytes of whole and broken groups come back.
pub join_32-quintets : (bs : List ℕ) → All IsByte bs → join_32 (quintets bs) ≡ bs
unfolding quintets join_32
join_32-quintets [] h = refl
join_32-quintets (a ∷ []) h = ground arith
join_32-quintets (a ∷ b ∷ []) h = ground arith
join_32-quintets (a ∷ b ∷ c ∷ []) h = ground arith
join_32-quintets (a ∷ b ∷ c ∷ d ∷ []) h = ground arith
join_32-quintets (a ∷ b ∷ c ∷ d ∷ e ∷ rest) (ha, (hb, (hc, (hd, (he, h))))) =
    ground (arith, join_32-quintets rest h)

value_char : (v : ℕ) → IsFive v → value_32 (upper_ascii (char_32 v)) ≡ some v
unfolding value_32 upper_ascii char_32
value_char v h = ground arith

pub values_32-char_32 :
    (vs : List ℕ) → All IsFive vs → values_32 (map upper_ascii (map char_32 vs)) ≡ some vs
unfolding values_32
values_32-char_32 [] h = refl
values_32-char_32 (v ∷ vs) h = rw (values_32, value_char v h.0, values_32-char_32 vs h.1) refl
