-- ===== src/Clients/Labels/Roundtrip.antt =====
-- A ClientID comes back from its DNS label.
use alderpoint_dns.Base.{
  ℕ, ◌+◌, ◌-◌, Text, Bool, true, false, not, ◌&&◌, ◌||◌, some, List, [], ◌∷◌, length, all, All, map,
  ltb, leb, ◌==◌, ◌≡◌, refl, ◌∙◌, arith, Bool-cases, inl, inr,
}
use alderpoint_dns.Base.Results.{ok}
use alderpoint_dns.Base.Str.{is_digit, is_space, upper_ascii, lower_ascii, strip, strip_right}
use alderpoint_dns.Base.Strip.{all_weaken, map_self, strip_right_self, strip_self}
use alderpoint_dns.Platform.{Platform, is_ascii, lower, upper}
use alderpoint_dns.Clients.Identifiers.{is_low_hex, check_clientid}
use alderpoint_dns.Clients.Labels.{
  bytes_of, char_32, quintets, encode_32, join_32, decode_32, clientid_dns_label, from_text,
  clientid_from_dns_label, is_canonical, is_padding, padding,
}
use alderpoint_dns.Clients.Labels.Digits.{
  IsFive, hex_of-bytes_of, bytes_of-IsByte, length-bytes_of, length-quintets, quintets-IsFive,
  join_32-quintets, values_32-char_32,
}

-- The characters of ClientIDs and of labels.
is_label_char : ℕ → Bool
is_label_char c = (leb 97 c && leb c 122) || (leb 48 c && leb c 57)

low_hex_label : (c : ℕ) → is_low_hex c ≡ true → is_label_char c ≡ true
unfolding is_low_hex is_digit is_label_char
low_hex_label c h = ground arith

label_char_32 : (vs : List ℕ) → All IsFive vs → all is_label_char (map char_32 vs) ≡ true
unfolding all char_32 is_label_char
label_char_32 [] h = refl
label_char_32 (v ∷ vs) h = ground (arith, h.0, label_char_32 vs h.1)

no_equals :
    (s : Text) → all is_label_char s ≡ true → all (λ c. not (c == b'=')) (map upper_ascii s) ≡ true
unfolding all is_label_char upper_ascii
no_equals [] h = refl
no_equals (c ∷ s) h = ground (arith, h, no_equals s)

length-map : (f : ℕ → ℕ) (s : List ℕ) → length (map f s) ≡ length s
length-map f [] = refl
length-map f (c ∷ s) = omega (arith, length-map f s)

module _ (py : Platform) (s : Text) (h : all is_label_char s ≡ true) where
  ascii : is_ascii s ≡ true
  unfolding is_ascii is_label_char
  ascii = all_weaken is_label_char (λ c. ltb c 128) (λ c k. ground (arith, k)) s h

  lower_label : lower py s ≡ s
  unfolding lower lower_ascii is_label_char
  lower_label = rw ascii (map_self is_label_char lower_ascii (λ c k. ground (arith, k)) s h)

  upper_label : upper py s ≡ map upper_ascii s
  unfolding upper
  upper_label = rw ascii refl

  strip_label : strip s ≡ s
  unfolding is_space is_label_char
  strip_label =
      strip_self s (all_weaken is_label_char (λ c. not (is_space c)) (λ c k. ground (arith, k)) s h)

  -- The upper-case digits hold no padding.
  no_padding : strip_right (λ c. c == b'=') (map upper_ascii s) ≡ map upper_ascii s
  no_padding = strip_right_self (λ c. c == b'=') (map upper_ascii s) (no_equals s h)

-- A text whose length leaves a whole padding is decoded from its digits.
decode_digits :
    (vs : List ℕ)
    → All IsFive vs
    → is_padding (length vs + padding (length vs) - length vs) ≡ true
    → decode_32 (map upper_ascii (map char_32 vs)) ≡ some (join_32 vs)
unfolding decode_32 join_32
decode_digits vs h p =
    let n : length (map upper_ascii (map char_32 vs)) ≡ length vs =
      length-map upper_ascii (map char_32 vs) ∙ length-map char_32 vs in
    let body =
      strip_right_self (λ c. c == b'=') (map upper_ascii (map char_32 vs))
        (no_equals (map char_32 vs) (label_char_32 vs h)) in
    rw (body, n, p, values_32-char_32 vs h) refl

module _ (py : Platform) (value : Text) (digits : all is_low_hex value ≡ true) where
  hex_label : all is_label_char value ≡ true
  hex_label = all_weaken is_low_hex is_label_char low_hex_label value digits

  -- After stripping and lowering, which change nothing.
  from_label :
      (label : Text)
      → all is_label_char label ≡ true
      → clientid_from_dns_label py label ≡ from_text py label
  unfolding clientid_from_dns_label
  from_label label h = rw (strip_label py label h, lower_label py label h) refl

  short : length value ≡ 48 → clientid_from_dns_label py (clientid_dns_label value) ≡ ok value
  unfolding clientid_dns_label from_text
  short n = rw n (from_label value hex_label ∙ rw (canonical value digits n) refl)
    where
      canonical : (v : Text) → all is_low_hex v ≡ true → length v ≡ 48 → is_canonical v ≡ true
      canonical [] h e = absurd (omega (arith, e))
      canonical (c ∷ cs) h e = ground (arith, h, e)

  vs : List ℕ
  vs = quintets (bytes_of value)

  vs-IsFive : All IsFive vs
  unfolding vs
  vs-IsFive = quintets-IsFive (bytes_of value) (bytes_of-IsByte value digits)

  length-vs : length value ≡ 64 → length vs ≡ 52
  unfolding vs
  length-vs n = omega (arith, length-quintets (bytes_of value), length-bytes_of value)

  not_canonical : length value ≡ 64 → is_canonical (map char_32 vs) ≡ false
  not_canonical n =
      let m : length (map char_32 vs) ≡ 52 = length-map char_32 vs ∙ length-vs n in
      ground (arith, m)

  long : length value ≡ 64 → clientid_from_dns_label py (clientid_dns_label value) ≡ ok value
  unfolding clientid_dns_label encode_32 from_text vs
  long n = rw n (
      from_label (map char_32 vs) (label_char_32 vs vs-IsFive)
      ∙ rw
          (
            not_canonical n,
            upper_label py (map char_32 vs) (label_char_32 vs vs-IsFive),
            decode_digits vs vs-IsFive (rw (length-vs n) refl),
            join_32-quintets (bytes_of value) (bytes_of-IsByte value digits),
            hex_of-bytes_of value digits (omega (arith, n)),
          )
          refl)

-- The DNS label of a text that passes the checks of a ClientID, of 48 or 64 characters, is read
-- back as that text.
pub clientid_from_dns_label-clientid_dns_label :
    (py : Platform) (value : Text)
    → check_clientid value ≡ ok value
    → clientid_from_dns_label py (clientid_dns_label value) ≡ ok value
unfolding check_clientid
clientid_from_dns_label-clientid_dns_label py value h = elim (Bool-cases (length value == 48)) [
  | inl e ↦ short py value (ground (arith, h)) (ground (arith, e))
  | inr e ↦ long py value (ground (arith, h)) (ground (arith, h, e))
]
