-- ===== src/Domain.antt =====
-- app/alderpointdns_compiler.py: `normalize_domain` and the tests on texts beside it.
pub mod Valid
pub mod Plain
use alderpoint_dns.Base.{
  ℕ, Text, codes, Bool, true, false, not, ◌&&◌, ◌||◌, Option, none, some, List, [], ◌∷◌, ◌++◌,
  length, all, ltb, leb, ◌==◌, if◌then◌else◌,
}
use alderpoint_dns.Base.Str.{is_digit, strip, strip_by, has, mem_char, split}
use alderpoint_dns.Net.{Address, ip_address}
use alderpoint_dns.Platform.{Platform, is_ascii, lower}

-- `[a-z0-9_]` and `[a-z0-9_-]` of DOMAIN_RE.
unfoldable pub is_edge_char : ℕ → Bool
is_edge_char c = (leb 97 c && leb c 122) || ((leb 48 c && leb c 57) || c == 95)

unfoldable pub is_label_char : ℕ → Bool
unfolding is_edge_char
is_label_char c = is_edge_char c || c == 45

unfoldable pub last_char : ℕ → Text → ℕ
last_char c [] = c
last_char c (d ∷ s) = last_char d s

-- `[a-z0-9_](?:[a-z0-9_-]{0,61}[a-z0-9_])?`
unfoldable pub is_label : Text → Bool
unfolding is_label_char last_char all
is_label [] = false
is_label (c ∷ s) =
    (is_edge_char c && is_edge_char (last_char c s)) && (all is_label_char s && ltb (length s) 63)

abbrev has_two {ℓ} : {A : Type ℓ} → List A → Bool
has_two (_ ∷ _ ∷ _) = true
has_two _ = false

-- `DOMAIN_RE.match(value + ".")`, for a value that does not end in a dot: two labels or more, with
-- dots between them, in at most 253 characters.
unfoldable pub matches_domain_re : Text → Bool
unfolding is_label all split
matches_domain_re value =
    leb (length value) 253 && (has_two (split b'.' value) && all is_label (split b'.' value))

abbrev is_nonempty : Text → Bool
is_nonempty [] = false
is_nonempty (_ ∷ _) = true

unfoldable pub looks_like_ip_literal : Text → Bool
unfolding mem_char all is_digit split
looks_like_ip_literal value =
    if mem_char b':' value
    then true
    else if not (mem_char b'.' value)
    then false
    else all (λ part. not (is_nonempty part) || all is_digit part) (split b'.' value)

abbrev is_address : Text → Bool
is_address value = elim (ip_address value) [ some _ ↦ true | none ↦ false ]

-- The end of `normalize_domain`, from the test against DOMAIN_RE on.
unfoldable pub accept_ascii : Text → Option Text
accept_ascii value =
    if not (matches_domain_re value)
    then none
    else if looks_like_ip_literal value && is_address value
    then none
    else some value

unfoldable pub normalize_domain : Platform → Text → Option Text
normalize_domain py raw =
    let value = lower py (strip_by (λ c. c == b'.') (strip raw)) in
    if not (is_nonempty value) || ltb 253 (length value)
    then none
    else if has (codes "://") value
        || (mem_char b'/' value || (mem_char b':' value || mem_char b'@' value))
    then none
    else if is_ascii value
    then accept_ascii value
    else elim (py.idna value) [ none ↦ none | some ascii ↦ accept_ascii ascii ]
