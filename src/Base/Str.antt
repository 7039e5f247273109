-- ===== src/Base/Str.antt =====
-- The methods of `str` that the program calls, on lists of code points.
use Prim.Native.Nat.{ℕ, zero, suc, ◌+◌, ◌-◌}
use mathlib.Core.Bool.{Bool, true, false, ◌&&◌, ◌||◌}
use mathlib.Core.Option.{Option, none, some}
use mathlib.Core.List.{List, [], ◌∷◌, ◌++◌, reverse}
use alderpoint_dns.Base.Tests.{◌==◌, ltb, leb, if◌then◌else◌}
use alderpoint_dns.Base.Texts.{Text}

-- `str.isspace`, the white space of Unicode.
unfoldable pub is_space : ℕ → Bool
is_space c =
    (leb 9 c && leb c 13)
    || ((leb 28 c && leb c 32)
        || (c == 133
            || (c == 160
                || (c == 5760
                    || ((leb 8192 c && leb c 8202)
                        || (c == 8232
                            || (c == 8233 || (c == 8239 || (c == 8287 || c == 12288)))))))))

unfoldable pub starts_with : Text → Text → Bool
starts_with [] s = true
starts_with (p ∷ ps) [] = false
starts_with (p ∷ ps) (c ∷ cs) = p == c && starts_with ps cs

unfoldable pub ends_with : Text → Text → Bool
unfolding starts_with
ends_with p s = starts_with (reverse p) (reverse s)

unfoldable pub mem_char : ℕ → Text → Bool
mem_char c [] = false
mem_char c (d ∷ s) = c == d || mem_char c s

-- `p in s`
unfoldable pub has : Text → Text → Bool
unfolding starts_with
has p [] = starts_with p []
has p (c ∷ s) = starts_with p (c ∷ s) || has p s

-- `lstrip` and `rstrip` of the characters that pass a test.
unfoldable pub strip_left : (ℕ → Bool) → Text → Text
strip_left p [] = []
strip_left p (c ∷ s) = let rest = strip_left p s in if p c then rest else c ∷ s

unfoldable pub strip_right : (ℕ → Bool) → Text → Text
unfolding strip_left
strip_right p s = reverse (strip_left p (reverse s))

unfoldable pub strip_by : (ℕ → Bool) → Text → Text
unfolding strip_right
strip_by p s = strip_right p (strip_left p s)

unfoldable pub strip : Text → Text
unfolding strip_by is_space
strip = strip_by is_space

-- `drop s n` is `s[n:]`.
unfoldable pub drop : ℕ → Text → Text
drop zero s = s
drop (suc n) [] = []
drop (suc n) (c ∷ s) = drop n s

unfoldable pub take : ℕ → Text → Text
take zero s = []
take (suc n) [] = []
take (suc n) (c ∷ s) = c ∷ take n s

-- `s[:-1]`
unfoldable pub drop_last : Text → Text
drop_last [] = []
drop_last (c ∷ []) = []
drop_last (c ∷ d ∷ s) = c ∷ drop_last (d ∷ s)

unfoldable pub char_at : Text → ℕ → Option ℕ
char_at [] i = none
char_at (c ∷ s) zero = some c
char_at (c ∷ s) (suc i) = char_at s i

-- `s.partition(c)` without the separator; the flag says whether it was there.
unfoldable pub partition : ℕ → Text → Text × Bool × Text
partition c [] = ([], false, [])
partition c (d ∷ s) =
    let (head, found, rest) = partition c s in
    if c == d then ([], true, s) else (d ∷ head, found, rest)

-- `s.find(c)`
unfoldable pub find : ℕ → Text → Option ℕ
find c [] = none
find c (d ∷ s) =
    let later = find c s in
    if c == d then some 0 else elim later [ none ↦ none | some i ↦ some (suc i) ]

-- Puts a character in front of the first piece.
abbrev pub onto : ℕ → List Text → List Text
onto c [] = (c ∷ []) ∷ []
onto c (p ∷ ps) = (c ∷ p) ∷ ps

-- `s.split(c)`
unfoldable pub split : ℕ → Text → List Text
split c [] = [] ∷ []
split c (d ∷ s) = let rest = split c s in if c == d then [] ∷ rest else onto d rest

abbrev nonempty_pieces : List Text → List Text
nonempty_pieces [] = []
nonempty_pieces ([] ∷ ps) = nonempty_pieces ps
nonempty_pieces ((c ∷ p) ∷ ps) = (c ∷ p) ∷ nonempty_pieces ps

split_space : Text → List Text
unfolding is_space
split_space [] = [] ∷ []
split_space (d ∷ s) = let rest = split_space s in if is_space d then [] ∷ rest else onto d rest

-- `s.split()`
unfoldable pub words : Text → List Text
unfolding split_space
words s = nonempty_pieces (split_space s)

-- A line ends at any of the characters at which `splitlines` breaks; `\r\n` is one break.
unfoldable pub is_break : ℕ → Bool
is_break c =
    (leb 10 c && leb c 13) || ((leb 28 c && leb c 30) || (c == 133 || (c == 8232 || c == 8233)))

split_breaks : Bool → Text → List Text
unfolding is_break
split_breaks after_cr [] = [] ∷ []
split_breaks after_cr (d ∷ s) =
    let rest = split_breaks (d == 13) s in
    if after_cr && d == 10 then rest else if is_break d then [] ∷ rest else onto d rest

drop_end : List Text → List Text
drop_end [] = []
drop_end (p ∷ q ∷ ps) = p ∷ drop_end (q ∷ ps)
drop_end ([] ∷ []) = []
drop_end ((c ∷ p) ∷ []) = (c ∷ p) ∷ []

-- `s.splitlines()`: no last line after a break at the end.
unfoldable pub split_lines : Text → List Text
unfolding split_breaks drop_end
split_lines s = drop_end (split_breaks false s)

unfoldable pub join : Text → List Text → Text
join sep [] = []
join sep (p ∷ []) = p
join sep (p ∷ q ∷ ps) = p ++ sep ++ join sep (q ∷ ps)

unfoldable pub is_digit : ℕ → Bool
is_digit c = leb 48 c && leb c 57

unfoldable pub is_hex : ℕ → Bool
unfolding is_digit
is_hex c = is_digit c || ((leb 97 c && leb c 102) || (leb 65 c && leb c 70))

unfoldable pub is_letter : ℕ → Bool
is_letter c = (leb 97 c && leb c 122) || (leb 65 c && leb c 90)

unfoldable pub is_control : ℕ → Bool
is_control c = ltb c 32 || c == 127

unfoldable pub lower_ascii : ℕ → ℕ
lower_ascii c = if leb 65 c && leb c 90 then c + 32 else c

unfoldable pub upper_ascii : ℕ → ℕ
upper_ascii c = if leb 97 c && leb c 122 then c - 32 else c
