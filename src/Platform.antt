-- ===== src/Platform.antt =====
-- What the program takes from outside this repository: the Unicode tables behind `str.lower`,
-- `str.upper` and `str.isalnum` beyond ASCII, the `idna` codec, and the engine of `re`.
use alderpoint_dns.Base.{false, none, some, ℕ, Text, Bool, Option, map, all, ltb, if◌then◌else◌}
use alderpoint_dns.Base.Str.{is_digit, is_letter, lower_ascii, upper_ascii}
use mathlib.Core.Bool.{◌||◌}

pub record Platform : Type 0 where
  -- `s.lower()` and `s.upper()` of a text that is not ASCII, `c.isalnum()` of such a character.
  pub wide_lower : Text → Text
  pub wide_upper : Text → Text
  pub wide_alnum : ℕ → Bool
  -- `s.encode("idna").decode("ascii")`; `none` is a UnicodeError.
  pub idna : Text → Option Text
  -- The message of the `re.error` that `re.compile` raises, if it does.
  pub compile_error : Text → Option Text
  -- `re.search(pattern, name, re.IGNORECASE) is not None`
  pub search : Text → Text → Bool

unfoldable pub is_ascii : Text → Bool
unfolding all
is_ascii = all (λ c. ltb c 128)

module _ (py : Platform) where
  unfoldable pub lower : Text → Text
  unfolding is_ascii lower_ascii
  lower s = if is_ascii s then map lower_ascii s else py.wide_lower s

  unfoldable pub upper : Text → Text
  unfolding is_ascii upper_ascii
  upper s = if is_ascii s then map upper_ascii s else py.wide_upper s

  unfoldable pub is_alnum : ℕ → Bool
  unfolding is_digit is_letter
  is_alnum c = if ltb c 128 then is_digit c || is_letter c else py.wide_alnum c

-- A machine on which only ASCII occurs and no pattern is rejected.
abbrev pub plain_python : Platform
plain_python = record {
  wide_lower = λ s. s;
  wide_upper = λ s. s;
  wide_alnum = λ c. false;
  idna = λ s. some s;
  compile_error = λ p. none;
  search = λ p s. false;
}
