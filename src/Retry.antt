-- ===== src/Retry.antt =====
-- app/db_retry.py: `retry_on_locked`. The function that is run is a sequence of outcomes, one for each
-- call; times are in milliseconds, and the random part of a delay is left out.
pub mod Outcomes
mod Tests
use alderpoint_dns.Base.{
  ℕ, zero, suc, ◌*◌, ◌^◌, Text, codes, Bool, true, false, ◌||◌, Option, none, some, List, [], ◌∷◌,
  ltb, if◌then◌else◌,
}
use alderpoint_dns.Base.Str.{has}
use alderpoint_dns.Platform.{Platform, lower}

-- An error of sqlite3 with its text, or any other exception.
pub data Failure : Type 0 where
  operational : Text → Failure
  other : Text → Failure

pub data Outcome (A : Type 0) : Type 0 where
  returned : A → Outcome A
  raised : Failure → Outcome A

-- What the call of `retry_on_locked` ends with: a value, an exception that is passed on, or
-- `DatabaseBusyError` with the text of the last error.
pub data Ending (A : Type 0) : Type 0 where
  value : A → Ending A
  passed_on : Failure → Ending A
  busy : Option Text → Ending A

unfoldable pub is_lock_error : Platform → Failure → Bool
is_lock_error py (operational text) =
    has (codes "locked") (lower py text) || has (codes "busy") (lower py text)
is_lock_error py (other text) = false

abbrev pub text_of : Failure → Text
text_of (operational text) = text
text_of (other text) = text

abbrev pub default_attempts : ℕ
default_attempts = 5

module _ (py : Platform) {A : Type 0} (func : ℕ → Outcome A) (base_delay max_delay : ℕ) where
  abbrev pub delay : ℕ → ℕ
  delay attempt =
      if ltb (base_delay * 2 ^ attempt) max_delay then base_delay * 2 ^ attempt else max_delay

  -- A sleep before the next attempt, if there is one.
  abbrev pub sleep_before : ℕ → ℕ → List ℕ → List ℕ
  sleep_before attempt zero sleeps = sleeps
  sleep_before attempt (suc _) sleeps = delay attempt ∷ sleeps

  -- What one attempt makes of what the later ones give.
  unfoldable pub attempt_once : ℕ → ℕ → Outcome A → Ending A × List ℕ → Ending A × List ℕ
  unfolding is_lock_error
  attempt_once attempt left (returned a) later = (value a, [])
  attempt_once attempt left (raised e) later =
      if is_lock_error py e then (later.0, sleep_before attempt left later.1) else (passed_on e, [])

  abbrev pub message_of : Outcome A → Option Text
  message_of (returned _) = none
  message_of (raised e) = some (text_of e)

  -- The attempts from one on, of which some are left; the ending and the sleeps.
  unfoldable pub attempts_from : ℕ → ℕ → Option Text → Ending A × List ℕ
  unfolding attempt_once
  attempts_from attempt zero last = (busy last, [])
  attempts_from attempt (suc left) last =
      attempt_once attempt left (func attempt)
        (attempts_from (suc attempt) left (message_of (func attempt)))

  unfoldable pub retry_on_locked : ℕ → Ending A × List ℕ
  unfolding attempts_from
  retry_on_locked attempts = attempts_from 0 attempts none
