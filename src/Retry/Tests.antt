-- ===== src/Retry/Tests.antt =====
-- Retries of a write that is locked twice, and of one that is always locked.
use alderpoint_dns.Base.{
  ℕ, ◌<◌, codes, true, none, some, [], ◌∷◌, ltb, all, ◌≡◌, refl, arith, if◌then◌else◌,
}
use alderpoint_dns.Base.Str.{has, starts_with, lower_ascii}
use alderpoint_dns.Platform.{plain_python, lower, is_ascii}
use alderpoint_dns.Retry.{
  operational, Outcome, returned, raised, value, busy, is_lock_error, attempt_once, message_of,
  attempts_from, retry_on_locked, default_attempts,
}
use alderpoint_dns.Retry.Outcomes.{settles, delays, retry_on_locked-settles, retry_on_locked_busy}

program : Unit {0}
unfolding all has starts_with lower_ascii lower is_ascii is_lock_error attempt_once attempts_from
    retry_on_locked
program = tt

abbrev locked : Outcome ℕ
locked = raised (operational (codes "database is Locked"))

-- The third call succeeds.
twice_locked : ℕ → Outcome ℕ
twice_locked n = if ltb n 2 then locked else returned 7

always_locked : ℕ → Outcome ℕ
always_locked n = locked

locked_first : (j : ℕ) → j < 2 → settles plain_python twice_locked 50 1000 (twice_locked j) ≡ none
unfolding program twice_locked
locked_first j h = rw (small j h) refl
  where
    small : (j : ℕ) → j < 2 → ltb j 2 ≡ true
    small j h = ground (arith, h)

third_returns : settles plain_python twice_locked 50 1000 (twice_locked 2) ≡ some (value 7)
unfolding program twice_locked
third_returns = refl

-- It is reached after sleeps of 50 and 100 milliseconds.
sleeps : delays plain_python twice_locked 50 1000 0 2 ≡ 50 ∷ 100 ∷ []
sleeps = refl

retry_on_locked-settles_example :
    retry_on_locked plain_python twice_locked 50 1000 default_attempts
    ≡ (value 7, delays plain_python twice_locked 50 1000 0 2)
retry_on_locked-settles_example =
    retry_on_locked-settles plain_python twice_locked 50 1000 default_attempts 2 (value 7)
      (omega arith) locked_first third_returns

locked_always :
    (j : ℕ) → j < 5 → settles plain_python always_locked 50 1000 (always_locked j) ≡ none
unfolding program always_locked
locked_always j h = refl

retry_on_locked_busy_example : retry_on_locked plain_python always_locked 50 1000 5 ≡ (
  busy (message_of plain_python always_locked 50 1000 (always_locked 4)),
  delays plain_python always_locked 50 1000 0 4,
)
retry_on_locked_busy_example =
    retry_on_locked_busy plain_python always_locked 50 1000 4 locked_always
