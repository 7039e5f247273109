-- ===== src/Retry/Outcomes.antt =====
-- How the attempts end, and how long is slept between them.
use alderpoint_dns.Base.{
  ℕ, zero, suc, ◌+◌, ◌<◌, Text, Option, none, some, List, [], ◌∷◌, if◌then◌else◌, ◌≡◌, subst, ap,
  ◌∙◌, arith,
}
use alderpoint_dns.Platform.{Platform}
use alderpoint_dns.Retry.{
  Outcome, returned, raised, Ending, value, passed_on, busy, is_lock_error, delay, sleep_before,
  attempt_once, message_of, attempts_from, retry_on_locked,
}

module _ (py : Platform) {A : Type 0} (func : ℕ → Outcome A) (base_delay max_delay : ℕ) where
  -- The ending that an outcome makes at once: none, if it is a lock.
  abbrev pub settles : Outcome A → Option (Ending A)
  settles (returned a) = some (value a)
  settles (raised e) = if is_lock_error py e then none else some (passed_on e)

  -- The sleeps after some attempts from one on.
  abbrev pub delays : ℕ → ℕ → List ℕ
  delays attempt zero = []
  delays attempt (suc n) = delay py func base_delay max_delay attempt ∷ delays (suc attempt) n

  abbrev from : ℕ → ℕ → Option Text → Ending A × List ℕ
  from = attempts_from py func base_delay max_delay

  once_settled :
      (attempt left : ℕ) (o : Outcome A) (ending : Ending A) (later : Ending A × List ℕ)
      → settles o ≡ some ending
      → attempt_once py func base_delay max_delay attempt left o later ≡ (ending, [])
  unfolding attempt_once
  once_settled attempt left (returned a) ending later s = ground (arith, s)
  once_settled attempt left (raised e) ending later s = ground (arith, s)

  once_locked :
      (attempt left : ℕ) (o : Outcome A) (later : Ending A × List ℕ)
      → settles o ≡ none
      → attempt_once py func base_delay max_delay attempt left o later
        ≡ (later.0, sleep_before py func base_delay max_delay attempt left later.1)
  unfolding attempt_once
  once_locked attempt left (returned a) later s = ground (arith, s)
  once_locked attempt left (raised e) later s = ground (arith, s)

  settled_from :
      (attempt i attempts : ℕ) (last : Option Text) (ending : Ending A)
      → i < attempts
      → ((j : ℕ) → j < i → settles (func (attempt + j)) ≡ none)
      → settles (func (attempt + i)) ≡ some ending
      → from attempt attempts last ≡ (ending, delays attempt i)
  unfolding attempts_from
  settled_from attempt i zero last ending h locked s = absurd (omega (arith, h))
  settled_from attempt zero (suc left) last ending h locked s =
      once_settled attempt left (func attempt) ending _
        (subst (λ n. settles (func n) ≡ some ending) (omega arith) s)
  settled_from attempt (suc i) (suc zero) last ending h locked s = absurd (omega (arith, h))
  settled_from attempt (suc i) (suc (suc left)) last ending h locked s =
      once_locked attempt (suc left) (func attempt) _
        (subst (λ n. settles (func n) ≡ none) (omega arith) (locked 0 (omega arith)))
      ∙ ap
          (λ (later : Ending A × List ℕ).
            (later.0, sleep_before py func base_delay max_delay attempt (suc left) later.1))
          (settled_from (suc attempt) i (suc left)
            (message_of py func base_delay max_delay (func attempt)) ending (omega (arith, h))
            (λ j k.
              subst (λ n. settles (func n) ≡ none) (omega arith)
                (locked (suc j) (omega (arith, k))))
            (subst (λ n. settles (func n) ≡ some ending) (omega arith) s))

  -- If one of the allowed attempts is not locked and those before it are, the call ends as that
  -- attempt does, with its value or its exception, after one sleep for each before it.
  pub retry_on_locked-settles :
      (attempts i : ℕ) (ending : Ending A)
      → i < attempts
      → ((j : ℕ) → j < i → settles (func j) ≡ none)
      → settles (func i) ≡ some ending
      → retry_on_locked py func base_delay max_delay attempts ≡ (ending, delays 0 i)
  unfolding retry_on_locked
  retry_on_locked-settles attempts i ending h locked s =
      settled_from 0 i attempts none ending h
        (λ j k. subst (λ n. settles (func n) ≡ none) (omega arith) (locked j k))
        (subst (λ n. settles (func n) ≡ some ending) (omega arith) s)

  locked_from :
      (attempt left : ℕ) (last : Option Text)
      → ((j : ℕ) → j < suc left → settles (func (attempt + j)) ≡ none)
      → from attempt (suc left) last ≡ (
        busy (message_of py func base_delay max_delay (func (attempt + left))),
        delays attempt left,
      )
  unfolding attempts_from
  locked_from attempt zero last locked =
      once_locked attempt zero (func attempt) _
        (subst (λ n. settles (func n) ≡ none) (omega arith) (locked 0 (omega arith)))
      ∙ ap (λ n. (busy (message_of py func base_delay max_delay (func n)), [])) {x = attempt}
          (omega arith)
  locked_from attempt (suc left) last locked =
      once_locked attempt (suc left) (func attempt) _
        (subst (λ n. settles (func n) ≡ none) (omega arith) (locked 0 (omega arith)))
      ∙ ap
          (λ (later : Ending A × List ℕ).
            (later.0, sleep_before py func base_delay max_delay attempt (suc left) later.1))
          (locked_from (suc attempt) left (message_of py func base_delay max_delay (func attempt))
            (λ j h.
              subst (λ n. settles (func n) ≡ none) (omega arith)
                (locked (suc j) (omega (arith, h)))))
      ∙ ap
          (λ n.
            (busy (message_of py func base_delay max_delay (func n)), delays attempt (suc left)))
          {x = suc attempt + left} (omega arith)

  -- If each of the attempts, of which there is one or more, is locked, the call raises
  -- DatabaseBusyError with the text of the last error, after one sleep fewer than attempts.
  pub retry_on_locked_busy :
      (left : ℕ)
      → ((j : ℕ) → j < suc left → settles (func j) ≡ none)
      → retry_on_locked py func base_delay max_delay (suc left)
        ≡ (busy (message_of py func base_delay max_delay (func left)), delays 0 left)
  unfolding retry_on_locked
  retry_on_locked_busy left locked =
      locked_from 0 left none
        (λ j h. subst (λ n. settles (func n) ≡ none) (omega arith) (locked j h))
      ∙ ap (λ n. (busy (message_of py func base_delay max_delay (func n)), delays 0 left))
          {x = 0 + left} (omega arith)
