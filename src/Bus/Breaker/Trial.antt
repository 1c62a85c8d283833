-- ===== src/Bus/Breaker/Trial.antt =====
-- When the circuit breaker lets an event through.
use go_async_practice.Common.{
  ℕ, ◌+◌, ◌/◌, ◌≤◌, ◌<◌, ◌≡◌, refl, Bool, true, false, List, [], ◌∷◌, arith, leb, count_if,
  if◌then◌else◌, All, ◌∙◌,
}
use go_async_practice.Bus.Breaker.{
  CircuitBreaker, state_closed, state_open, state_half_open, allow, record_failure, record_success,
  new_breaker,
}

-- A call of a method, by any of the publishers.
pub data Call : Type 0 where
  asks fails : (now : ℕ) → Call
  succeeds : Call

unfoldable pub step : Call → CircuitBreaker → CircuitBreaker
step (asks now) cb = (allow now cb).0
step (fails now) cb = record_failure now cb
step succeeds cb = record_success cb

unfoldable pub run : List Call → CircuitBreaker → CircuitBreaker
run [] cb = cb
run (c ∷ cs) cb = run cs (step c cb)

-- A closed breaker has failed less than the maximum, any other at least as often.
record IsSound (cb : CircuitBreaker) : Type 0 where
  limit : 0 < cb.max_failures
  fewer : cb.state ≡ state_closed → cb.failures < cb.max_failures
  tripped : cb.state ≡ state_open → cb.max_failures ≤ cb.failures
  testing : cb.state ≡ state_half_open → cb.max_failures ≤ cb.failures

step-IsSound : (c : Call) (cb : CircuitBreaker) → IsSound cb → IsSound (step c cb)
unfolding step allow record_failure record_success
step-IsSound c cb h = record {
  limit = ground (arith, h.limit);
  fewer = ground (arith, h.limit, h.fewer);
  tripped = ground (arith, h.limit, h.fewer, h.tripped, h.testing);
  testing = ground (arith, h.limit, h.fewer, h.tripped, h.testing);
}

run-IsSound : (cs : List Call) (cb : CircuitBreaker) → IsSound cb → IsSound (run cs cb)
unfolding run
run-IsSound [] cb h = h
run-IsSound (c ∷ cs) cb h = run-IsSound cs (step c cb) (step-IsSound c cb h)

new_breaker-IsSound : IsSound new_breaker
unfolding new_breaker
new_breaker-IsSound = record {
  limit = omega arith;
  fewer = λ e. omega arith;
  tripped = λ e. ground arith;
  testing = λ e. ground arith;
}

half_below : (n : ℕ) → n / 2 ≤ n
half_below n = omega arith

-- Whatever the publishers did to a new breaker: if it is half open, the one publisher that made it
-- so is alone. `Allow` refuses every other one at any time and changes nothing, until an outcome is
-- recorded.
pub half_open_refuses :
    (calls : List Call) (now : ℕ)
    → (run calls new_breaker).state ≡ state_half_open
    → allow now (run calls new_breaker) ≡ (run calls new_breaker, false)
unfolding allow
half_open_refuses calls now half =
    let sound = run-IsSound calls new_breaker new_breaker-IsSound in
    ground (arith, sound.testing half, half_below (run calls new_breaker).max_failures)

-- The readings of the clock are those of calls within the cooldown behind the instant.
abbrev pub Within : ℕ → ℕ → Call → Type 0
Within since deadline (asks now) = now ≤ deadline
Within since deadline (fails now) = since ≤ now
Within since deadline succeeds = Unit

step-open :
    (since deadline : ℕ) (c : Call) (cb : CircuitBreaker)
    → cb.state ≡ state_open
    → cb.max_failures ≤ cb.failures
    → since ≤ cb.last_fail_time
    → deadline ≤ since + cb.cooldown_time
    → Within since deadline c
    → ((step c cb).state ≡ state_open)
      × ((step c cb).max_failures ≤ (step c cb).failures)
      × (since ≤ (step c cb).last_fail_time)
      × ((step c cb).cooldown_time ≡ cb.cooldown_time)
unfolding step allow record_failure record_success
step-open since deadline (asks now) cb e full late before w = ground arith
step-open since deadline (fails now) cb e full late before w = ground arith
step-open since deadline succeeds cb e full late before w = ground arith

run-open :
    (since deadline : ℕ) (cs : List Call) (cb : CircuitBreaker)
    → cb.state ≡ state_open
    → cb.max_failures ≤ cb.failures
    → since ≤ cb.last_fail_time
    → deadline ≤ since + cb.cooldown_time
    → All (Within since deadline) cs
    → ((run cs cb).state ≡ state_open)
      × (since ≤ (run cs cb).last_fail_time)
      × ((run cs cb).cooldown_time ≡ cb.cooldown_time)
unfolding run
run-open since deadline [] cb e full late before w = (e, late, refl)
run-open since deadline (c ∷ cs) cb e full late before (here, w) =
    let (e', full', late', same) = step-open since deadline c cb e full late before here in
    let (e'', late'', same') =
      run-open since deadline cs (step c cb) e' full' late' (omega (arith, same)) w in
    (e'', late'', same' ∙ same)

allow-open :
    (now : ℕ) (cb : CircuitBreaker)
    → cb.state ≡ state_open
    → now ≤ cb.last_fail_time + cb.cooldown_time
    → (allow now cb).1 ≡ false
unfolding allow
allow-open now cb e early = ground arith

-- Let the calls of the breaker's methods not overlap, and let a recorded failure leave the breaker open.
-- Then no publisher is let through at an instant up to the cooldown time behind that failure, whatever
-- the publishers did before it and do after it with readings of the clock that are not earlier than the
-- failure's and within that time.
pub open_refuses :
    (before after : List Call) (failed now : ℕ)
    → (record_failure failed (run before new_breaker)).state ≡ state_open
    → All (Within failed (failed + (run before new_breaker).cooldown_time)) after
    → now ≤ failed + (run before new_breaker).cooldown_time
    → (allow now (run after (record_failure failed (run before new_breaker)))).1 ≡ false
unfolding allow record_failure step
open_refuses before after failed now opened within early =
    let cb : CircuitBreaker = run before new_breaker in
    let sound =
      step-IsSound (fails failed) cb (run-IsSound before new_breaker new_breaker-IsSound) in
    let rest =
      run-open failed (failed + cb.cooldown_time) after (record_failure failed cb) opened
        (sound.tripped opened) (omega arith) (omega arith) within in
    allow-open now (run after (record_failure failed cb)) rest.0 (omega (arith, rest, early))

abbrev pub is_failure : Call → Bool
is_failure (fails now) = true
is_failure _ = false

abbrev pub is_ask : Call → Bool
is_ask (asks now) = true
is_ask _ = false

run-recorded :
    (calls : List Call) (cb : CircuitBreaker)
    → cb.state ≡ (if leb cb.max_failures cb.failures then state_open else state_closed)
    → All (λ c. is_ask c ≡ false) calls
    → ((run calls cb).failures ≡ cb.failures + count_if is_failure calls)
      × ((run calls cb).state ≡ (
          if leb cb.max_failures (cb.failures + count_if is_failure calls)
          then state_open
          else state_closed))
unfolding run step record_failure record_success
run-recorded [] cb e all = ground arith
run-recorded (asks now ∷ cs) cb e (bad, all) = cc
run-recorded (fails now ∷ cs) cb e (_, all) =
    ground (arith, run-recorded cs (record_failure now cb))
run-recorded (succeeds ∷ cs) cb e (_, all) = ground (arith, run-recorded cs cb)

-- Let publishes record their outcomes on a new breaker while none asks it. Then it counts all
-- failures, the successes between them notwithstanding, and it is open from the fifth failure on.
pub opens_at_fifth_failure :
    (calls : List Call)
    → All (λ c. is_ask c ≡ false) calls
    → ((run calls new_breaker).failures ≡ count_if is_failure calls)
      × ((run calls new_breaker).state
          ≡ (if leb 5 (count_if is_failure calls) then state_open else state_closed))
unfolding new_breaker
opens_at_fifth_failure calls all = ground (arith, run-recorded calls new_breaker refl all)
