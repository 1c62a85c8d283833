-- ===== src/Bus/Checks.antt =====
-- The event buses at concrete inputs.
use go_async_practice.Common.{ℕ, ◌≡◌, refl, String, false, none, List, [], ◌∷◌, length, arith}
use go_async_practice.Common.Dict.{lookup, lookup_or, insert}
use go_async_practice.Bus.Ring.{new_ring_buffer, get_recent}
use go_async_practice.Bus.Ring.Recent.{add_all, get_recent-add_all}
use go_async_practice.Bus.Priority
use go_async_practice.Bus.Priority.{Subscriber}
use go_async_practice.Bus.Priority.Sorted.{Ordered, at_level, subscribe_all, subscribe_all-Ordered}
use go_async_practice.Bus.Breaker
use go_async_practice.Bus.Breaker.{
  CircuitBreaker, state_open, state_half_open, state_closed, allow, record_failure, new_breaker,
  Event, EventBus, Readings, process_dlq,
}
use go_async_practice.Bus.Breaker.Trial.{step, Call, asks, fails, succeeds, run, open_refuses}
use go_async_practice.Bus.Breaker.DeadLetters.{doubled, process_rounds, process_rounds-drain}

get_recent-add_all_example :
    get_recent {E = ℕ} 0 4 (add_all 0 (1 ∷ 2 ∷ 3 ∷ 4 ∷ 5 ∷ []) (new_ring_buffer 0 3))
    ≡ 3 ∷ 4 ∷ 5 ∷ []
get_recent-add_all_example = get_recent-add_all 0 3 4 (1 ∷ 2 ∷ 3 ∷ 4 ∷ 5 ∷ []) (omega arith)

abbrev low : Subscriber ℕ
low = record { id = "logger"; priority = 1; filter = none }

abbrev high : Subscriber ℕ
high = record { id = "validator"; priority = 10; filter = none }

abbrev subscriptions : List (String × Subscriber ℕ)
subscriptions = ("user", low) ∷ ("order", high) ∷ ("user", high) ∷ ("user", low) ∷ []

subscribe_all-Ordered_example :
    let subscribers = lookup_or "user" [] (subscribe_all subscriptions []) in
    Ordered subscribers × (at_level 1 subscribers ≡ low ∷ low ∷ [])
subscribe_all-Ordered_example = subscribe_all-Ordered "user" 1 subscriptions

user_order : lookup_or "user" [] (subscribe_all subscriptions []) ≡ high ∷ low ∷ low ∷ []
unfolding subscribe_all Priority.subscribe Priority.place lookup insert
user_order = refl

abbrev half_open_calls : List Call
half_open_calls = fails 1 ∷ fails 2 ∷ fails 3 ∷ fails 4 ∷ fails 5 ∷ asks 30000000006 ∷ []

is_half_open : (run half_open_calls new_breaker).state ≡ state_half_open
unfolding run step allow record_failure new_breaker
is_half_open = refl

abbrev four_failures : List Call
four_failures = fails 1 ∷ fails 2 ∷ succeeds ∷ fails 3 ∷ fails 4 ∷ []

fifth_opens : (record_failure 5 (run four_failures new_breaker)).state ≡ state_open
unfolding run step record_failure Breaker.record_success new_breaker
fifth_opens = refl

cooldown_then : (run four_failures new_breaker).cooldown_time ≡ 30000000000
unfolding run step record_failure Breaker.record_success new_breaker
cooldown_then = refl

open_refuses_example :
    (allow 30000000005
      (run (asks 9 ∷ succeeds ∷ []) (record_failure 5 (run four_failures new_breaker)))).1
    ≡ false
open_refuses_example =
    open_refuses four_failures (asks 9 ∷ succeeds ∷ []) 5 30000000005 fifth_opens
      (omega (arith, cooldown_then), (tt, tt)) (omega (arith, cooldown_then))

abbrev letter : Event ℕ
letter = record { id = "e1"; event_type = "payment"; payload = 7; retry_count = 0; max_retries = 2 }

abbrev spent_letter : Event ℕ
spent_letter = record {
  id = "e2";
  event_type = "payment";
  payload = 8;
  retry_count = 2;
  max_retries = 2;
}

abbrev open_breaker : CircuitBreaker
open_breaker = record {
  failures = 5;
  last_fail_time = 100;
  state = state_open;
  max_failures = 5;
  cooldown_time = 30;
}

abbrev stuck_bus : EventBus ℕ
stuck_bus = record {
  subscribers = ("payment", (λ e. false) ∷ []) ∷ [];
  circuit_breakers = ("payment", open_breaker) ∷ [];
  dlq = letter ∷ spent_letter ∷ [];
}

abbrev at : ℕ → ℕ → Readings
at now k = record { checked = now; failed = now }

two_letters : length (doubled (letter ∷ spent_letter ∷ [])) ≡ 2
two_letters = refl

process_rounds-drain_example : (process_rounds (at 120 ∷ at 125 ∷ at 126 ∷ []) stuck_bus).dlq ≡ []
process_rounds-drain_example =
    process_rounds-drain (at 120) (at 125 ∷ at 126 ∷ []) stuck_bus (omega arith, (omega arith, tt))
