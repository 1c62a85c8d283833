-- ===== src/Bus/Breaker.antt =====
-- CircuitBreakerEventBus of solutions/solution17_event_bus.go.
--
-- Each method of the breaker is one step: the calls modelled do not overlap. In the source Allow and
-- RecordSuccess store a state that they chose by an earlier load, and RecordFailure makes three writes,
-- so that calls that overlap can undo one another. The handlers are code of the caller: a handler is the
-- function that says whether it returns without an error or a panic, `true` for success. Their
-- goroutines only count, so their order does not matter. Instants and durations are nanoseconds, and
-- the readings of the clock are arguments.
use go_async_practice.Common.{
  ℕ, ◌+◌, ◌-◌, ◌*◌, ◌^◌, ◌/◌, String, Bool, true, false, not, List, [], ◌∷◌, ◌++◌, Option, none,
  some, ltb, leb, if◌then◌else◌, count_if,
}
use go_async_practice.Common.Dict.{Dict, lookup, lookup_or, insert}
pub mod Trial
pub mod DeadLetters

pub data State : Type 0 where
  state_closed state_open state_half_open : State

pub record CircuitBreaker : Type 0 where
  pub failures : ℕ
  pub last_fail_time : ℕ
  pub state : State
  pub max_failures : ℕ
  pub cooldown_time : ℕ

pub record Event (P : Type 0) : Type 0 where
  pub id : String
  pub event_type : String
  pub payload : P
  pub retry_count : ℕ
  pub max_retries : ℕ

unfoldable pub allow : ℕ → CircuitBreaker → CircuitBreaker × Bool
allow now cb = elim cb.state [
  | state_closed ↦ (cb, true)
  | state_open ↦
      if ltb cb.cooldown_time (now - cb.last_fail_time)
      then (record cb { state = state_half_open }, true)
      else (cb, false)
  | state_half_open ↦ (cb, ltb cb.failures (cb.max_failures / 2))
]

unfoldable pub record_failure : ℕ → CircuitBreaker → CircuitBreaker
record_failure now cb =
    let failures = cb.failures + 1 in
    record cb {
      failures = failures;
      last_fail_time = now;
      state = if leb cb.max_failures failures then state_open else cb.state;
    }

unfoldable pub record_success : CircuitBreaker → CircuitBreaker
record_success cb = elim cb.state [
  | state_half_open ↦ record cb { state = state_closed; failures = 0 }
  | _ ↦ cb
]

unfoldable pub new_breaker : CircuitBreaker
new_breaker = record {
  failures = 0;
  last_fail_time = 0;
  state = state_closed;
  max_failures = 5;
  cooldown_time = 30 * 10 ^ 9;
}

abbrev pub Handler : Type 0 → Type 0
Handler P = Event P → Bool

pub record EventBus (P : Type 0) : Type 0 where
  pub subscribers : Dict (List (Handler P))
  pub circuit_breakers : Dict CircuitBreaker
  pub dlq : List (Event P)

-- What `Publish` returns.
pub data Outcome : Type 0 where
  ok breaker_open all_failed : Outcome

-- The readings of the clock in one `Publish`.
pub record Readings : Type 0 where
  pub checked : ℕ
  pub failed : ℕ

-- The update of the breaker behind the handlers.
abbrev pub settle : ℕ → (successes failures : ℕ) → CircuitBreaker → CircuitBreaker
settle now successes failures cb =
    if ltb 0 failures
    then record_failure now cb
    else if ltb 0 successes
    then record_success cb
    else cb

abbrev pub outcome : (successes failures : ℕ) → Outcome
outcome successes failures =
    if ltb 0 failures then (if ltb 0 successes then ok else all_failed) else ok

module _ {P : Type 0} where
  unfoldable pub new_event_bus : EventBus P
  new_event_bus = record { subscribers = []; circuit_breakers = []; dlq = [] }

  unfoldable pub subscribe : String → Handler P → EventBus P → EventBus P
  unfolding new_breaker
  subscribe event_type handler eb = record eb {
    subscribers =
        insert event_type (lookup_or event_type [] eb.subscribers ++ handler ∷ []) eb.subscribers;
    circuit_breakers = elim (lookup event_type eb.circuit_breakers) [
      | none ↦ insert event_type new_breaker eb.circuit_breakers
      | some _ ↦ eb.circuit_breakers
    ];
  }

  unfoldable pub publish : Readings → Event P → EventBus P → EventBus P × Outcome
  publish t event eb =
      let handlers = lookup_or event.event_type [] eb.subscribers in
      let successes = count_if (λ h. h event) handlers in
      let failures = count_if (λ h. not (h event)) handlers in
      elim handlers [
        | [] ↦ (eb, ok)
        | _ ∷ _ ↦ elim (lookup event.event_type eb.circuit_breakers) [
          | none ↦ (eb, outcome successes failures)
          | some cb ↦
              let (checked, allowed) = allow t.checked cb in
              if allowed
              then (
                record eb {
                  circuit_breakers =
                      insert event.event_type (settle t.failed successes failures checked)
                        eb.circuit_breakers;
                },
                outcome successes failures,
              )
              else (record eb { dlq = eb.dlq ++ event ∷ [] }, breaker_open)
        ]
      ]

  -- An event whose publishing returns an error goes back to the dead letters.
  unfoldable pub put_back : Event P → EventBus P × Outcome → EventBus P
  put_back event (published, result) = elim result [
    | ok ↦ published
    | _ ↦ record published { dlq = published.dlq ++ event ∷ [] }
  ]

  -- The body of the loop of `ProcessDLQ`.
  unfoldable pub reprocess_one : Readings → Event P → EventBus P → EventBus P
  reprocess_one t e eb =
      let event = record e { retry_count = e.retry_count + 1 } in
      let next = put_back event (publish t event eb) in
      if leb event.retry_count event.max_retries then next else eb

  -- The loop; `t` has the readings for each event.
  unfoldable pub reprocess : (ℕ → Readings) → ℕ → List (Event P) → EventBus P → EventBus P
  reprocess t i [] eb = eb
  reprocess t i (e ∷ events) eb = reprocess t (i + 1) events (reprocess_one (t i) e eb)

  unfoldable pub process_dlq : (ℕ → Readings) → EventBus P → EventBus P
  process_dlq t eb = reprocess t 0 eb.dlq (record eb { dlq = [] })
