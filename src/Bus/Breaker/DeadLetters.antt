-- ===== src/Bus/Breaker/DeadLetters.antt =====
-- What becomes of the events that an open breaker refuses.
use mathlib.Core.List.{append_assoc, append-nil}
use go_async_practice.Common.{
  ◌⊎◌, Bool-cases, ℕ, suc, ◌+◌, ◌≤◌, ◌<◌, ◌≡◌, refl, ◌≢◌, true, List, [], ◌∷◌, ◌++◌, arith, leb,
  if◌then◌else◌, All, All-weaken, All-append, length, sym, ap, ◌∙◌, some, leb→le, inl, inr,
}
use go_async_practice.Common.Dict.{lookup, lookup_or}
use go_async_practice.Bus.Breaker.{
  CircuitBreaker, state_open, allow, Event, EventBus, Readings, publish, put_back, reprocess_one,
  reprocess, process_dlq, ok, breaker_open, all_failed, Outcome,
}

module _ {P : Type 0} where
  -- The event as it is published again.
  abbrev pub retried : Event P → Event P
  retried e = record e { retry_count = e.retry_count + 1 }

  -- The dead letters behind a round in which no event gets through: each twice.
  abbrev pub doubled : List (Event P) → List (Event P)
  doubled [] = []
  doubled (e ∷ es) =
      if leb (e.retry_count + 1) e.max_retries
      then retried e ∷ retried e ∷ doubled es
      else doubled es

  publish-open :
      (t : Readings) (e : Event P) (eb : EventBus P) {cb : CircuitBreaker}
      → lookup_or e.event_type [] eb.subscribers ≢ []
      → lookup e.event_type eb.circuit_breakers ≡ some cb
      → cb.state ≡ state_open
      → t.checked ≤ cb.last_fail_time + cb.cooldown_time
      → publish t e eb ≡ (record eb { dlq = eb.dlq ++ e ∷ [] }, breaker_open)
  unfolding publish allow
  publish-open t e eb handled found opened early = ground arith

  publish-dlq :
      (t : Readings) (e : Event P) (eb : EventBus P)
      → ((publish t e eb).0.dlq ≡ eb.dlq) ⊎ ((publish t e eb).0.dlq ≡ eb.dlq ++ e ∷ [])
  unfolding publish
  publish-dlq t e eb = ground arith

  -- The breaker of the event's type is open up to the deadline, and the event has handlers.
  pub record Refused (eb : EventBus P) (deadline : ℕ) (e : Event P) : Type 0 where
    pub breaker : CircuitBreaker
    pub handled : lookup_or e.event_type [] eb.subscribers ≢ []
    pub found : lookup e.event_type eb.circuit_breakers ≡ some breaker
    pub opened : breaker.state ≡ state_open
    pub cooling : deadline ≤ breaker.last_fail_time + breaker.cooldown_time

  reprocess_one-Refused :
      (deadline : ℕ) (t : Readings) (e : Event P) (eb : EventBus P)
      → t.checked ≤ deadline
      → Refused eb deadline e
      → reprocess_one t e eb ≡ record eb { dlq = eb.dlq ++ doubled (e ∷ []) }
  unfolding reprocess_one put_back
  reprocess_one-Refused deadline t e eb early r =
      let published =
        publish-open t (retried e) eb r.handled r.found r.opened
          (omega (arith, early, r.cooling)) in
      let back : put_back (retried e) (publish t (retried e) eb)
          ≡ record eb { dlq = (eb.dlq ++ retried e ∷ []) ++ retried e ∷ [] } =
        ap (put_back (retried e)) published in
      ground (arith, back, append_assoc eb.dlq (retried e ∷ []) (retried e ∷ []), append-nil eb.dlq)

  doubled-cons :
      (e : Event P) (es : List (Event P)) → doubled (e ∷ es) ≡ doubled (e ∷ []) ++ doubled es
  doubled-cons e es = ground arith

  reprocess-Refused :
      (deadline : ℕ) (t : ℕ → Readings) (i : ℕ) (es d : List (Event P)) (eb : EventBus P)
      → ((k : ℕ) → (t k).checked ≤ deadline)
      → All (Refused eb deadline) es
      → reprocess t i es (record eb { dlq = d }) ≡ record eb { dlq = d ++ doubled es }
  unfolding reprocess
  reprocess-Refused deadline t i [] d eb early all =
      ap (λ x. record eb { dlq = x }) (sym (append-nil d))
  reprocess-Refused deadline t i (e ∷ es) d eb early (r, all) =
      let again : Refused (record eb { dlq = d }) deadline e = record {
        breaker = r.breaker;
        handled = r.handled;
        found = r.found;
        opened = r.opened;
        cooling = r.cooling;
      } in
      let one = reprocess_one-Refused deadline (t i) e (record eb { dlq = d }) (early i) again in
      let rest = reprocess-Refused deadline t (i + 1) es (d ++ doubled (e ∷ [])) eb early all in
      let join : (d ++ doubled (e ∷ [])) ++ doubled es ≡ d ++ doubled (e ∷ es) =
        append_assoc d (doubled (e ∷ [])) (doubled es)
        ∙ ap (λ x. d ++ x) (sym (doubled-cons e es)) in
      ap (reprocess t (i + 1) es) one ∙ rest ∙ ap (λ x. record eb { dlq = x }) join

  publish-All {κ} :
      (Q : Event P → Type κ) (t : Readings) (e : Event P) (eb : EventBus P)
      → Q e
      → All Q eb.dlq
      → All Q (publish t e eb).0.dlq
  publish-All Q t e eb q all = elim (publish-dlq t e eb) [
    | inl same ↦ rw same all
    | inr more ↦ rw more (All-append Q eb.dlq (e ∷ []) all (q, tt))
  ]

  put_back-All {κ} :
      (Q : Event P → Type κ) (event : Event P) (published : EventBus P × Outcome)
      → Q event
      → All Q published.0.dlq
      → All Q (put_back event published).dlq
  unfolding put_back
  put_back-All Q event (published, ok) q all = all
  put_back-All Q event (published, breaker_open) q all =
      All-append Q published.dlq (event ∷ []) all (q, tt)
  put_back-All Q event (published, all_failed) q all =
      All-append Q published.dlq (event ∷ []) all (q, tt)

  reprocess_one-All {κ} :
      (Q : Event P → Type κ) (t : Readings) (e : Event P) (eb : EventBus P)
      → (leb (e.retry_count + 1) e.max_retries ≡ true → Q (retried e))
      → All Q eb.dlq
      → All Q (reprocess_one t e eb).dlq
  unfolding reprocess_one
  reprocess_one-All Q t e eb retry all = elim (Bool-cases (leb (e.retry_count + 1) e.max_retries)) [
    | inr spent ↦ rw spent all
    | inl more ↦
        let once = publish-All Q t (retried e) eb (retry more) all in
        rw more (put_back-All Q (retried e) (publish t (retried e) eb) (retry more) once)
  ]

  -- A round keeps what holds of the events retried.
  reprocess-All {κ} :
      (Q : Event P → Type κ) (t : ℕ → Readings) (i : ℕ) (es : List (Event P)) (eb : EventBus P)
      → All (λ e. leb (e.retry_count + 1) e.max_retries ≡ true → Q (retried e)) es
      → All Q eb.dlq
      → All Q (reprocess t i es eb).dlq
  unfolding reprocess
  reprocess-All Q t i [] eb retries all = all
  reprocess-All Q t i (e ∷ es) eb (here, retries) all =
      reprocess-All Q t (i + 1) es (reprocess_one (t i) e eb) retries
        (reprocess_one-All Q (t i) e eb here all)

  -- Rounds of `ProcessDLQ`, each with its readings of the clock.
  unfoldable pub process_rounds : List (ℕ → Readings) → EventBus P → EventBus P
  process_rounds [] eb = eb
  process_rounds (t ∷ ts) eb = process_rounds ts (process_dlq t eb)

  -- The retries that the event has left are fewer than `n`.
  abbrev pub SpentWithin : ℕ → Event P → Type 0
  SpentWithin n e = e.max_retries < n + e.retry_count

  abbrev pub IsBounded : Event P → Type 0
  IsBounded e = e.retry_count ≤ e.max_retries

  retry_bounds :
      (n : ℕ) (es : List (Event P))
      → All (SpentWithin (suc n)) es
      → All
          (λ e.
            leb (e.retry_count + 1) e.max_retries ≡ true
            → SpentWithin n (retried e) × IsBounded (retried e))
          es
  retry_bounds n [] all = tt
  retry_bounds n (e ∷ es) (here, all) = (
    (λ more. let le = leb→le (e.retry_count + 1) e.max_retries more in (omega arith, le)),
    retry_bounds n es all,
  )

  none_left : (es : List (Event P)) → All (λ e. SpentWithin 0 e × IsBounded e) es → es ≡ []
  none_left [] all = refl
  none_left (e ∷ es) ((spent, bounded), all) = absurd (omega arith)

  process_dlq-All :
      (n : ℕ) (t : ℕ → Readings) (eb : EventBus P)
      → All (SpentWithin (suc n)) eb.dlq
      → All (λ e. SpentWithin n e × IsBounded e) (process_dlq t eb).dlq
  unfolding process_dlq
  process_dlq-All n t eb all =
      reprocess-All (λ e. SpentWithin n e × IsBounded e) t 0 eb.dlq (record eb { dlq = [] })
        (retry_bounds n eb.dlq all) tt

-- Let the breakers of all dead letters be open up to an instant, by whose time all events are tried
-- again, and let their types have handlers. Then one round of `ProcessDLQ` puts every event that has
-- a retry left back twice, with its retry counted, drops the others, and changes nothing else.
pub process_dlq-doubles :
    {P : Type 0} (deadline : ℕ) (t : ℕ → Readings) (eb : EventBus P)
    → ((k : ℕ) → (t k).checked ≤ deadline)
    → All (Refused eb deadline) eb.dlq
    → process_dlq t eb ≡ record eb { dlq = doubled eb.dlq }
unfolding process_dlq
process_dlq-doubles deadline t eb early all = reprocess-Refused deadline t 0 eb.dlq [] eb early all

-- Whatever the handlers and breakers do: if every dead letter has at most `length ts` retries left,
-- then `length ts + 1` rounds of `ProcessDLQ` leave no dead letter.
pub process_rounds-drain :
    {P : Type 0} (t : ℕ → Readings) (ts : List (ℕ → Readings)) (eb : EventBus P)
    → All (λ e. e.max_retries ≤ length ts + e.retry_count) eb.dlq
    → (process_rounds (t ∷ ts) eb).dlq ≡ []
unfolding process_rounds
process_rounds-drain t [] eb all = none_left (process_dlq t eb).dlq (
    process_dlq-All 0 t eb (
      All-weaken (λ e. e.max_retries ≤ 0 + e.retry_count) (SpentWithin 1) eb.dlq
        (λ e h. omega arith) all))
process_rounds-drain t (u ∷ ts) eb all =
    let n = length ts in
    let fewer =
      All-weaken (λ e. e.max_retries ≤ suc n + e.retry_count) (SpentWithin (suc (suc n))) eb.dlq
        (λ e h. omega arith) all in
    process_rounds-drain u ts (process_dlq t eb) (
      All-weaken (λ e. SpentWithin (suc n) e × IsBounded e) (λ e. e.max_retries ≤ n + e.retry_count)
        (process_dlq t eb).dlq (λ e h. omega (arith, h)) (process_dlq-All (suc n) t eb fewer))
