-- ===== src/Streams/Watermark/Lateness.antt =====
-- Which events are accepted.
use go_async_practice.Common.{◌⊎◌, ℕ, ◌+◌, ◌≤◌, ◌≡◌, List, [], ◌∷◌, ◌++◌, All}
use go_async_practice.Streams.Watermark.{
  StreamEvent, WatermarkProcessor, Callers, Call, loads, updates, processes,
}

module _ {A : Type 0} where
  -- The events that calls bring.
  abbrev pub events : List (Call A) → List (StreamEvent A)
  events [] = []
  events (loads caller ∷ cs) = events cs
  events (updates caller event_time ∷ cs) = events cs
  events (processes caller event ∷ cs) = event ∷ events cs

  -- No update brings a time behind `latest`.
  abbrev pub IsUntil : ℕ → Call A → Type 0
  IsUntil latest (loads caller) = Unit
  IsUntil latest (updates caller event_time) = event_time ≤ latest
  IsUntil latest (processes caller event) = Unit

  -- The event is in the list.
  abbrev pub IsAmong : StreamEvent A → List (StreamEvent A) → Type 0
  IsAmong e es = (front back : List (StreamEvent A)) × (es ≡ front ++ e ∷ back)

  abbrev pub IsAccepted : StreamEvent A → WatermarkProcessor A → Type 0
  IsAccepted e p = IsAmong e p.on_time_events ⊎ IsAmong e p.late_events

  -- The watermark, and all that is loaded of it, is at most `latest`.
  record Below (latest allowed : ℕ) (s : Callers A) : Type 0 where
    watermark : s.processor.watermark ≤ latest
    loaded : All (λ cell. cell.1 ≤ latest) s.loaded
    lateness : s.processor.allowed_lateness ≡ allowed

  -- What the processing of an event does to the processor.
  record Processed (current : ℕ) (event : StreamEvent A) (p q : WatermarkProcessor A) : Type 0 where
    watermark : q.watermark ≡ p.watermark
    lateness : q.allowed_lateness ≡ p.allowed_lateness
    kept : (e : StreamEvent A) → IsAccepted e p → IsAccepted e q
    accepted : current ≤ event.timestamp + p.allowed_lateness → IsAccepted event q

  -- What an update does to the processor.
  record Updated (latest : ℕ) (p q : WatermarkProcessor A) : Type 0 where
    watermark : q.watermark ≤ latest
    lateness : q.allowed_lateness ≡ p.allowed_lateness
    kept : (e : StreamEvent A) → IsAccepted e p → IsAccepted e q

  -- What a call does.
  record Moved (latest allowed : ℕ) (s s' : Callers A) : Type 0 where
    below : Below latest allowed s'
    kept : (e : StreamEvent A) → IsAccepted e s.processor → IsAccepted e s'.processor
