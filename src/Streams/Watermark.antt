-- ===== src/Streams/Watermark.antt =====
-- solution2_LateDataHandling of solutions/challenge16_solution.go. Instants are nanoseconds. `A` is the
-- type of an event's data. updateWatermark and processEvent load the watermark first, without a lock,
-- and act on what they loaded in a second step; both are cut there, and the steps of several callers
-- interleave.
use go_async_practice.Common.{
  ℕ, ◌+◌, ◌-◌, ◌*◌, ◌^◌, String, Bool, List, [], ◌∷◌, ◌++◌, ltb, leb, if◌then◌else◌, Option, none,
  some,
}
use go_async_practice.Common.Table.{Table, find, put, remove}
pub mod Lateness

pub record StreamEvent (A : Type 0) : Type 0 where
  pub id : String
  pub payload : A
  pub timestamp : ℕ

pub record WatermarkProcessor (A : Type 0) : Type 0 where
  pub watermark : ℕ
  pub allowed_lateness : ℕ
  pub late_events : List (StreamEvent A)
  pub on_time_events : List (StreamEvent A)

-- The reasons that `processEvent` gives; the last comes with a refusal.
pub data Verdict : Type 0 where
  on_time late_accepted too_late : Verdict

module _ {A : Type 0} where
  unfoldable pub new_processor : ℕ → WatermarkProcessor A
  new_processor now = record {
    watermark = now;
    allowed_lateness = 3 * 10 ^ 9;
    late_events = [];
    on_time_events = [];
  }

  -- `updateWatermark` behind its load of `current`.
  unfoldable pub update_watermark : ℕ → ℕ → WatermarkProcessor A → WatermarkProcessor A
  update_watermark current event_time p =
      if ltb current event_time then record p { watermark = event_time } else p

  -- `processEvent` behind its load of `current`.
  unfoldable pub process_event :
      ℕ → StreamEvent A → WatermarkProcessor A → WatermarkProcessor A × Verdict
  process_event current event p =
      let lateness = current - event.timestamp in
      if leb current event.timestamp
      then (record p { on_time_events = p.on_time_events ++ event ∷ [] }, on_time)
      else if leb lateness p.allowed_lateness
      then (record p { late_events = p.late_events ++ event ∷ [] }, late_accepted)
      else (p, too_late)

-- A processor with what the callers have loaded and not yet acted on, by their numbers.
pub record Callers (A : Type 0) : Type 0 where
  pub processor : WatermarkProcessor A
  pub loaded : Table ℕ

pub data Call (A : Type 0) : Type 0 where
  loads : (caller : ℕ) → Call A
  updates : (caller event_time : ℕ) → Call A
  processes : (caller : ℕ) → StreamEvent A → Call A

module _ {A : Type 0} where
  -- `processor.watermark.Load()`; a caller that has not loaded before does so as it goes on.
  unfoldable pub current_for : ℕ → Callers A → ℕ
  current_for caller s = elim (find caller s.loaded) [
    | none ↦ s.processor.watermark
    | some current ↦ current
  ]

  unfoldable pub step : Call A → Callers A → Callers A
  step (loads caller) s = record s { loaded = put caller s.processor.watermark s.loaded }
  step (updates caller event_time) s = record {
    processor = update_watermark (current_for caller s) event_time s.processor;
    loaded = remove caller s.loaded;
  }
  step (processes caller event) s = record {
    processor = (process_event (current_for caller s) event s.processor).0;
    loaded = remove caller s.loaded;
  }

  unfoldable pub run : List (Call A) → Callers A → Callers A
  unfolding step
  run [] s = s
  run (c ∷ cs) s = run cs (step c s)
