-- ===== src/Streams/Checks.antt =====
-- The stream processing at concrete inputs.
use go_async_practice.Common.{
  ◌⊎◌, ℕ, ◌*◌, ◌%◌, ◌^◌, ◌≡◌, refl, String, true, false, List, [], ◌∷◌, ◌++◌, some, none,
}
use go_async_practice.Common.Table.{find, put, remove}
use go_async_practice.Streams.Windows as Windows
use go_async_practice.Streams.Checkpoint as Checkpoint
use go_async_practice.Streams.Checkpoint.Replay.{process_all, core, total, recovery_counts_once}
use go_async_practice.Streams.Watermark as Watermark
use go_async_practice.Streams.Windows.{Window, WindowManager}
use go_async_practice.Streams.Windows.Contents.{
  Call, adds, cleans, step, run, IsWindow, windows_sound,
}
use go_async_practice.Streams.Windows.Closed.{closed_window_refuses}

abbrev second : ℕ
second = 10 ^ 9

abbrev clicked : String → ℕ → Windows.StreamEvent String
clicked id timestamp = record { id = id; payload = "click"; timestamp = timestamp }

-- A window with two events.
abbrev clicks : List (Call String)
clicks = adds (clicked "a" (6 * second)) ∷ adds (clicked "b" (9 * second)) ∷ []

abbrev clicks_window : Window String
clicks_window = record {
  start = 5 * second;
  finish = 10 * second;
  events = clicked "a" (6 * second) ∷ clicked "b" (9 * second) ∷ [];
  closed = false;
  event_count = 2;
}

windows_sound_example : IsWindow (5 * second) (5 * second) clicks_window
unfolding run step Windows.add_event Windows.get_or_create_window Windows.new_manager find put
windows_sound_example = windows_sound clicks (5 * second) clicks_window refl

-- The window of the clicks is closed at second 16, and a late click comes.
abbrev closed_clicks : WindowManager String
closed_clicks = (run (clicks ++ cleans (16 * second) ∷ []) Windows.new_manager)

abbrev late_click : List (Call String)
late_click = adds (clicked "late" (7 * second)) ∷ []

closed_window_refuses_example :
    ((find (5 * second) (run late_click closed_clicks).windows
        ≡ some (record clicks_window { closed = true }))
      × ((event : Windows.StreamEvent String)
          → Windows.window_key event.timestamp (run late_click closed_clicks) ≡ 5 * second
          → Windows.add_event event (run late_click closed_clicks)
            ≡ (run late_click closed_clicks, false)))
    ⊎ ((front back : List (Call String)) × (late_click ≡ front ++ back)
        × (find (5 * second) (run front closed_clicks).windows ≡ none))
unfolding run step Windows.add_event Windows.get_or_create_window Windows.new_manager
    Windows.close_and_evict_old_windows Windows.close_windows Windows.keys_to_evict
    Windows.remove_keys find put remove
closed_window_refuses_example =
    closed_window_refuses late_click closed_clicks (5 * second)
      (record clicks_window { closed = true }) refl refl

-- Once the window is evicted, the late click opens it again.
reopened :
    (Windows.add_event
      (clicked "late" (7 * second))
      (Windows.close_and_evict_old_windows (21 * second) closed_clicks)).1
    ≡ true
unfolding run step Windows.add_event Windows.get_or_create_window Windows.new_manager
    Windows.close_and_evict_old_windows Windows.close_windows Windows.keys_to_evict
    Windows.remove_keys find put remove
reopened = refl

abbrev measured : String → ℕ → ℕ → Checkpoint.StreamEvent
measured id offset value = record {
  id = id;
  offset = offset;
  payload = some value;
  timestamp = offset * second;
}

abbrev three_events : List Checkpoint.StreamEvent
three_events = measured "a" 1 100 ∷ measured "b" 2 200 ∷ measured "a" 3 100 ∷ []

abbrev replayed : List Checkpoint.StreamEvent → Checkpoint.CheckpointManager
replayed after =
    let at = Checkpoint.create_checkpoint 9 (process_all three_events Checkpoint.new_manager) in
    let recovered =
      Checkpoint.recover_from_checkpoint at.1 (process_all (measured "c" 4 400 ∷ []) at.0) in
    process_all (three_events ++ after) recovered

recovery_counts_once_example :
    (Checkpoint.state_of 0 (replayed (measured "c" 4 400 ∷ [])).current.window_states
      ≡ total 0 [] (three_events ++ measured "c" 4 400 ∷ []) % 2 ^ 64)
    × (core (replayed (measured "c" 4 400 ∷ []))
        ≡ core (process_all (three_events ++ measured "c" 4 400 ∷ []) Checkpoint.new_manager))
recovery_counts_once_example =
    recovery_counts_once three_events (measured "c" 4 400 ∷ []) (measured "c" 4 400 ∷ []) 9 0

seven_hundred : total 0 [] (three_events ++ measured "c" 4 400 ∷ []) ≡ 700
unfolding Checkpoint.window_of
seven_hundred = refl

abbrev read : String → ℕ → Watermark.StreamEvent String
read id timestamp = record { id = id; payload = "read"; timestamp = timestamp }

abbrev reader : Watermark.Callers String
reader = record { processor = Watermark.new_processor (4 * second); loaded = [] }

-- Caller 2 loads the watermark before caller 1 updates it.
abbrev reads : List (Watermark.Call String)
reads =
    Watermark.Call.processes 1 (read "a" (5 * second))
    ∷ Watermark.Call.loads 2
    ∷ Watermark.Call.updates 1 (9 * second)
    ∷ Watermark.Call.processes 2 (read "b" (7 * second))
    ∷ []

-- Two updates overlap, and the watermark goes back.
watermark_went_back :
    (Watermark.run
      (Watermark.Call.loads 1
        ∷ Watermark.Call.updates 2 (9 * second)
        ∷ Watermark.Call.updates 1 (6 * second)
        ∷ [])
      reader).processor.watermark
    ≡ 6 * second
unfolding Watermark.run Watermark.step Watermark.current_for Watermark.update_watermark
    Watermark.new_processor find put remove
watermark_went_back = refl
