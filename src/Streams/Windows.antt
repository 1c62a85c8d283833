-- ===== src/Streams/Windows.antt =====
-- solution1_WindowManagement of solutions/challenge16_solution.go. Instants are nanoseconds from Go's
-- zero time, and a window is known by the instant at which it starts, for its text. A handler that
-- holds a lock is one step: getOrCreateWindow and the rest of addEvent are run as one. `A` is the type
-- of an event's data.
use go_async_practice.Common.{
  ℕ, zero, suc, ◌+◌, ◌-◌, ◌*◌, ◌%◌, ◌^◌, String, Bool, true, false, not, ◌&&◌, List, [], ◌∷◌, ◌++◌,
  Option, none, some, ltb, leb, if◌then◌else◌, length,
}
use go_async_practice.Common.Table.{Table, find, put, remove}
pub mod Closing
pub mod Contents
pub mod Closed

pub record StreamEvent (A : Type 0) : Type 0 where
  pub id : String
  pub payload : A
  pub timestamp : ℕ

pub record Window (A : Type 0) : Type 0 where
  pub start : ℕ
  pub finish : ℕ
  pub events : List (StreamEvent A)
  pub closed : Bool
  pub event_count : ℕ

pub record WindowManager (A : Type 0) : Type 0 where
  pub windows : Table (Window A)
  pub window_duration : ℕ
  pub max_windows : ℕ
  pub closed_windows : List ℕ

module _ {A : Type 0} where
  unfoldable pub new_manager : WindowManager A
  new_manager = record {
    windows = [];
    window_duration = 5 * 10 ^ 9;
    max_windows = 10;
    closed_windows = [];
  }

  -- `timestamp.Truncate(manager.windowDuration)`
  abbrev pub window_key : ℕ → WindowManager A → ℕ
  window_key timestamp m = timestamp - timestamp % m.window_duration

  unfoldable pub get_or_create_window : ℕ → WindowManager A → WindowManager A × Window A
  get_or_create_window timestamp m =
      let key = window_key timestamp m in
      let window : Window A = record {
        start = key;
        finish = key + m.window_duration;
        events = [];
        closed = false;
        event_count = 0;
      } in
      elim (find key m.windows) [
        | some window ↦ (m, window)
        | none ↦ (record m { windows = put key window m.windows }, window)
      ]

  unfoldable pub add_event : StreamEvent A → WindowManager A → WindowManager A × Bool
  unfolding get_or_create_window
  add_event event m =
      let (m', window) = get_or_create_window event.timestamp m in
      if window.closed
      then (m', false)
      else if leb 1000 (length window.events)
      then (m', false)
      else (
        record m' {
          windows =
              put (window_key event.timestamp m)
                (record window {
                  events = window.events ++ event ∷ [];
                  event_count = window.event_count + 1;
                })
                m'.windows;
        },
        true,
      )

  -- `currentTime.After(window.End.Add(manager.windowDuration))`
  abbrev pub is_over : ℕ → ℕ → Window A → Bool
  is_over now duration window = ltb (window.finish + duration) now

  abbrev pub is_evicted : ℕ → ℕ → Window A → Bool
  is_evicted now duration window =
      is_over now duration window && ltb (window.finish + duration * 2) now

  -- The loop over the windows: what each becomes, and what is noted of it.
  unfoldable pub close_windows : ℕ → ℕ → List (ℕ × Window A) → Table (Window A)
  close_windows now duration [] = []
  close_windows now duration ((key, window) ∷ rest) =
      (key, if is_over now duration window then record window { closed = true } else window)
      ∷ close_windows now duration rest

  unfoldable pub newly_closed : ℕ → ℕ → List (ℕ × Window A) → List ℕ
  newly_closed now duration [] = []
  newly_closed now duration ((key, window) ∷ rest) =
      if is_over now duration window && not window.closed
      then key ∷ newly_closed now duration rest
      else newly_closed now duration rest

  unfoldable pub keys_to_evict : ℕ → ℕ → List (ℕ × Window A) → List ℕ
  keys_to_evict now duration [] = []
  keys_to_evict now duration ((key, window) ∷ rest) =
      if is_evicted now duration window
      then key ∷ keys_to_evict now duration rest
      else keys_to_evict now duration rest

  unfoldable pub remove_keys : List ℕ → Table (Window A) → Table (Window A)
  remove_keys [] windows = windows
  remove_keys (key ∷ keys) windows = remove_keys keys (remove key windows)

  unfoldable pub close_and_evict_old_windows : ℕ → WindowManager A → WindowManager A
  unfolding close_windows newly_closed keys_to_evict remove_keys
  close_and_evict_old_windows now m = record m {
    windows =
        remove_keys (keys_to_evict now m.window_duration m.windows)
          (close_windows now m.window_duration m.windows);
    closed_windows = m.closed_windows ++ newly_closed now m.window_duration m.windows;
  }
