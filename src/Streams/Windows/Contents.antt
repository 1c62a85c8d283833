-- ===== src/Streams/Windows/Contents.antt =====
-- What the windows contain, and which events they refuse.
use native.Mathlib.Nat.{mod-lt, mod-le}
use go_async_practice.Common.{
  ℕ, ◌+◌, ◌-◌, ◌*◌, ◌%◌, ◌^◌, ◌≤◌, ◌<◌, ◌≡◌, refl, sym, ◌∙◌, true, false, List, [], ◌∷◌, ◌++◌,
  Option, none, some, arith, ◌==◌, leb, if◌then◌else◌, All, All-append, length, length-append,
  Bool-cases, Option-cases, inl, inr,
}
use go_async_practice.Common.Table.{find, put, find-put}
use go_async_practice.Streams.Windows.{
  StreamEvent, Window, WindowManager, new_manager, window_key, get_or_create_window, add_event,
  is_over, keys_to_evict, close_and_evict_old_windows,
}
use go_async_practice.Streams.Windows.Closing.{is_key, closed_by, find-close_and_evict}

pub data Call (A : Type 0) : Type 0 where
  adds : StreamEvent A → Call A
  cleans : (now : ℕ) → Call A

inside_own :
    (t duration : ℕ) → 0 < duration → (t - t % duration ≤ t) × (t < t - t % duration + duration)
inside_own t duration pos = (omega arith, omega (arith, mod-lt t pos, mod-le t duration))

module _ {A : Type 0} where
  unfoldable pub step : Call A → WindowManager A → WindowManager A
  step (adds event) m = (add_event event m).0
  step (cleans now) m = close_and_evict_old_windows now m

  unfoldable pub run : List (Call A) → WindowManager A → WindowManager A
  unfolding step
  run [] m = m
  run (c ∷ cs) m = run cs (step c m)

  -- The span of a window, and its events.
  pub record IsWindow (duration key : ℕ) (w : Window A) : Type 0 where
    pub start : w.start ≡ key
    pub finish : w.finish ≡ key + duration
    pub counted : w.event_count ≡ length w.events
    pub bounded : length w.events ≤ 1000
    pub inside : All (λ e. (key ≤ e.timestamp) × (e.timestamp < key + duration)) w.events

  record Sound (m : WindowManager A) : Type 0 where
    duration : m.window_duration ≡ 5 * 10 ^ 9
    windows : (k : ℕ) (w : Window A) → find k m.windows ≡ some w → IsWindow (5 * 10 ^ 9) k w

  -- What an event does to the window of a key.
  pub data Added (event : StreamEvent A) (m m' : WindowManager A) : Type 0 where
    kept : m' ≡ m → Added event m m'
    made :
        (w : Window A)
        → find (window_key event.timestamp m) m.windows ≡ none
        → w ≡ record {
          start = window_key event.timestamp m;
          finish = window_key event.timestamp m + m.window_duration;
          events = event ∷ [];
          closed = false;
          event_count = 0 + 1;
        }
        → m'.window_duration ≡ m.window_duration
        → ((k : ℕ)
            → find k m'.windows
              ≡ (if window_key event.timestamp m == k then some w else find k m.windows))
        → Added event m m'
    grown :
        (w w' : Window A)
        → find (window_key event.timestamp m) m.windows ≡ some w
        → w.closed ≡ false
        → length w.events < 1000
        → w' ≡ record w { events = w.events ++ event ∷ []; event_count = w.event_count + 1 }
        → m'.window_duration ≡ m.window_duration
        → ((k : ℕ)
            → find k m'.windows
              ≡ (if window_key event.timestamp m == k then some w' else find k m.windows))
        → Added event m m'

  pub add_event-Added :
      (event : StreamEvent A) (m : WindowManager A) → Added event m (add_event event m).0
  unfolding add_event get_or_create_window
  add_event-Added event m =
      let key = window_key event.timestamp m in
      let fresh : Window A = record {
        start = key;
        finish = key + m.window_duration;
        events = [];
        closed = false;
        event_count = 0;
      } in
      let first : Window A = record fresh { events = event ∷ []; event_count = 0 + 1 } in
      elim (Option-cases (find key m.windows)) [
        | inl absent ↦ made first absent refl (ground (arith, absent)) (λ k. ground (
          arith,
          absent,
          find-put key k fresh m.windows,
          find-put key k first (put key fresh m.windows),
        ))
        | inr (w, there) ↦
            let w' : Window A = record w {
              events = w.events ++ event ∷ [];
              event_count = w.event_count + 1;
            } in
            elim (Bool-cases w.closed) [
              | inl closed ↦ kept (ground (arith, there, closed))
              | inr open_ ↦ elim (Bool-cases (leb 1000 (length w.events))) [
                | inl full ↦ kept (ground (arith, there, open_, full))
                | inr room ↦
                    grown w w' there open_ (ground (arith, room)) refl
                      (ground (arith, there, open_, room))
                      (λ k. ground (arith, there, open_, room, find-put key k w' m.windows))
              ]
            ]
      ]

  grown-IsWindow :
      (key : ℕ) (event : StreamEvent A) (w : Window A)
      → length w.events < 1000
      → (key ≤ event.timestamp) × (event.timestamp < key + 5 * 10 ^ 9)
      → IsWindow (5 * 10 ^ 9) key w
      → IsWindow
          (5 * 10 ^ 9)
          key
          (record w { events = w.events ++ event ∷ []; event_count = w.event_count + 1 })
  grown-IsWindow key event w room own i = record {
    start = i.start;
    finish = i.finish;
    counted = omega (arith, i.counted, length-append w.events (event ∷ []));
    bounded = omega (arith, room, length-append w.events (event ∷ []));
    inside =
        All-append (λ e. (key ≤ e.timestamp) × (e.timestamp < key + 5 * 10 ^ 9)) w.events
          (event ∷ []) i.inside (own, tt);
  }

  written-Sound :
      (key : ℕ) (w : Window A) (m m' : WindowManager A)
      → IsWindow (5 * 10 ^ 9) key w
      → m'.window_duration ≡ m.window_duration
      → ((k : ℕ) → find k m'.windows ≡ (if key == k then some w else find k m.windows))
      → Sound m
      → Sound m'
  written-Sound key w m m' own duration found s = record {
    duration = duration ∙ s.duration;
    windows = λ k v e. elim (Bool-cases (key == k)) [
      | inr other ↦ s.windows k v (ground (arith, e, found k, other))
      | inl same ↦
          let at : key ≡ k = ground (arith, same) in
          let mine : w ≡ v = ground (arith, e, found k, same) in rw (sym at, sym mine) own
    ];
  }

  event_inside :
      (event : StreamEvent A) (m : WindowManager A)
      → m.window_duration ≡ 5 * 10 ^ 9
      → (window_key event.timestamp m ≤ event.timestamp)
        × (event.timestamp < window_key event.timestamp m + 5 * 10 ^ 9)
  event_inside event m duration =
      rw duration (inside_own event.timestamp (5 * 10 ^ 9) (omega arith))

  add_event-Sound :
      (event : StreamEvent A) (m m' : WindowManager A) → Added event m m' → Sound m → Sound m'
  add_event-Sound event m m' (kept same) s = rw same s
  add_event-Sound event m m' (made w absent is duration found) s =
      let own : IsWindow (5 * 10 ^ 9) (window_key event.timestamp m) w = rw is (record {
        start = refl;
        finish = omega (arith, s.duration);
        counted = omega arith;
        bounded = omega arith;
        inside = (event_inside event m s.duration, tt);
      }) in
      written-Sound (window_key event.timestamp m) w m m' own duration found s
  add_event-Sound event m m' (grown w w' there open_ room is duration found) s =
      let key = window_key event.timestamp m in
      let own : IsWindow (5 * 10 ^ 9) key w' = rw is (
        grown-IsWindow key event w room (event_inside event m s.duration)
          (s.windows key w there)) in
      written-Sound key w' m m' own duration found s

  closed_by-IsWindow :
      (now duration key : ℕ) (o : Option (Window A)) (w : Window A)
      → closed_by now duration o ≡ some w
      → ((v : Window A) → o ≡ some v → IsWindow (5 * 10 ^ 9) key v)
      → IsWindow (5 * 10 ^ 9) key w
  closed_by-IsWindow now duration key none w e all = cc
  closed_by-IsWindow now duration key (some v) w e all =
      let i = all v refl in
      elim (Bool-cases (is_over now duration v)) [
        | inr lasting ↦ let same : v ≡ w = ground (arith, e, lasting) in rw (sym same) i
        | inl over ↦
            let same : record v { closed = true } ≡ w = ground (arith, e, over) in
            rw (sym same) (record {
              start = i.start;
              finish = i.finish;
              counted = i.counted;
              bounded = i.bounded;
              inside = i.inside;
            })
      ]

  cleaned-Sound :
      (now : ℕ) (m : WindowManager A) → Sound m → Sound (close_and_evict_old_windows now m)
  unfolding close_and_evict_old_windows
  cleaned-Sound now m s = record {
    duration = s.duration;
    windows = λ k w e.
        let gone = is_key k (keys_to_evict now m.window_duration m.windows) in
        let found = sym (find-close_and_evict now k m) ∙ e in
        elim (Bool-cases gone) [
          | inl evicted ↦ absurd (ground (arith, found, evicted))
          | inr stays ↦
              closed_by-IsWindow now m.window_duration k (find k m.windows) w
                (ground (arith, found, stays)) (s.windows k)
        ];
  }

  run-Sound : (cs : List (Call A)) (m : WindowManager A) → Sound m → Sound (run cs m)
  unfolding run step
  run-Sound [] m s = s
  run-Sound (adds event ∷ cs) m s =
      run-Sound cs _ (add_event-Sound event m (add_event event m).0 (add_event-Added event m) s)
  run-Sound (cleans now ∷ cs) m s = run-Sound cs _ (cleaned-Sound now m s)

  new_manager-Sound : Sound new_manager
  unfolding new_manager find
  new_manager-Sound = record { duration = refl; windows = λ k w e. cc }

-- Behind any calls from the start, a window that is there has the span of five seconds from its key
-- on, all its events are from that span, it has at most 1000 of them, and it counts them right.
pub windows_sound :
    {A : Type 0} (calls : List (Call A)) (key : ℕ) (w : Window A)
    → find key (run calls new_manager).windows ≡ some w
    → IsWindow (5 * 10 ^ 9) key w
windows_sound calls key w e = (run-Sound calls new_manager new_manager-Sound).windows key w e
