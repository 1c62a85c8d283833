-- ===== src/Streams/Windows/Closing.antt =====
-- What the cleanup leaves of a window.
use go_async_practice.Common.{
  ℕ, ◌≡◌, refl, ◌∙◌, Bool, true, false, ◌||◌, List, [], ◌∷◌, Option, none, some, arith, ◌==◌,
  if◌then◌else◌,
}
use go_async_practice.Common.Table.{Table, find, remove, find-remove}
use go_async_practice.Streams.Windows.{
  Window, WindowManager, is_over, close_windows, keys_to_evict, remove_keys,
  close_and_evict_old_windows,
}

abbrev pub is_key : ℕ → List ℕ → Bool
is_key k [] = false
is_key k (key ∷ keys) = (key == k) || is_key k keys

module _ {A : Type 0} where
  abbrev pub closed_by : ℕ → ℕ → Option (Window A) → Option (Window A)
  closed_by now duration none = none
  closed_by now duration (some w) =
      some (if is_over now duration w then record w { closed = true } else w)

  find-close_windows :
      (now duration k : ℕ) (windows : Table (Window A))
      → find k (close_windows now duration windows) ≡ closed_by now duration (find k windows)
  unfolding close_windows find
  find-close_windows now duration k [] = refl
  find-close_windows now duration k ((key, w) ∷ windows) =
      ground (arith, find-close_windows now duration k windows)

  find-remove_keys :
      (k : ℕ) (keys : List ℕ) (windows : Table (Window A))
      → find k (remove_keys keys windows) ≡ (if is_key k keys then none else find k windows)
  unfolding remove_keys
  find-remove_keys k [] windows = refl
  find-remove_keys k (key ∷ keys) windows =
      ground (arith, find-remove_keys k keys (remove key windows), find-remove key k windows)

  pub find-close_and_evict :
      (now k : ℕ) (m : WindowManager A)
      → find k (close_and_evict_old_windows now m).windows ≡ (
          if is_key k (keys_to_evict now m.window_duration m.windows)
          then none
          else closed_by now m.window_duration (find k m.windows))
  unfolding close_and_evict_old_windows
  find-close_and_evict now k m =
      find-remove_keys k (keys_to_evict now m.window_duration m.windows)
        (close_windows now m.window_duration m.windows)
      ∙ rw (find-close_windows now m.window_duration k m.windows) refl
