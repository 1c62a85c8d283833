-- ===== src/Limits/Checks.antt =====
-- The rate limiter at concrete inputs.
use go_async_practice.Common.{ℕ, ◌≤◌, ◌≡◌, refl, true, [], ◌∷◌, List, arith}
use go_async_practice.Limits.SlidingWindow.{new_sliding_window_limiter, allow}
use go_async_practice.Limits.SlidingWindow.Rate.{run, in_window, window_limits_rate}

abbrev clock : List ℕ
clock = 1 ∷ 2 ∷ 3 ∷ 4 ∷ 12 ∷ []

window_limits_rate_example :
    ((since : ℕ) → in_window 10 since (run clock [] (new_sliding_window_limiter 3 10)).1 ≤ 3)
    × ((allow 12 (run clock [] (new_sliding_window_limiter 3 10)).0).1 ≡ true)
unfolding run allow new_sliding_window_limiter
window_limits_rate_example =
    window_limits_rate 3 10 12 clock
      (omega arith, (omega arith, (omega arith, (omega arith, (omega arith, tt))))) (omega arith)

fourth_refused : (run clock [] (new_sliding_window_limiter 3 10)).1 ≡ 1 ∷ 2 ∷ 3 ∷ 12 ∷ []
unfolding run allow new_sliding_window_limiter
fourth_refused = refl
