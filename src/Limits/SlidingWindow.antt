-- ===== src/Limits/SlidingWindow.antt =====
-- SlidingWindowLimiter of solutions/solution04_rate_limiter.go. Instants are nanoseconds, and `Allow`
-- takes its reading of the clock; `req.After(now - window)` is written `now < req + window`.
use go_async_practice.Common.{
  ℕ, ◌+◌, Bool, true, false, List, [], ◌∷◌, ◌++◌, ltb, if◌then◌else◌, keep, length,
}
pub mod Rate

pub record SlidingWindowLimiter : Type 0 where
  pub requests : List ℕ
  pub rate : ℕ
  pub window : ℕ

unfoldable pub new_sliding_window_limiter : ℕ → ℕ → SlidingWindowLimiter
new_sliding_window_limiter rate window = record { requests = []; rate = rate; window = window }

-- The request is still in the window.
abbrev pub is_recent : ℕ → ℕ → ℕ → Bool
is_recent window now request = ltb now (request + window)

unfoldable pub allow : ℕ → SlidingWindowLimiter → SlidingWindowLimiter × Bool
allow now swl =
    let valid_requests = keep (is_recent swl.window now) swl.requests in
    if ltb (length valid_requests) swl.rate
    then (record swl { requests = valid_requests ++ now ∷ [] }, true)
    else (record swl { requests = valid_requests }, false)

-- The loop of `WaitForSlot` over the readings of its rounds: the limiter, and the reading with which
-- it got its slot and those that are left, unless the readings end before.
unfoldable pub wait_for_slot : List ℕ → SlidingWindowLimiter → SlidingWindowLimiter × List ℕ × Bool
wait_for_slot [] swl = (swl, [], false)
wait_for_slot (now ∷ later) swl =
    let (swl', allowed) = allow now swl in
    let waiting = wait_for_slot later swl' in if allowed then (swl', now ∷ later, true) else waiting
