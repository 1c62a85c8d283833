-- ===== src/Limits/SlidingWindow/Rate.antt =====
-- How many requests the sliding window lets through.
use go_async_practice.Common.{
  ℕ, ◌+◌, ◌≤◌, ◌<◌, ◌≡◌, refl, Bool, true, false, ◌&&◌, List, [], ◌∷◌, ◌++◌, arith, ltb, leb,
  if◌then◌else◌, keep, length, count_if, keep-append, sym, ap, ◌∙◌, Bool-cases, inl, inr, ltb→lt,
}
use go_async_practice.Limits.SlidingWindow.{
  SlidingWindowLimiter, new_sliding_window_limiter, is_recent, allow,
}

-- The limiter behind a run of requests, with the instants of those allowed.
unfoldable pub run : List ℕ → List ℕ → SlidingWindowLimiter → SlidingWindowLimiter × List ℕ
run [] granted swl = (swl, granted)
run (now ∷ later) granted swl =
    let (swl', allowed) = allow now swl in
    run later (if allowed then granted ++ now ∷ [] else granted) swl'

-- The clock never goes back.
abbrev pub Rising : ℕ → List ℕ → Type 0
Rising last [] = Unit
Rising last (now ∷ later) = (last ≤ now) × Rising now later

-- How many instants lie behind `since`, up to one window later.
abbrev pub in_window : ℕ → ℕ → List ℕ → ℕ
in_window window since granted = count_if (λ t. ltb since t && leb t (since + window)) granted

length-keep : (p : ℕ → Bool) (xs : List ℕ) → length (keep p xs) ≡ count_if p xs
length-keep p [] = refl
length-keep p (x ∷ xs) = ground (arith, length-keep p xs)

keep_recent_twice :
    (window now now' : ℕ) (xs : List ℕ)
    → now ≤ now'
    → keep (is_recent window now') (keep (is_recent window now) xs)
      ≡ keep (is_recent window now') xs
keep_recent_twice window now now' [] le = refl
keep_recent_twice window now now' (x ∷ xs) le =
    ground (arith, keep_recent_twice window now now' xs le)

in_window-recent :
    (window since now : ℕ) (granted : List ℕ)
    → now ≤ since + window
    → in_window window since granted ≤ count_if (is_recent window now) granted
in_window-recent window since now [] le = omega arith
in_window-recent window since now (t ∷ granted) le =
    ground (arith, in_window-recent window since now granted le)

in_window-append :
    (window since now : ℕ) (granted : List ℕ)
    → in_window window since (granted ++ now ∷ [])
      ≡ in_window window since granted
        + (if ltb since now && leb now (since + window) then 1 else 0)
in_window-append window since now [] = ground arith
in_window-append window since now (t ∷ granted) =
    ground (arith, in_window-append window since now granted)

-- The limiter remembers of the granted requests those that a window from `last` on can hold, and no
-- window has held too many.
record IsFaithful (last : ℕ) (granted : List ℕ) (swl : SlidingWindowLimiter) : Type 0 where
  recent :
      (now : ℕ)
      → last ≤ now
      → keep (is_recent swl.window now) swl.requests ≡ keep (is_recent swl.window now) granted
  bounded : (since : ℕ) → in_window swl.window since granted ≤ swl.rate

allow-window :
    (now : ℕ) (swl : SlidingWindowLimiter)
    → ((allow now swl).0.window ≡ swl.window) × ((allow now swl).0.rate ≡ swl.rate)
unfolding allow
allow-window now swl = ground arith

-- `Allow` decides by the requests granted within the window.
allow-decides :
    (last now : ℕ) (granted : List ℕ) (swl : SlidingWindowLimiter)
    → last ≤ now
    → IsFaithful last granted swl
    → (allow now swl).1 ≡ ltb (count_if (is_recent swl.window now) granted) swl.rate
unfolding allow
allow-decides last now granted swl le f =
    let same = f.recent now le in
    let counted = length-keep (is_recent swl.window now) granted in
    let valid : length (keep (is_recent swl.window now) swl.requests)
        ≡ count_if (is_recent swl.window now) granted =
      ap length same ∙ counted in
    ground (arith, valid)

allow_granting :
    (now : ℕ) (swl : SlidingWindowLimiter)
    → (allow now swl).1 ≡ true
    → (allow now swl).0
      ≡ record swl { requests = keep (is_recent swl.window now) swl.requests ++ now ∷ [] }
unfolding allow
allow_granting now swl granted_now = ground arith

allow_refusing :
    (now : ℕ) (swl : SlidingWindowLimiter)
    → (allow now swl).1 ≡ false
    → (allow now swl).0 ≡ record swl { requests = keep (is_recent swl.window now) swl.requests }
unfolding allow
allow_refusing now swl refused = ground arith

granted_recent :
    (last now now' : ℕ) (granted : List ℕ) (swl : SlidingWindowLimiter)
    → last ≤ now
    → now ≤ now'
    → IsFaithful last granted swl
    → keep (is_recent swl.window now') (keep (is_recent swl.window now) swl.requests)
      ≡ keep (is_recent swl.window now') granted
granted_recent last now now' granted swl le le' f =
    keep_recent_twice swl.window now now' swl.requests le' ∙ f.recent now' (omega arith)

granted_bounded :
    (last now since : ℕ) (granted : List ℕ) (swl : SlidingWindowLimiter)
    → last ≤ now
    → IsFaithful last granted swl
    → (allow now swl).1 ≡ true
    → in_window swl.window since (granted ++ now ∷ []) ≤ swl.rate
granted_bounded last now since granted swl le f granted_now =
    let room : count_if (is_recent swl.window now) granted < swl.rate =
      ltb→lt _ _ (sym (allow-decides last now granted swl le f) ∙ granted_now) in
    let before = f.bounded since in
    let counted = in_window-append swl.window since now granted in
    ground (arith, room, before, counted, in_window-recent swl.window since now granted)

allow-IsFaithful :
    (last now : ℕ) (granted : List ℕ) (swl : SlidingWindowLimiter)
    → last ≤ now
    → IsFaithful last granted swl
    → IsFaithful now (if (allow now swl).1 then granted ++ now ∷ [] else granted) (allow now swl).0
allow-IsFaithful last now granted swl le f =
    let valid = keep (is_recent swl.window now) swl.requests in
    elim (Bool-cases (allow now swl).1) [
      | inl granted_now ↦
          rw (granted_now, allow_granting now swl granted_now)
            (record {
              recent = λ now' le'.
                  keep-append (is_recent swl.window now') valid (now ∷ [])
                  ∙ ap (λ xs. xs ++ keep (is_recent swl.window now') (now ∷ []))
                      (granted_recent last now now' granted swl le le' f)
                  ∙ sym (keep-append (is_recent swl.window now') granted (now ∷ []));
              bounded = λ since. granted_bounded last now since granted swl le f granted_now;
            })
      | inr refused ↦
          rw (refused, allow_refusing now swl refused)
            (record {
              recent = λ now' le'. granted_recent last now now' granted swl le le' f;
              bounded = f.bounded;
            })
    ]

-- The last reading of a clock.
abbrev pub latest : ℕ → List ℕ → ℕ
latest last [] = last
latest last (now ∷ later) = latest now later

run-IsFaithful :
    (last : ℕ) (clock granted : List ℕ) (swl : SlidingWindowLimiter)
    → Rising last clock
    → IsFaithful last granted swl
    → IsFaithful (latest last clock) (run clock granted swl).1 (run clock granted swl).0
unfolding run
run-IsFaithful last [] granted swl rising f = f
run-IsFaithful last (now ∷ later) granted swl (le, rising) f =
    run-IsFaithful now later (if (allow now swl).1 then granted ++ now ∷ [] else granted)
      (allow now swl).0 rising (allow-IsFaithful last now granted swl le f)

run-window :
    (clock granted : List ℕ) (swl : SlidingWindowLimiter)
    → ((run clock granted swl).0.window ≡ swl.window) × ((run clock granted swl).0.rate ≡ swl.rate)
unfolding run
run-window [] granted swl = (refl, refl)
run-window (now ∷ later) granted swl =
    let (w, r) = allow-window now swl in
    let (w', r') =
      run-window later (if (allow now swl).1 then granted ++ now ∷ [] else granted)
        (allow now swl).0 in
    (w' ∙ w, r' ∙ r)

new_sliding_window_limiter-IsFaithful :
    (rate window : ℕ) → IsFaithful 0 [] (new_sliding_window_limiter rate window)
unfolding new_sliding_window_limiter
new_sliding_window_limiter-IsFaithful rate window = record {
  recent = λ now le. refl;
  bounded = λ since. omega arith;
}

-- On a clock that never goes back, a new limiter lets no more than `rate` requests through in any
-- stretch of time as long as the window, wherever the stretch begins. And it refuses no request that
-- it could let through: `Allow` says yes exactly if fewer than `rate` of all requests let through so
-- far are younger than the window.
pub window_limits_rate :
    (rate window now : ℕ) (clock : List ℕ)
    → Rising 0 clock
    → latest 0 clock ≤ now
    → let behind = run clock [] (new_sliding_window_limiter rate window) in
      ((since : ℕ) → in_window window since behind.1 ≤ rate)
      × ((allow now behind.0).1 ≡ ltb (count_if (is_recent window now) behind.1) rate)
unfolding new_sliding_window_limiter
window_limits_rate rate window now clock rising le =
    let swl = new_sliding_window_limiter rate window in
    let f =
      run-IsFaithful 0 clock [] swl rising (new_sliding_window_limiter-IsFaithful rate window) in
    let (w, r) = run-window clock [] swl in
    let decides =
      allow-decides (latest 0 clock) now (run clock [] swl).1 (run clock [] swl).0 le f in
    ((λ since. rw (w, r) at f.bounded since), (rw (w, r) at decides))
