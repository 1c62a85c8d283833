-- ===== src/Streams/Windows/Closed.antt =====
-- Closed windows.
use go_async_practice.Common.{
  ◌⊎◌, ℕ, ◌≡◌, refl, sym, ap, ◌∙◌, true, false, List, [], ◌∷◌, ◌++◌, none, some, arith, ◌==◌,
  Bool-cases, inl, inr,
}
use go_async_practice.Common.Table.{find}
use go_async_practice.Streams.Windows.{
  StreamEvent, Window, WindowManager, window_key, get_or_create_window, add_event, keys_to_evict,
}
use go_async_practice.Streams.Windows.Closing.{is_key, closed_by, find-close_and_evict}
use go_async_practice.Streams.Windows.Contents.{
  Call, adds, cleans, step, run, Added, kept, made, grown, add_event-Added,
}

module _ {A : Type 0} where
  Added-closed :
      (event : StreamEvent A) (m m' : WindowManager A) (key : ℕ) (w : Window A)
      → Added event m m'
      → find key m.windows ≡ some w
      → w.closed ≡ true
      → (find key m'.windows ≡ some w) ⊎ (find key m'.windows ≡ none)
  Added-closed event m m' key w (kept same) e closed = inl (rw same e)
  Added-closed event m m' key w (made v absent is duration found) e closed =
      inl (ground (arith, found key, absent, e))
  Added-closed event m m' key w (grown v v' there open_ room is duration found) e closed =
      elim (Bool-cases (window_key event.timestamp m == key)) [
        | inr other ↦ inl (ground (arith, found key, other, e))
        | inl same ↦
            let at : window_key event.timestamp m ≡ key = ground (arith, same) in
            let mine : some v ≡ some w = sym there ∙ ap (λ k. find k m.windows) at ∙ e in
            absurd (ground (arith, mine, open_, closed))
      ]

  -- A window that is closed stays as it is, unless it is evicted.
  step-closed :
      (c : Call A) (m : WindowManager A) (key : ℕ) (w : Window A)
      → find key m.windows ≡ some w
      → w.closed ≡ true
      → (find key (step c m).windows ≡ some w) ⊎ (find key (step c m).windows ≡ none)
  unfolding step
  step-closed (cleans now) m key w e closed =
      let same : closed_by now m.window_duration (some w) ≡ some w = ground (arith, closed) in
      elim (Bool-cases (is_key key (keys_to_evict now m.window_duration m.windows))) [
        | inl evicted ↦ inr (find-close_and_evict now key m ∙ rw evicted refl)
        | inr stays ↦ inl (find-close_and_evict now key m ∙ rw (stays, e) same)
      ]
  step-closed (adds event) m key w e closed =
      Added-closed event m _ key w (add_event-Added event m) e closed

  refused :
      (event : StreamEvent A) (m : WindowManager A) (w : Window A)
      → find (window_key event.timestamp m) m.windows ≡ some w
      → w.closed ≡ true
      → add_event event m ≡ (m, false)
  unfolding add_event get_or_create_window
  refused event m w e closed = ground (arith, e, closed)

-- A window is closed. Behind any calls either it is still there as it was, and every event that falls
-- into it is refused and changes nothing; or a cleanup among the calls has evicted it.
pub closed_window_refuses :
    {A : Type 0} (calls : List (Call A)) (m : WindowManager A) (key : ℕ) (w : Window A)
    → find key m.windows ≡ some w
    → w.closed ≡ true
    → ((find key (run calls m).windows ≡ some w)
        × ((event : StreamEvent A)
            → window_key event.timestamp (run calls m) ≡ key
            → add_event event (run calls m) ≡ (run calls m, false)))
      ⊎ ((front back : List (Call A)) × (calls ≡ front ++ back)
          × (find key (run front m).windows ≡ none))
unfolding run
closed_window_refuses [] m key w e closed =
    inl (e, λ event at. refused event m w (ap (λ k. find k m.windows) at ∙ e) closed)
closed_window_refuses (c ∷ calls) m key w e closed = elim (step-closed c m key w e closed) [
  | inr evicted ↦ inr (c ∷ [], calls, refl, evicted)
  | inl stays ↦ elim (closed_window_refuses calls (step c m) key w stays closed) [
    | inl same ↦ inl same
    | inr (front, back, split, evicted) ↦ inr (c ∷ front, back, ap (λ cs. c ∷ cs) split, evicted)
  ]
]
