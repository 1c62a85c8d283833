-- ===== src/Bus/Priority/Sorted.antt =====
-- The order in which the handlers of a bus with priorities run.
use mathlib.Core.List.{append_assoc, append-nil}
use go_async_practice.Common.{
  str_eq, ℕ, ◌+◌, ◌≤◌, ◌≡◌, refl, String, List, [], ◌∷◌, ◌++◌, arith, ◌==◌, if◌then◌else◌, keep,
  All-weaken, eq_iff, sym, All,
}
use go_async_practice.Common.Dict.{Dict, lookup, lookup_or, lookup-insert}
use go_async_practice.Bus.Priority.{Subscriber, place, subscribe}

module _ {E : Type 0} where
  -- Higher priorities come first.
  abbrev pub Ordered : List (Subscriber E) → Type 0
  Ordered [] = Unit
  Ordered (s ∷ rest) = All (λ t. t.priority ≤ s.priority) rest × Ordered rest

  -- The subscribers of one priority, in order.
  abbrev pub at_level : ℕ → List (Subscriber E) → List (Subscriber E)
  at_level p subscribers = keep (λ s. s.priority == p) subscribers

  place-All :
      (n : ℕ) (s : Subscriber E) (subscribers : List (Subscriber E))
      → s.priority ≤ n
      → All (λ t. t.priority ≤ n) subscribers
      → All (λ t. t.priority ≤ n) (place s subscribers)
  unfolding place
  place-All n s [] le all = (le, tt)
  place-All n s (t ∷ rest) le all = ground (arith, place-All n s rest le all.1)

  lower :
      (m n : ℕ) (subscribers : List (Subscriber E))
      → m ≤ n
      → All (λ t. t.priority ≤ m) subscribers
      → All (λ t. t.priority ≤ n) subscribers
  lower m n subscribers le all =
      All-weaken (λ t. t.priority ≤ m) (λ t. t.priority ≤ n) subscribers (λ t h. omega arith) all

  place-Ordered :
      (s : Subscriber E) (subscribers : List (Subscriber E))
      → Ordered subscribers
      → Ordered (place s subscribers)
  unfolding place
  place-Ordered s [] o = (tt, tt)
  place-Ordered s (t ∷ rest) (all, o) =
      ground (
        arith,
        place-Ordered s rest o,
        place-All t.priority s rest,
        lower t.priority s.priority rest,
      )

  at_level_above :
      (p : ℕ) (subscribers : List (Subscriber E))
      → All (λ t. t.priority + 1 ≤ p) subscribers
      → at_level p subscribers ≡ []
  at_level_above p [] all = refl
  at_level_above p (t ∷ rest) (here, all) = ground (arith, at_level_above p rest all)

  at_level-place :
      (p : ℕ) (s : Subscriber E) (subscribers : List (Subscriber E))
      → Ordered subscribers
      → at_level p (place s subscribers)
        ≡ (if s.priority == p then at_level p subscribers ++ s ∷ [] else at_level p subscribers)
  unfolding place
  at_level-place p s [] o = ground arith
  at_level-place p s (t ∷ rest) (all, o) = ground (
    arith,
    at_level-place p s rest o,
    λ (le : t.priority + 1 ≤ p). at_level_above p rest (
        All-weaken (λ u. u.priority ≤ t.priority) (λ u. u.priority + 1 ≤ p) rest
          (λ u h. omega arith) all),
  )

  -- A run of subscriptions, each with its type of event.
  unfoldable pub subscribe_all :
      List (String × Subscriber E) → Dict (List (Subscriber E)) → Dict (List (Subscriber E))
  subscribe_all [] subscribers = subscribers
  subscribe_all ((event_type, s) ∷ calls) subscribers =
      subscribe_all calls (subscribe event_type s subscribers)

  -- The subscribers of an event type, in the order of the calls.
  abbrev pub calls_for : String → List (String × Subscriber E) → List (Subscriber E)
  calls_for event_type [] = []
  calls_for event_type ((t, s) ∷ calls) =
      if str_eq t event_type then s ∷ calls_for event_type calls else calls_for event_type calls

  subscribe_lem :
      (t u : String) (s : Subscriber E) (d : Dict (List (Subscriber E)))
      → lookup_or u [] (subscribe t s d)
        ≡ (if str_eq t u then place s (lookup_or u [] d) else lookup_or u [] d)
  unfolding subscribe
  subscribe_lem t u s d =
      ground (arith, eq_iff t u, lookup-insert t u (place s (lookup_or t [] d)) d)

  subscribe_all-from :
      (u : String) (p : ℕ) (calls : List (String × Subscriber E)) (d : Dict (List (Subscriber E)))
      → Ordered (lookup_or u [] d)
      → Ordered (lookup_or u [] (subscribe_all calls d))
        × (at_level p (lookup_or u [] (subscribe_all calls d))
            ≡ at_level p (lookup_or u [] d) ++ at_level p (calls_for u calls))
  unfolding subscribe_all
  subscribe_all-from u p [] d o = (o, sym (append-nil (at_level p (lookup_or u [] d))))
  subscribe_all-from u p ((t, s) ∷ calls) d o =
      let old = lookup_or u [] d in
      let one = subscribe_lem t u s d in
      ground (
        arith,
        one,
        place-Ordered s old o,
        at_level-place p s old o,
        subscribe_all-from u p calls (subscribe t s d),
        append_assoc (at_level p old) (s ∷ []) (at_level p (calls_for u calls)),
      )

-- After any run of subscriptions on a new bus, the subscribers of each event type stand in order of
-- falling priority, and those of equal priority in the order in which they subscribed, each of them
-- once for each time it subscribed.
pub subscribe_all-Ordered :
    {E : Type 0} (event_type : String) (p : ℕ) (calls : List (String × Subscriber E))
    → let subscribers = lookup_or event_type [] (subscribe_all calls []) in
      Ordered subscribers × (at_level p subscribers ≡ at_level p (calls_for event_type calls))
unfolding lookup
subscribe_all-Ordered event_type p calls = subscribe_all-from event_type p calls [] tt
