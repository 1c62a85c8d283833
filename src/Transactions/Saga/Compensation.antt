-- ===== src/Transactions/Saga/Compensation.antt =====
-- When a saga is atomic.
use mathlib.Core.List.{reverse}
use go_async_practice.Common.{
  ◌≡◌, refl, ◌∙◌, ap, true, Option, none, some, List, [], ◌∷◌, ◌++◌, All,
}
use go_async_practice.Transactions.Saga.{Step, compensate_back, execute_from, execute_saga}

-- `P` is an invariant of the shared state.
module _ {S E : Type 0} (P : S → Type 0) where
  -- A step that fails changes nothing. One that succeeds keeps `P`, and is undone by its
  -- compensation.
  abbrev pub Undone : Step S E → S → S × Option E → Type 0
  Undone x s (s', none) = P s' × ((x.compensate s').0 ≡ s)
  Undone x s (s', some e) = s' ≡ s

  abbrev pub CanUndo : Step S E → Type 0
  CanUndo x = (s : S) → P s → Undone x s (x.execute s)

module _ {S E : Type 0} where
  -- The steps one after the other, up to the first that fails, with no compensation.
  abbrev pub forward : List (Step S E) → S → S × Option E
  forward [] s = (s, none)
  forward (x ∷ rest) s =
      let (s', error) = x.execute s in elim error [ none ↦ forward rest s' | some e ↦ (s', some e) ]

  -- How a saga that began in `s` ends, given how its steps run forward: with their result, or back
  -- in `s` with the error of the step that failed.
  abbrev pub Atomic : S → S × Option E → S → Option E → Type 0
  Atomic s (t, none) final error = (final ≡ t) × (error ≡ none)
  Atomic s (t, some e) final error = (final ≡ s) × (error ≡ some e)

module _ {S E : Type 0} (P : S → Type 0) where
  execute_from-Atomic :
      (done steps : List (Step S E)) (s0 s : S)
      → P s
      → All (CanUndo P) steps
      → compensate_back done s ≡ s0
      → let r = execute_from done steps s in Atomic s0 (forward steps s) r.1 r.2
  unfolding execute_from compensate_back
  execute_from-Atomic done [] s0 s p undo back = (refl, refl)
  execute_from-Atomic done (x ∷ rest) s0 s p undo back = go (x.execute s) (undo.0 s p) (λ s' p' e.
      execute_from-Atomic (record x { executed = true } ∷ done) rest s0 s' p' undo.1
        (ap (compensate_back done) e ∙ back))
    where
      go :
          (r : S × Option E)
          → Undone P x s r
          → ((s' : S)
              → P s'
              → (x.compensate s').0 ≡ s
              → let q = execute_from (record x { executed = true } ∷ done) rest s' in
                Atomic s0 (forward rest s') q.1 q.2)
          → let q : List (Step S E) × S × Option E =
              let (s', error) = r in
              elim error [
                | none ↦ execute_from (record x { executed = true } ∷ done) rest s'
                | some e ↦ (
                  reverse done ++ record x { failed = true } ∷ rest,
                  compensate_back done s',
                  some e,
                )
              ] in
            let f : S × Option E =
              let (s', error) = r in
              elim error [ none ↦ forward rest s' | some e ↦ (s', some e) ] in
            Atomic s0 f q.1 q.2
      go (s', none) u ih = ih s' u.0 u.1
      go (s', some e) u ih = (ap (compensate_back done) u ∙ back, refl)

-- Suppose that every step of a saga, in the states where `P` holds, changes nothing where it fails,
-- and where it succeeds keeps `P` and is undone by its compensation. Then from such a state the saga
-- is atomic: it ends with what its steps do one after the other if all of them succeed, and else in
-- the state in which it began, with the error of the first failure.
pub execute_saga-Atomic :
    {S E : Type 0} (P : S → Type 0) (steps : List (Step S E)) (s : S)
    → P s
    → All (CanUndo P) steps
    → let r = execute_saga steps s in Atomic s (forward steps s) r.1 r.2
unfolding execute_saga compensate_back
execute_saga-Atomic P steps s p undo = execute_from-Atomic P [] steps s s p undo refl
