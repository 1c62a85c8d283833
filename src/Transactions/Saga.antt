-- ===== src/Transactions/Saga.antt =====
-- solution2_SagaPattern of solutions/challenge12_solution.go: `executeSaga`, over any state `S` that
-- the steps' closures share and any type `E` of errors.
pub mod Compensation
use go_async_practice.Common.{
  Bool, true, false, Option, none, some, List, [], ◌∷◌, ◌++◌, String, if◌then◌else◌,
}
use mathlib.Core.List.{reverse}

module _ (S E : Type 0) where
  pub record Step : Type 0 where
    pub name : String
    pub execute : S → S × Option E
    pub compensate : S → S × Option E
    pub executed : Bool
    pub failed : Bool

module _ {S E : Type 0} where
  -- From the last step before the failure back to the first. An error of a compensation is printed,
  -- and the loop goes on.
  unfoldable pub compensate_back : List (Step S E) → S → S
  compensate_back [] s = s
  compensate_back (x ∷ done) s = compensate_back done (if x.executed then (x.compensate s).0 else s)

  -- `done` holds the steps executed so far, the last one first.
  unfoldable pub execute_from :
      List (Step S E) → List (Step S E) → S → List (Step S E) × S × Option E
  execute_from done [] s = (reverse done, s, none)
  execute_from done (x ∷ rest) s =
      let (s', error) = x.execute s in
      elim error [
        | none ↦ execute_from (record x { executed = true } ∷ done) rest s'
        | some e ↦
            (reverse done ++ record x { failed = true } ∷ rest, compensate_back done s', some e)
      ]

  unfoldable pub execute_saga : List (Step S E) → S → List (Step S E) × S × Option E
  unfolding execute_from compensate_back
  execute_saga steps s = execute_from [] steps s
