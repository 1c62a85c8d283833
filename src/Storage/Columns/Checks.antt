-- ===== src/Storage/Columns/Checks.antt =====
-- The columns at concrete inputs.
use go_async_practice.Common.{
  ℕ, ◌≡◌, refl, String, Bool, ltb, List, [], ◌∷◌, map, some, none, keep, arith,
}
use go_async_practice.Common.Dict.{Dict, lookup, insert}
use go_async_practice.Storage.Columns.{
  Value, number, other, Storage, new_storage, create_column, update_column_stats, insert_entries,
  insert_row, gather, build_row, select_rows, query,
}
use go_async_practice.Storage.Columns.Rows.{create_all, insert_all, rows_of, project}
use go_async_practice.Storage.Columns.Queries.{query_rows}

abbrev columns : List (String × String)
columns = ("id", "int") ∷ ("age", "int") ∷ []

abbrev person : ℕ → ℕ → Dict Value
person id age = ("id", number id) ∷ ("age", number age) ∷ []

abbrev people : List (ℕ × Dict Value)
people = (1, person 7 30) ∷ (2, person 8 40) ∷ []

abbrev is_over_35 : Dict Value → Bool
is_over_35 row = elim (lookup "age" row) [
  | some (number age) ↦ ltb 35 age
  | some (other text) ↦ ltb 1 0
  | none ↦ ltb 1 0
]

query_rows_example :
    (cs : Storage) × (insert_all people (create_all columns new_storage) ≡ some cs)
    × (query ("age" ∷ []) is_over_35 cs
        ≡ keep is_over_35 (map (project ("age" ∷ [])) (rows_of people)))
unfolding lookup
query_rows_example =
    query_rows columns people ("age" ∷ []) is_over_35
      (
        (
          ((refl, (refl, tt)), ((7, refl), ((30, refl), tt))),
          ((number 7, refl), ((number 30, refl), tt)),
        ),
        (
          (
            ((refl, (refl, tt)), ((8, refl), ((40, refl), tt))),
            ((number 8, refl), ((number 40, refl), tt)),
          ),
          tt,
        ),
      )
      (omega arith) (tt, tt) (refl, tt)

one_is_over_35 :
    elim (insert_all people (create_all columns new_storage)) [
      | none ↦ []
      | some cs ↦ query ("age" ∷ []) is_over_35 cs
    ]
    ≡ (("age", number 40) ∷ []) ∷ []
unfolding new_storage create_all create_column insert_all insert_row insert_entries
    update_column_stats query gather select_rows build_row lookup insert
one_is_over_35 = refl
