-- ===== src/Storage/Columns.antt =====
-- ColumnarStorage of solutions/solution23_columnar_storage.go: rows that are stored by columns. A
-- value is an int, which is only compared and stands as a natural number, or something else, by its
-- text. `none` stands for the panic of a type assertion. The compactor's trigger is a channel, and is
-- left out; the entries of the log keep their rows and times. Insert and Query are one step each: the
-- calls modelled do not overlap. In the source Insert locks one column after the other, so that calls
-- that overlap can put their values into the columns in different orders.
use go_async_practice.Common.{
  ℕ, zero, suc, ◌+◌, String, Bool, List, [], ◌∷◌, ◌++◌, Option, none, some, ltb, if◌then◌else◌,
  length, get_elem?,
}
use go_async_practice.Common.Dict.{Dict, lookup, insert}
pub mod Inserts
pub mod Rows
pub mod Queries
pub mod Checks

pub data Value : Type 0 where
  number : ℕ → Value
  other : String → Value

pub record Column : Type 0 where
  pub name : String
  pub data_type : String
  pub values : List Value
  pub min : Option Value
  pub max : Option Value

pub record WalEntry : Type 0 where
  pub timestamp : ℕ
  pub operation : String
  pub row : Dict Value

pub record Storage : Type 0 where
  pub columns : Dict Column
  pub wal : List WalEntry
  pub total_rows : ℕ
  pub total_columns : ℕ

unfoldable pub new_storage : Storage
new_storage = record { columns = []; wal = []; total_rows = 0; total_columns = 0 }

unfoldable pub create_column : String → String → Storage → Storage
create_column name data_type cs =
    let col : Column = record {
      name = name;
      data_type = data_type;
      values = [];
      min = none;
      max = none;
    } in
    record cs { columns = insert name col cs.columns; total_columns = cs.total_columns + 1 }

-- `a.(int) < b.(int)`
abbrev pub less : Value → Value → Option Bool
less (number a) (number b) = some (ltb a b)
less (number a) (other b) = none
less (other a) b = none

-- One `if` of `updateColumnStats`: the new value replaces the old where the test holds.
abbrev pub better : (Value → Value → Option Bool) → Value → Option Value → Option (Option Value)
better test value none = some (some value)
better test value (some old) = elim (test value old) [
  | none ↦ none
  | some holds ↦ some (some (if holds then value else old))
]

unfoldable pub update_column_stats : Column → Value → Option Column
update_column_stats col value = elim (better less value col.min) [
  | none ↦ none
  | some min ↦ elim (better (λ a b. less b a) value col.max) [
    | none ↦ none
    | some max ↦ some (record col { min = min; max = max })
  ]
]

-- The loop of `Insert` over the entries of the row.
unfoldable pub insert_entries : List (String × Value) → Dict Column → Option (Dict Column)
unfolding update_column_stats
insert_entries [] columns = some columns
insert_entries ((name, value) ∷ entries) columns = elim (lookup name columns) [
  | none ↦ insert_entries entries columns
  | some col ↦ elim (update_column_stats (record col { values = col.values ++ value ∷ [] }) value) [
    | none ↦ none
    | some col' ↦ insert_entries entries (insert name col' columns)
  ]
]

unfoldable pub insert_row : Dict Value → ℕ → Storage → Option Storage
unfolding insert_entries
insert_row row now cs = elim (insert_entries row cs.columns) [
  | none ↦ none
  | some columns ↦ some (record {
    columns = columns;
    wal = cs.wal ++ record { timestamp = now; operation = "INSERT"; row = row } ∷ [];
    total_rows = cs.total_rows + 1;
    total_columns = cs.total_columns;
  })
]

-- The loop of `Query` that gathers the columns, with the number of rows.
unfoldable pub gather : List String → Dict Column → Dict (List Value) → ℕ → Dict (List Value) × ℕ
gather [] columns column_data num_rows = (column_data, num_rows)
gather (name ∷ names) columns column_data num_rows = elim (lookup name columns) [
  | none ↦ gather names columns column_data num_rows
  | some col ↦ gather names columns (insert name col.values column_data) (length col.values)
]

-- Row `i`, from the entries of the gathered columns.
unfoldable pub build_row : ℕ → List (String × List Value) → Dict Value → Dict Value
build_row i [] row = row
build_row i ((name, values) ∷ entries) row = elim (get_elem? values i) [
  | none ↦ build_row i entries row
  | some value ↦ build_row i entries (insert name value row)
]

-- The loop over the rows, with `left` of them from row `i` on.
unfoldable pub select_rows : ℕ → ℕ → Dict (List Value) → (Dict Value → Bool) → List (Dict Value)
unfolding build_row
select_rows zero i column_data predicate = []
select_rows (suc left) i column_data predicate =
    let row = build_row i column_data [] in
    let rest = select_rows left (i + 1) column_data predicate in
    if predicate row then row ∷ rest else rest

unfoldable pub query : List String → (Dict Value → Bool) → Storage → List (Dict Value)
unfolding gather select_rows
query columns predicate cs =
    let (column_data, num_rows) = gather columns cs.columns [] 0 in
    select_rows num_rows 0 column_data predicate
