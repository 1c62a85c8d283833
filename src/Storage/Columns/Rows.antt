-- ===== src/Storage/Columns/Rows.antt =====
-- What the columns hold behind insertions.
use mathlib.Core.List.{append_assoc, append-nil}
use go_async_practice.Common.{
  ℕ, ◌+◌, ◌≡◌, ◌≢◌, refl, sym, ap, String, List, [], ◌∷◌, ◌++◌, map, Option, none, some, arith,
  if◌then◌else◌, All, All-weaken, str_eq, eq_refl, inl,
}
use go_async_practice.Common.Dict.{IsMap, Dict, lookup, lookup-insert}
use go_async_practice.Storage.Columns.{Value, other, Column, Storage, create_column, insert_row}
use go_async_practice.Storage.Columns.Inserts.{
  Comparable, IsNumber, values_of, appended, insert-Comparable, insert_entries-Inserted,
}

-- No name twice.
abbrev pub IsUnique : List String → Type 0
IsUnique [] = Unit
IsUnique (name ∷ names) = All (λ k. name ≢ k) names × IsUnique names

abbrev pub value_at : String → Dict Value → Value
value_at k row = elim (lookup k row) [ none ↦ other "" | some value ↦ value ]

-- The row store: the values of these columns in a row.
abbrev pub project : List String → Dict Value → Dict Value
project names row = map (λ k. (k, value_at k row)) names

-- A row with a number for each of these columns.
abbrev pub IsRow : List String → Dict Value → Type 0
IsRow names row =
    (IsMap row × All IsNumber row) × All (λ k. (v : Value) × (lookup k row ≡ some v)) names

unfoldable pub create_all : List (String × String) → Storage → Storage
create_all [] cs = cs
create_all ((name, data_type) ∷ columns) cs = create_all columns (create_column name data_type cs)

-- The rows with the readings of the clock; `none` after a panic.
unfoldable pub insert_all : List (ℕ × Dict Value) → Storage → Option Storage
insert_all [] cs = some cs
insert_all ((now, row) ∷ rows) cs = elim (insert_row row now cs) [
  | none ↦ none
  | some cs' ↦ insert_all rows cs'
]

abbrev pub rows_of : List (ℕ × Dict Value) → List (Dict Value)
rows_of rows = map (λ r. r.1) rows

abbrev pub column_of : String → List (Dict Value) → List Value
column_of k rows = map (λ row. value_at k row) rows

-- The columns hold these rows.
pub record Holds (names : List String) (rows : List (Dict Value)) (columns : Dict Column)
    : Type 0 where
  pub comparable : Comparable columns
  pub values : All (λ k. values_of k columns ≡ some (column_of k rows)) names

map-append : {A B : Type 0} (f : A → B) (xs ys : List A) → map f (xs ++ ys) ≡ map f xs ++ map f ys
map-append f [] ys = refl
map-append f (x ∷ xs) ys = ap (λ zs. f x ∷ zs) (map-append f xs ys)

insert_row-Holds :
    (names : List String) (rows : List (Dict Value)) (row : Dict Value) (now : ℕ) (cs : Storage)
    → IsRow names row
    → Holds names rows cs.columns
    → (cs' : Storage) × (insert_row row now cs ≡ some cs')
      × Holds names (rows ++ row ∷ []) cs'.columns
unfolding insert_row
insert_row-Holds names rows row now cs ((m, numbers), complete) h =
    let r = insert_entries-Inserted row cs.columns m numbers h.comparable in
    (
      record {
        columns = r.after;
        wal = cs.wal ++ record { timestamp = now; operation = "INSERT"; row = row } ∷ [];
        total_rows = cs.total_rows + 1;
        total_columns = cs.total_columns;
      },
      ground (arith, r.result),
      record {
        comparable = r.comparable;
        values = all_values names rows row cs.columns r.after r.values complete h.values;
      },
    )
  where
    all_values :
        (ks : List String) (rows : List (Dict Value)) (row : Dict Value)
        (before after : Dict Column)
        → ((k : String) → values_of k after ≡ appended (values_of k before) (lookup k row))
        → All (λ k. (v : Value) × (lookup k row ≡ some v)) ks
        → All (λ k. values_of k before ≡ some (column_of k rows)) ks
        → All (λ k. values_of k after ≡ some (column_of k (rows ++ row ∷ []))) ks
    all_values [] rows row before after values complete held = tt
    all_values (k ∷ ks) rows row before after values ((v, e), complete) (here, held) = (
      ground (arith, values k, e, here, map-append (λ r. value_at k r) rows (row ∷ [])),
      all_values ks rows row before after values complete held,
    )

pub insert_all-Holds :
    (names : List String) (more : List (ℕ × Dict Value)) (rows : List (Dict Value)) (cs : Storage)
    → All (λ r. IsRow names r.1) more
    → Holds names rows cs.columns
    → (cs' : Storage) × (insert_all more cs ≡ some cs')
      × Holds names (rows ++ rows_of more) cs'.columns
unfolding insert_all
insert_all-Holds names [] rows cs all h = (cs, refl, rw (append-nil rows) h)
insert_all-Holds names ((now, row) ∷ more) rows cs (here, all) h =
    let (next, e, h') = insert_row-Holds names rows row now cs here h in
    let (last, e', h'') = insert_all-Holds names more (rows ++ row ∷ []) next all h' in
    (last, ground (arith, e, e'), rw (sym (append_assoc rows (row ∷ []) (rows_of more))) h'')

abbrev fresh_column : String → String → Column
fresh_column name data_type = record {
  name = name;
  data_type = data_type;
  values = [];
  min = none;
  max = none;
}

create_column-values :
    (name data_type k : String) (cs : Storage)
    → values_of k (create_column name data_type cs).columns
      ≡ (if str_eq name k then some [] else values_of k cs.columns)
unfolding create_column
create_column-values name data_type k cs =
    ground (arith, lookup-insert name k (fresh_column name data_type) cs.columns)

create_all-Holds :
    (names : List String) (more : List (String × String)) (cs : Storage)
    → Holds names [] cs.columns
    → Holds names [] (create_all more cs).columns
unfolding create_all create_column
create_all-Holds names [] cs h = h
create_all-Holds names ((name, data_type) ∷ more) cs h =
    create_all-Holds names more (create_column name data_type cs) (record {
      comparable = insert-Comparable name _ cs.columns (inl refl, inl refl) h.comparable;
      values =
          All-weaken (λ k. values_of k cs.columns ≡ some [])
            (λ k. values_of k (create_column name data_type cs).columns ≡ some []) names
            (λ k e. ground (arith, e, create_column-values name data_type k cs)) h.values;
    })

-- The columns that are created.
pub created-Holds :
    (columns : List (String × String)) (cs : Storage)
    → Comparable cs.columns
    → Holds (map (λ c. c.0) columns) [] (create_all columns cs).columns
unfolding create_all create_column
created-Holds [] cs all = record { comparable = all; values = tt }
created-Holds ((name, data_type) ∷ columns) cs all =
    let next = create_column name data_type cs in
    let comparable = insert-Comparable name _ cs.columns (inl refl, inl refl) all in
    let own = create_all-Holds (name ∷ []) columns next (record {
      comparable = comparable;
      values = (ground (arith, eq_refl name, create_column-values name data_type name cs), tt);
    }) in
    let rest = created-Holds columns next comparable in
    record { comparable = rest.comparable; values = (own.values.0, rest.values) }
