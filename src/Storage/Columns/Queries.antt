-- ===== src/Storage/Columns/Queries.antt =====
-- Queries of the columns against the rows that were inserted.
use mathlib.Core.Path.{subst}
use mathlib.Core.List.{append_assoc, append-nil}
use go_async_practice.Common.{
  ℕ, suc, ◌+◌, ◌<◌, ◌≡◌, ◌≢◌, refl, sym, ap, ◌∙◌, String, Bool, true, false, ◌||◌, List, [], ◌∷◌,
  ◌++◌, map, some, arith, length, length-append, keep, get_elem?, All, All-weaken, str_eq, eq_iff,
  Option-cases, Bool-cases, inl, inr,
}
use go_async_practice.Common.Dict.{Dict, lookup, insert}
use go_async_practice.Storage.Columns.{
  Value, Column, Storage, new_storage, gather, build_row, select_rows, query,
}
use go_async_practice.Storage.Columns.Inserts.{values_of}
use go_async_practice.Storage.Columns.Rows.{
  IsUnique, value_at, project, IsRow, create_all, insert_all, rows_of, column_of, insert_all-Holds,
  created-Holds,
}

-- A key that is not there is written at the end.
insert_fresh :
    {V : Type 0} (k : String) (v : V) (m : Dict V)
    → All (λ entry. entry.0 ≢ k) m
    → insert k v m ≡ m ++ (k, v) ∷ []
unfolding insert
insert_fresh k v [] fresh = refl
insert_fresh k v (entry ∷ m) (ne, fresh) =
    let apart : str_eq entry.0 k ≡ false = ground (arith, ne, eq_iff entry.0 k) in
    rw apart (ap (λ rest. entry ∷ rest) (insert_fresh k v m fresh))

-- None of the names is a key.
abbrev Apart : {V : Type 0} → List String → Dict V → Type 0
Apart names m = All (λ entry. All (λ k. entry.0 ≢ k) names) m

Apart-head :
    {V : Type 0} (name : String) (names : List String) (m : Dict V)
    → Apart (name ∷ names) m
    → All (λ entry. entry.0 ≢ name) m
Apart-head name names m apart =
    All-weaken (λ entry. All (λ k. entry.0 ≢ k) (name ∷ names)) (λ entry. entry.0 ≢ name) m
      (λ entry a. a.0) apart

Apart-next :
    {V : Type 0} (name : String) (names : List String) (v : V) (m : Dict V)
    → All (λ k. name ≢ k) names
    → Apart (name ∷ names) m
    → Apart names (m ++ (name, v) ∷ [])
Apart-next name names v [] new apart = (new, tt)
Apart-next name names v (entry ∷ m) new ((ne, others), apart) =
    (others, Apart-next name names v m new apart)

length-column_of : (k : String) (rows : List (Dict Value)) → length (column_of k rows) ≡ length rows
length-column_of k [] = refl
length-column_of k (row ∷ rows) = ap suc (length-column_of k rows)

gather_next :
    (name : String) (names : List String) (columns : Dict Column) (column_data : Dict (List Value))
    (num_rows : ℕ) (values : List Value)
    → values_of name columns ≡ some values
    → gather (name ∷ names) columns column_data num_rows
      ≡ gather names columns (insert name values column_data) (length values)
unfolding gather
gather_next name names columns column_data num_rows values e =
    elim (Option-cases (lookup name columns)) [
      | inl absent ↦ absurd (ground (arith, e, absent))
      | inr (col, there) ↦
          let same : col.values ≡ values = ground (arith, e, there) in ground (arith, there, same)
    ]

-- The number of rows behind the last column.
abbrev count_for : List String → ℕ → List (Dict Value) → ℕ
count_for [] num_rows rows = num_rows
count_for (name ∷ names) num_rows rows = length rows

count_for_rows :
    (names : List String) (rows : List (Dict Value))
    → count_for names (length rows) rows ≡ length rows
count_for_rows [] rows = refl
count_for_rows (name ∷ names) rows = refl

-- What the gathering of columns gives, for names that are all there.
gather-columns :
    (names : List String) (rows : List (Dict Value)) (columns : Dict Column)
    (column_data : Dict (List Value)) (num_rows : ℕ)
    → IsUnique names
    → All (λ k. values_of k columns ≡ some (column_of k rows)) names
    → Apart names column_data
    → gather names columns column_data num_rows
      ≡ (column_data ++ map (λ k. (k, column_of k rows)) names, count_for names num_rows rows)
unfolding gather
gather-columns [] rows columns column_data num_rows unique held apart =
    rw (append-nil column_data) refl
gather-columns (name ∷ names) rows columns column_data num_rows (new, unique) (here, held) apart =
    let column = column_of name rows in
    gather_next name names columns column_data num_rows column here
    ∙ ap (λ n. gather names columns (insert name column column_data) n) (length-column_of name rows)
    ∙ ap (λ m. gather names columns m (length rows))
        (insert_fresh name column column_data (Apart-head name names column_data apart))
    ∙ gather-columns names rows columns (column_data ++ (name, column) ∷ []) (length rows) unique
        held (Apart-next name names column column_data new apart)
    ∙ rw
        (
          count_for_rows names rows,
          append_assoc column_data ((name, column) ∷ []) (map (λ k. (k, column_of k rows)) names),
        )
        refl

get_elem?-middle :
    {A : Type 0} (front : List A) (x : A) (back : List A)
    → get_elem? (front ++ x ∷ back) (length front) ≡ some x
get_elem?-middle [] x back = refl
get_elem?-middle (y ∷ front) x back = get_elem?-middle front x back

column_of-middle :
    (k : String) (front : List (Dict Value)) (row : Dict Value) (back : List (Dict Value))
    → get_elem? (column_of k (front ++ row ∷ back)) (length front) ≡ some (value_at k row)
column_of-middle k [] row back = refl
column_of-middle k (x ∷ front) row back = column_of-middle k front row back

build_row_next :
    (i : ℕ) (name : String) (values : List Value) (value : Value)
    (entries : List (String × List Value)) (built : Dict Value)
    → get_elem? values i ≡ some value
    → build_row i ((name, values) ∷ entries) built ≡ build_row i entries (insert name value built)
unfolding build_row
build_row_next i name values value entries built e = ground (arith, e)

-- The row that is put together is the projection of the row inserted.
build_row-project :
    (names : List String) (front : List (Dict Value)) (row : Dict Value) (back : List (Dict Value))
    (built : Dict Value)
    → IsUnique names
    → Apart names built
    → build_row (length front) (map (λ k. (k, column_of k (front ++ row ∷ back))) names) built
      ≡ built ++ project names row
unfolding build_row
build_row-project [] front row back built unique apart = sym (append-nil built)
build_row-project (name ∷ names) front row back built (new, unique) apart =
    let value = value_at name row in
    build_row_next (length front) name (column_of name (front ++ row ∷ back)) value
      (map (λ k. (k, column_of k (front ++ row ∷ back))) names) built
      (column_of-middle name front row back)
    ∙ ap (λ m. build_row (length front) (map (λ k. (k, column_of k (front ++ row ∷ back))) names) m)
        (insert_fresh name value built (Apart-head name names built apart))
    ∙ build_row-project names front row back (built ++ (name, value) ∷ []) unique
        (Apart-next name names value built new apart)
    ∙ append_assoc built ((name, value) ∷ []) (project names row)

select_rows-keep :
    (names : List String) (predicate : Dict Value → Bool) (front back : List (Dict Value))
    → IsUnique names
    → select_rows
        (length back)
        (length front)
        (map (λ k. (k, column_of k (front ++ back))) names)
        predicate
      ≡ keep predicate (map (project names) back)
unfolding select_rows
select_rows-keep names predicate front [] unique = refl
select_rows-keep names predicate front (row ∷ back) unique =
    let all = front ++ row ∷ back in
    let cells : List (Dict Value) → Dict (List Value) =
      λ rows. map (λ k. (k, column_of k rows)) names in
    let size : length front + 1 ≡ length (front ++ row ∷ []) =
      omega (arith, length-append front (row ∷ [])) in
    let built = build_row-project names front row back [] unique tt in
    let rest : select_rows (length back) (length front + 1) (cells all) predicate
        ≡ keep predicate (map (project names) back) =
      ap (λ n. select_rows (length back) n (cells all) predicate) size
      ∙ ap (λ rs. select_rows (length back) (length (front ++ row ∷ [])) (cells rs) predicate)
          (sym (append_assoc front (row ∷ []) back))
      ∙ select_rows-keep names predicate (front ++ row ∷ []) back unique in
    rw (built, rest) refl

abbrev pub is_in : String → List String → Bool
is_in k [] = false
is_in k (name ∷ names) = str_eq name k || is_in k names

All-is_in :
    (Q : String → Type 0) (k : String) (names : List String)
    → All Q names
    → is_in k names ≡ true
    → Q k
All-is_in Q k (name ∷ names) (here, all) e = elim (Bool-cases (str_eq name k)) [
  | inl same ↦ let at : name ≡ k = ground (arith, same, eq_iff name k) in subst Q at here
  | inr apart ↦ All-is_in Q k names all (ground (arith, e, apart))
]
All-is_in Q k [] all e = cc

query_gathered :
    (asked : List String) (predicate : Dict Value → Bool) (cs : Storage)
    (column_data : Dict (List Value)) (num_rows : ℕ)
    → gather asked cs.columns [] 0 ≡ (column_data, num_rows)
    → query asked predicate cs ≡ select_rows num_rows 0 column_data predicate
unfolding query
query_gathered asked predicate cs column_data num_rows e =
    ap (λ g. select_rows g.1 0 g.0 predicate) e

count_for_asked :
    (names : List String) (n : ℕ) (rows : List (Dict Value))
    → 0 < length names
    → count_for names n rows ≡ length rows
count_for_asked [] n rows some_name = absurd (omega (arith, some_name))
count_for_asked (name ∷ names) n rows some_name = refl

-- Columns are created, and rows are inserted, one after the other, that have a number for each of them.
-- Then no insertion panics, and a query behind them of some of the columns, none twice, gives what a
-- store of whole rows would give: the rows in the order of their insertion, cut down to these columns,
-- where the predicate holds.
pub query_rows :
    (columns : List (String × String)) (rows : List (ℕ × Dict Value)) (asked : List String)
    (predicate : Dict Value → Bool)
    → All (λ r. IsRow (map (λ c. c.0) columns) r.1) rows
    → 0 < length asked
    → IsUnique asked
    → All (λ k. is_in k (map (λ c. c.0) columns) ≡ true) asked
    → (cs : Storage) × (insert_all rows (create_all columns new_storage) ≡ some cs)
      × (query asked predicate cs ≡ keep predicate (map (project asked) (rows_of rows)))
unfolding new_storage lookup
query_rows columns rows asked predicate all some_column unique known =
    let names = map (λ c. c.0) columns in
    let created = created-Holds columns new_storage (λ k c e. absurd cc) in
    let (cs, e, h) = insert_all-Holds names rows [] (create_all columns new_storage) all created in
    let held =
      All-weaken (λ k. is_in k names ≡ true)
        (λ k. values_of k cs.columns ≡ some (column_of k (rows_of rows))) asked
        (λ k there.
          All-is_in (λ n. values_of n cs.columns ≡ some (column_of n (rows_of rows))) k names
            h.values there)
        known in
    let gathered = gather-columns asked (rows_of rows) cs.columns [] 0 unique held tt in
    (
      cs,
      e,
      query_gathered asked predicate cs _ _ gathered
          ∙ ap (λ n. select_rows n 0 (map (λ k. (k, column_of k (rows_of rows))) asked) predicate)
              (count_for_asked asked 0 (rows_of rows) some_column)
          ∙ select_rows-keep asked predicate [] (rows_of rows) unique,
    )
