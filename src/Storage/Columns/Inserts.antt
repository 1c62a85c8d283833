-- ===== src/Storage/Columns/Inserts.antt =====
-- What the insertion of a row does to the columns.
use go_async_practice.Common.{
  ◌⊎◌, ℕ, ◌≡◌, refl, sym, ap, ◌∙◌, String, Bool, List, [], ◌∷◌, ◌++◌, Option, none, some, arith,
  ltb, All, str_eq, eq_iff, Option-cases, Bool-cases, inl, inr,
}
use go_async_practice.Common.Dict.{IsMap, Dict, lookup, insert, lookup-insert}
use go_async_practice.Storage.Columns.{
  Value, number, Column, less, better, update_column_stats, insert_entries,
}

-- Nothing yet, or a number.
abbrev pub IsNumeric : Option Value → Type 0
IsNumeric o = (o ≡ none) ⊎ ((n : ℕ) × (o ≡ some (number n)))

-- The statistics of all columns are numbers.
abbrev pub Comparable : Dict Column → Type 0
Comparable columns =
    (k : String) (c : Column) → lookup k columns ≡ some c → IsNumeric c.min × IsNumeric c.max

abbrev pub IsNumber : String × Value → Type 0
IsNumber entry = (n : ℕ) × (entry.1 ≡ number n)

abbrev pub values_of : String → Dict Column → Option (List Value)
values_of k columns = elim (lookup k columns) [ none ↦ none | some c ↦ some c.values ]

-- The values of a column behind a row with this entry.
abbrev pub appended : Option (List Value) → Option Value → Option (List Value)
appended none entry = none
appended (some values) none = some values
appended (some values) (some value) = some (values ++ value ∷ [])

better_numeric :
    (test : Value → Value → Option Bool) (n : ℕ) (o : Option Value)
    → ((a b : ℕ) → (t : Bool) × (test (number a) (number b) ≡ some t))
    → IsNumeric o
    → (m : ℕ) × (better test (number n) o ≡ some (some (number m)))
better_numeric test n o total (inl e) = rw e (n, refl)
better_numeric test n o total (inr (k, e)) =
    let (t, f) = total n k in
    elim (Bool-cases t) [
      | inl lower ↦ (n, ground (arith, e, f, lower))
      | inr higher ↦ (k, ground (arith, e, f, higher))
    ]

update_column_stats-IsNumeric :
    (col : Column) (n : ℕ)
    → IsNumeric col.min
    → IsNumeric col.max
    → (c : Column) × (update_column_stats col (number n) ≡ some c)
      × (c.values ≡ col.values)
      × (IsNumeric c.min × IsNumeric c.max)
unfolding update_column_stats
update_column_stats-IsNumeric col n low high =
    let (i, e) = better_numeric less n col.min (λ a b. (ltb a b, refl)) low in
    let (j, f) = better_numeric (λ a b. less b a) n col.max (λ a b. (ltb b a, refl)) high in
    (
      record col { min = some (number i); max = some (number j) },
      ground (arith, e, f),
      refl,
      (inr (i, refl), inr (j, refl)),
    )

-- What holds of the columns behind the entries of a row.
pub record Inserted (row : List (String × Value)) (before : Dict Column) : Type 0 where
  pub after : Dict Column
  pub result : insert_entries row before ≡ some after
  pub comparable : Comparable after
  pub values : (k : String) → values_of k after ≡ appended (values_of k before) (lookup k row)

pub insert-Comparable :
    (name : String) (col : Column) (columns : Dict Column)
    → IsNumeric col.min × IsNumeric col.max
    → Comparable columns
    → Comparable (insert name col columns)
insert-Comparable name col columns own all k c e = elim (Bool-cases (str_eq name k)) [
  | inl same ↦
      let mine : col ≡ c = ground (arith, e, same, lookup-insert name k col columns) in
      rw (sym mine) own
  | inr elsewhere ↦ all k c (ground (arith, e, elsewhere, lookup-insert name k col columns))
]

pub insert_entries-Inserted :
    (row : List (String × Value)) (columns : Dict Column)
    → IsMap row
    → All IsNumber row
    → Comparable columns
    → Inserted row columns
unfolding insert_entries lookup
insert_entries-Inserted [] columns m numbers all = record {
  after = columns;
  result = refl;
  comparable = all;
  values = λ k. ground arith;
}
insert_entries-Inserted ((name, value) ∷ row) columns (once, m) ((n, is_number), numbers) all =
    elim (Option-cases (lookup name columns)) [
      | inl absent ↦
          let rest = insert_entries-Inserted row columns m numbers all in
          record {
            after = rest.after;
            result = ground (arith, absent, rest.result);
            comparable = rest.comparable;
            values = λ k. ground (arith, rest.values k, eq_iff name k, absent);
          }
      | inr (col, there) ↦
          let (low, high) = all name col there in
          let grown : Column = record col { values = col.values ++ value ∷ [] } in
          let (c, e, vs, numeric) = update_column_stats-IsNumeric grown n low high in
          let updated : update_column_stats grown value ≡ some c =
            ap (update_column_stats grown) is_number ∙ e in
          let rest =
            insert_entries-Inserted row (insert name c columns) m numbers
              (insert-Comparable name c columns numeric all) in
          record {
            after = rest.after;
            result = ground (arith, there, updated, rest.result);
            comparable = rest.comparable;
            values = λ k. ground (
              arith,
              rest.values k,
              eq_iff name k,
              there,
              vs,
              once,
              lookup-insert name k c columns,
            );
          }
    ]
