-- ===== src/Storage/Content/Keys.antt =====
-- The index behind a deletion.
use go_async_practice.Common.{
  ◌⊎◌, ℕ, ◌≡◌, ◌≢◌, sym, ap, ◌∙◌, String, not, List, [], ◌∷◌, none, some, arith, str_eq, eq_iff,
  keep, All-weaken, Option-cases, Bool-cases, inl, inr,
}
use go_async_practice.Common.Dict.{Dict, lookup, erase, lookup-erase}
use go_async_practice.Common.Table.{Table, find, find-put, find-remove}
use go_async_practice.Storage.Content.{Object, Storage, delete, drop_key}
use go_async_practice.Storage.Content.View.{some_inj, none-some, hash_of, AllAt, AllAt-same}

pub lookup-erase_other :
    (key k : String) (objects : Dict Object)
    → k ≢ key
    → lookup k (erase key objects) ≡ lookup k objects
lookup-erase_other key k objects ne = grind (arith, lookup-erase key k objects, eq_iff key k)

-- A key that is not the one deleted stays, and so do all of those without it.
pub keep_without :
    (key : String) (hash : ℕ) (keys : List String) (objects : Dict Object)
    → AllAt objects hash keys
    → AllAt (erase key objects) hash (keep (λ k. not (str_eq k key)) keys)
keep_without key hash [] objects all = tt
keep_without key hash (k ∷ keys) objects (here, all) =
    let rest = keep_without key hash keys objects all in
    elim (Bool-cases (str_eq k key)) [
      | inl same ↦ rw same rest
      | inr other ↦ rw other (
        ap hash_of (lookup-erase_other key k objects (λ e. ground (arith, eq_iff k key))) ∙ here,
        rest,
      )
    ]

pub drop_key-none :
    (key : String) (hash : ℕ) (index : Table (List String))
    → find hash index ≡ none
    → drop_key key hash index ≡ index
unfolding drop_key
drop_key-none key hash index e = ground arith

pub drop_key-some :
    (key : String) (hash hash' : ℕ) (old keys : List String) (index : Table (List String))
    → find hash index ≡ some old
    → find hash' (drop_key key hash index) ≡ some keys
    → ((hash' ≡ hash) × (keys ≡ keep (λ k. not (str_eq k key)) old))
      ⊎ ((hash' ≢ hash) × (find hash' index ≡ some keys))
unfolding drop_key
drop_key-some key hash hash' old keys index e f = ground (
  arith,
  find-put hash hash' (keep (λ k. not (str_eq k key)) old) index,
  find-remove hash hash' index,
)

pub drop_key-AllAt :
    (key : String) (hash hash' : ℕ) (keys : List String) (index : Table (List String))
    (objects : Dict Object)
    → hash_of (lookup key objects) ≡ some hash
    → ((h : ℕ) (ks : List String) → find h index ≡ some ks → AllAt objects h ks)
    → find hash' (drop_key key hash index) ≡ some keys
    → AllAt (erase key objects) hash' keys
drop_key-AllAt key hash hash' keys index objects own indexed e =
    let elsewhere : hash' ≢ hash
        → find hash' index ≡ some keys
        → AllAt (erase key objects) hash' keys =
      λ ne f.
        All-weaken _ _ keys
          (λ k here.
            ap hash_of (
              lookup-erase_other key k objects (λ (clash : k ≡ key).
                let both : hash_of (lookup key objects) ≡ some hash' = rw (← clash) here in
                ne (some_inj (sym both ∙ own))))
            ∙ here)
          (indexed hash' keys f) in
    elim (Option-cases (find hash index)) [
      | inl missing ↦
          let f : find hash' index ≡ some keys = rw (drop_key-none key hash index missing) at e in
          elsewhere (λ same. none-some keys (sym (rw same missing) ∙ f)) f
      | inr (old, known) ↦ elim (drop_key-some key hash hash' old keys index known e) [
        | inl (same, list) ↦
            AllAt-same _ hash' hash keys _ same list
              (keep_without key hash old objects (indexed hash old known))
        | inr (ne, f) ↦ elsewhere ne f
      ]
    ]

pub delete-none :
    (key : String) (cas : Storage) → lookup key cas.objects ≡ none → (delete key cas).0 ≡ cas
unfolding delete
delete-none key cas e = ground arith

pub delete-some :
    (key : String) (cas : Storage) (o : Object)
    → lookup key cas.objects ≡ some o
    → ((delete key cas).0.objects ≡ erase key cas.objects)
      × ((delete key cas).0.index ≡ drop_key key o.content_hash cas.index)
unfolding delete
delete-some key cas o e = ground arith
