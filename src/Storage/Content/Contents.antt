-- ===== src/Storage/Content/Contents.antt =====
-- The store as a map from keys to contents.
use go_async_practice.Common.{
  ℕ, ◌/◌, ◌≡◌, ◌≢◌, refl, ap, ◌∙◌, String, true, List, [], ◌∷◌, ◌++◌, Option, none, some, arith,
  ltb, eq_iff, if◌then◌else◌, length, take, replicate, Option-cases, inl, inr,
}
use go_async_practice.Common.Dict.{Dict, lookup, insert, erase, lookup-erase}
use go_async_practice.Common.Table.{find}
use go_async_practice.Storage.Content.{
  Object, Storage, compress, decompress, new_storage, store_new, store, retrieve, delete,
}
use go_async_practice.Storage.Content.View.{
  view, hash_of, store_duplicate_lem, duplicate_own, retrieve_bytes,
}
use go_async_practice.Storage.Content.Keys.{drop_key-AllAt, delete-none, delete-some}
use go_async_practice.Storage.Content.Storing.{
  expected, Represents, store_new_own, store_new_found, store_fresh, store_known, store-Represents,
}

pub data Call : Type 0 where
  stores : (key : String) (bytes : List ℕ) (now : ℕ) → Call
  deletes : (key : String) → Call

-- What comes back of a content: the front half of one of 100 bytes or more, and as many zeros.
abbrev pub mangled : List ℕ → List ℕ
mangled bytes =
    let kept = if ltb (length bytes) 100 then bytes else take (length bytes / 2) bytes in
    kept ++ replicate (length kept) 0

-- The specification: a plain map.
abbrev pub contents_step : Call → Dict (List ℕ) → Dict (List ℕ)
contents_step (stores key bytes now) m = insert key bytes m
contents_step (deletes key) m = erase key m

-- Every key is stored under while it is free, and only bytes of the class `P`.
abbrev pub Allowed : (List ℕ → Type 0) → Call → Dict (List ℕ) → Type 0
Allowed P (stores key bytes now) m = P bytes × (lookup key m ≡ none)
Allowed P (deletes key) m = Unit

-- The contents behind a run of calls.
abbrev pub contents : List Call → Dict (List ℕ) → Dict (List ℕ)
contents [] m = m
contents (c ∷ cs) m = contents cs (contents_step c m)

abbrev pub AllAllowed : (List ℕ → Type 0) → List Call → Dict (List ℕ) → Type 0
AllAllowed P [] m = Unit
AllAllowed P (c ∷ cs) m = Allowed P c m × AllAllowed P cs (contents_step c m)

module _ (digest : List ℕ → ℕ) where
  unfoldable pub step : Call → Storage → Storage
  step (stores key bytes now) cas = (store digest key bytes now cas).0
  step (deletes key) cas = (delete key cas).0

  erased_class :
      (P : List ℕ → Type 0) (key : String) (m : Dict (List ℕ)) (cas : Storage)
      → Represents digest P m cas
      → (k : String) (d : List ℕ) → lookup k (erase key m) ≡ some d
      → P d
  erased_class P key m cas r k d e = r.class k d (ground (arith, lookup-erase key k m))

  delete-Represents :
      (P : List ℕ → Type 0) (key : String) (m : Dict (List ℕ)) (cas : Storage)
      → Represents digest P m cas
      → Represents digest P (erase key m) (delete key cas).0
  delete-Represents P key m cas r = elim (Option-cases (lookup key cas.objects)) [
    | inl gone ↦
        let view_gone : view (lookup key cas.objects) ≡ none = ap view gone in
        rw (delete-none key cas gone) (record {
          same = λ k. ground (arith, r.same k, view_gone, eq_iff key k, lookup-erase key k m);
          class = erased_class P key m cas r;
          indexed = r.indexed;
        })
    | inr (o, e) ↦
        let (objects, index) = delete-some key cas o e in
        record {
          same = λ k.
              rw objects
                (ground (arith, r.same k, lookup-erase key k m, lookup-erase key k cas.objects));
          class = erased_class P key m cas r;
          indexed = λ hash keys f. rw objects (
              drop_key-AllAt key o.content_hash hash keys cas.index cas.objects (ap hash_of e)
                r.indexed (rw index at f));
        }
  ]

  new_storage-Represents : (P : List ℕ → Type 0) → Represents digest P [] new_storage
  unfolding new_storage lookup find
  new_storage-Represents P = record {
    same = λ k. refl;
    class = λ k d e. cc;
    indexed = λ hash keys e. cc;
  }

  unfoldable pub run : List Call → Storage → Storage
  run [] cas = cas
  run (c ∷ cs) cas = run cs (step c cas)

  run-Represents :
      (P : List ℕ → Type 0) (calls : List Call) (m : Dict (List ℕ)) (cas : Storage)
      → ((a b : List ℕ) → P a → P b → digest a ≡ digest b → a ≡ b)
      → Represents digest P m cas
      → AllAllowed P calls m
      → Represents digest P (contents calls m) (run calls cas)
  unfolding run step
  run-Represents P [] m cas inj r ok = r
  run-Represents P (stores key bytes now ∷ cs) m cas inj r ((p, free), ok) =
      run-Represents P cs (insert key bytes m) (store digest key bytes now cas).0 inj
        (store-Represents digest P key bytes now m cas inj r p free) ok
  run-Represents P (deletes key ∷ cs) m cas inj r (_, ok) =
      run-Represents P cs (erase key m) (delete key cas).0 inj (delete-Represents P key m cas r) ok

  retrieve_view :
      (k : String) (m : Dict (List ℕ)) (cas : Storage)
      → view (lookup k cas.objects) ≡ expected digest (lookup k m)
      → retrieve k cas ≡ elim (lookup k m) [ none ↦ none | some bytes ↦ some (mangled bytes) ]
  unfolding retrieve compress decompress
  retrieve_view k m cas e = ground arith

  viewed_object :
      (o : Option Object) (bytes : List ℕ)
      → view o ≡ expected digest (some bytes)
      → (x : Object) × (o ≡ some x) × (x.bytes ≡ compress bytes) × (x.compressed ≡ true)
  viewed_object none bytes e = cc
  viewed_object (some x) bytes e =
      let parts : (x.bytes ≡ compress bytes) × (x.compressed ≡ true) = ground (arith, e) in
      (x, refl, parts.0, parts.1)

  run_three :
      (key other : String) (old new : List ℕ) (now : ℕ) (cas : Storage)
      → run (stores key old now ∷ stores key new now ∷ stores other old now ∷ []) cas
        ≡ (store digest other old now
            (store digest key new now (store digest key old now cas).0).0).0
  unfolding run step
  run_three key other old new now cas = refl

  mangled_lem : (bytes : List ℕ) → some (decompress (compress bytes)) ≡ some (mangled bytes)
  unfolding decompress compress
  mangled_lem bytes = refl

-- As long as every key is free when something is stored under it, and no two contents of the class
-- `P` that are stored have one hash, the store with its deduplication is a map from keys to
-- contents, deletions included, but what `Retrieve` gives back is not what was stored: of fewer than
-- 100 bytes it is the bytes and as many zeros behind them, of more the front half and as many zeros.
pub retrieve_mangles :
    (digest : List ℕ → ℕ) (P : List ℕ → Type 0) (calls : List Call) (key : String)
    → ((a b : List ℕ) → P a → P b → digest a ≡ digest b → a ≡ b)
    → AllAllowed P calls []
    → retrieve key (run digest calls new_storage)
      ≡ elim (lookup key (contents calls [])) [ none ↦ none | some bytes ↦ some (mangled bytes) ]
unfolding new_storage
retrieve_mangles digest P calls key inj ok =
    let r = run-Represents digest P calls [] new_storage inj (new_storage-Represents digest P) ok in
    retrieve_view digest key (contents calls []) (run digest calls new_storage) (r.same key)

-- A key is overwritten: `key` holds `old` first and then `new`, which differ in their hashes, and
-- neither hash is in the index before. Then storing `old` under any other key gives that key what is
-- stored of `new`, since the index still names `key` under the hash of `old`.
pub overwrite_corrupts :
    (digest : List ℕ → ℕ) (key other : String) (old new : List ℕ) (now : ℕ) (cas : Storage)
    → digest old ≢ digest new
    → find (digest old) cas.index ≡ none
    → find (digest new) cas.index ≡ none
    → retrieve other
        (run digest (stores key old now ∷ stores key new now ∷ stores other old now ∷ []) cas)
      ≡ some (mangled new)
overwrite_corrupts digest key other old new now cas differ none_old none_new =
    let s1 = (store_new digest key old now cas).0 in
    let s2 = (store_new digest key new now s1).0 in
    let first = store_fresh digest key old now cas (inl none_old) in
    let still_none : find (digest new) s1.index ≡ none =
      ground (arith, store_new_found digest key old now (digest new) cas) in
    let second = store_fresh digest key new now s1 (inl still_none) in
    let known : find (digest old) s2.index ≡ some (key ∷ []) = ground (
      arith,
      store_new_found digest key old now (digest old) cas,
      store_new_found digest key new now (digest old) s1,
    ) in
    let (o, found, bytes, compressed) =
      viewed_object digest _ new (store_new_own digest key new now s1) in
    let third = store_known digest other old now key [] s2 known in
    let copied = store_duplicate_lem other (digest old) now (key ∷ []) key s2 o found in
    let own = duplicate_own other key (digest old) now o s2.objects in
    rw (run_three digest key other old new now cas, first, second, third, copied)
      (retrieve_bytes other _ (digest old) o.bytes (own ∙ rw compressed refl)
        ∙ rw bytes (mangled_lem digest new))
