-- ===== src/Storage/Content/View.antt =====
-- What an object is, seen by its key: its hash and its bytes.
use go_async_practice.Common.{
  ◌⊎◌, ℕ, ◌+◌, ◌≡◌, ◌≢◌, refl, sym, ap, ◌∙◌, String, Bool, true, List, [], ◌∷◌, ◌++◌, Option, none,
  some, arith, eq_iff, All, All-weaken,
}
use go_async_practice.Common.Dict.{Dict, lookup, insert, lookup-insert, lookup-insert_self}
use go_async_practice.Common.Table.{Table, find, put, find-put}
use go_async_practice.Storage.Content.{Object, Storage, decompress, store_duplicate, retrieve}

pub absurd_none : (n : ℕ) → some n ≢ none
absurd_none n e = cc

pub some_inj : {a b : ℕ} → some a ≡ some b → a ≡ b
some_inj e = ground arith

pub none-some : (keys : List String) → none ≢ some keys
none-some keys e = cc

-- What matters of an object, and what it is for the bytes stored.
abbrev pub view : Option Object → Option (ℕ × List ℕ × Bool)
view none = none
view (some o) = some (o.content_hash, o.bytes, o.compressed)

abbrev pub hash_of : Option Object → Option ℕ
hash_of none = none
hash_of (some o) = some o.content_hash

abbrev pub AllAt : Dict Object → ℕ → List String → Type 0
AllAt objects hash keys = All (λ k. hash_of (lookup k objects) ≡ some hash) keys

pub AllAt-same :
    (objects : Dict Object) (hash hash' : ℕ) (keys keys' : List String)
    → hash ≡ hash'
    → keys ≡ keys'
    → AllAt objects hash' keys'
    → AllAt objects hash keys
AllAt-same objects hash hash' keys keys' e e' all = rw (e, e') all

-- Objects change only at a key that is free, and elsewhere keep their hashes.
pub AllAt-keeps :
    (key : String) (hash : ℕ) (keys : List String) (objects objects' : Dict Object)
    → lookup key objects ≡ none
    → ((k : String) → k ≢ key → hash_of (lookup k objects') ≡ hash_of (lookup k objects))
    → AllAt objects hash keys
    → AllAt objects' hash keys
AllAt-keeps key hash keys objects objects' free others all =
    All-weaken _ _ keys
      (λ k e.
        others k (λ (clash : k ≡ key).
          let gone : lookup k objects ≡ none = rw clash free in
          let no_hash : hash_of (lookup k objects) ≡ none = ap hash_of gone in
          absurd_none hash (sym e ∙ no_hash))
        ∙ e)
      all

pub same_hash : (o o' : Option Object) → view o ≡ view o' → hash_of o ≡ hash_of o'
same_hash o o' e = ground arith

pub put_cases :
    (i j : ℕ) (new keys : List String) (index : Table (List String))
    → find j (put i new index) ≡ some keys
    → ((j ≡ i) × (keys ≡ new)) ⊎ (find j index ≡ some keys)
put_cases i j new keys index e = ground (arith, find-put i j new index)

pub first_object :
    (o : Option Object) (hash : ℕ)
    → hash_of o ≡ some hash
    → (x : Object) × (o ≡ some x) × (x.content_hash ≡ hash)
first_object none hash e = cc
first_object (some x) hash e = (x, refl, ground arith)

pub view_none : (x : Object) → view (some x) ≢ none
view_none x e = cc

-- The old object's count of references goes up, and the new object has its bytes.
abbrev pub duplicate : String → String → ℕ → ℕ → Object → Dict Object → Dict Object
duplicate key first hash now o objects =
    insert key
      (record {
        key = key;
        content_hash = hash;
        size = o.size;
        ref_count = 1;
        created = now;
        bytes = o.bytes;
        compressed = o.compressed;
      })
      (insert first (record o { ref_count = o.ref_count + 1 }) objects)

pub store_duplicate_lem :
    (key : String) (hash now : ℕ) (keys : List String) (first : String) (cas : Storage) (o : Object)
    → lookup first cas.objects ≡ some o
    → (store_duplicate key hash now keys first cas).0 ≡ record cas {
      objects = duplicate key first hash now o cas.objects;
      index = put hash (keys ++ key ∷ []) cas.index;
      saved_space = cas.saved_space + o.size;
    }
unfolding store_duplicate
store_duplicate_lem key hash now keys first cas o e = ground arith

pub duplicate_own :
    (key first : String) (hash now : ℕ) (o : Object) (objects : Dict Object)
    → view (lookup key (duplicate key first hash now o objects))
      ≡ some (hash, o.bytes, o.compressed)
duplicate_own key first hash now o objects = ap view (lookup-insert_self key _ _)

pub duplicate_others :
    (key first : String) (hash now : ℕ) (o : Object) (objects : Dict Object) (k : String)
    → lookup first objects ≡ some o
    → k ≢ key
    → view (lookup k (duplicate key first hash now o objects)) ≡ view (lookup k objects)
duplicate_others key first hash now o objects k e ne =
    let counted : Object = record o { ref_count = o.ref_count + 1 } in
    let outer =
      lookup-insert key k
        (record {
          key = key;
          content_hash = hash;
          size = o.size;
          ref_count = 1;
          created = now;
          bytes = o.bytes;
          compressed = o.compressed;
        })
        (insert first counted objects) in
    grind (arith, outer, lookup-insert first k counted objects, eq_iff key k, eq_iff first k)

pub retrieve_bytes :
    (k : String) (cas : Storage) (hash : ℕ) (bytes : List ℕ)
    → view (lookup k cas.objects) ≡ some (hash, bytes, true)
    → retrieve k cas ≡ some (decompress bytes)
unfolding retrieve
retrieve_bytes k cas hash bytes e = ground arith
