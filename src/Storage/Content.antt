-- ===== src/Storage/Content.antt =====
-- ContentAddressableStorage of solutions/solution24_object_storage.go. SHA-256 is the parameter
-- `digest`: the text of its 64 hexadecimal digits stands as the number that they write. Bytes are
-- numbers. The operations reach an object by its key alone, so the map holds the objects themselves.
-- The counters of references are natural numbers, and `RefCount - 1 <= 0` is written `RefCount <= 1`.

pub mod View
pub mod Keys
pub mod Storing
pub mod Contents
use go_async_practice.Common.{
  ℕ, zero, suc, ◌+◌, ◌-◌, ◌*◌, ◌/◌, ◌≤◌, String, Bool, true, false, not, List, [], ◌∷◌, ◌++◌,
  Option, none, some, ltb, ◌==◌, str_eq, if◌then◌else◌, length, keep, take, replicate,
}
use go_async_practice.Common.Dict.{Dict, lookup, insert, erase}
use go_async_practice.Common.Table.{Table, find, put, remove}

pub record Object : Type 0 where
  pub key : String
  pub content_hash : ℕ
  pub size : ℕ
  pub ref_count : ℕ
  pub created : ℕ
  pub bytes : List ℕ
  pub compressed : Bool

pub record DedupBlock : Type 0 where
  pub hash : ℕ
  pub size : ℕ
  pub ref_count : ℕ
  pub bytes : List ℕ

pub record Storage : Type 0 where
  pub objects : Dict Object
  pub index : Table (List String)
  pub hash_index : Table DedupBlock
  pub saved_space : ℕ

-- What `Store` ends with: the object, or a nil dereference where the index names a key that is gone.
pub data Outcome : Type 0 where
  stored : Object → Outcome
  nil_dereference : Outcome

unfoldable pub compress : List ℕ → List ℕ
compress bytes = if ltb (length bytes) 100 then bytes else take (length bytes / 2) bytes

-- `make([]byte, len(data)*2)`, with the data copied to its front.
unfoldable pub decompress : List ℕ → List ℕ
decompress bytes = bytes ++ replicate (length bytes) 0

unfoldable pub new_storage : Storage
new_storage = record { objects = []; index = []; hash_index = []; saved_space = 0 }

-- A new object with the bytes of an old one.
unfoldable pub store_duplicate : String → ℕ → ℕ → List String → String → Storage → Storage × Outcome
store_duplicate key hash now keys first cas = elim (lookup first cas.objects) [
  | none ↦ (cas, nil_dereference)
  | some existing ↦
      let counted =
        insert first (record existing { ref_count = existing.ref_count + 1 }) cas.objects in
      let obj : Object = record {
        key = key;
        content_hash = hash;
        size = existing.size;
        ref_count = 1;
        created = now;
        bytes = existing.bytes;
        compressed = existing.compressed;
      } in
      (
        record cas {
          objects = insert key obj counted;
          index = put hash (keys ++ key ∷ []) cas.index;
          saved_space = cas.saved_space + existing.size;
        },
        stored obj,
      )
]

module _ (digest : List ℕ → ℕ) where
  unfoldable pub store_new : String → List ℕ → ℕ → Storage → Storage × Outcome
  store_new key bytes now cas =
      let hash = digest bytes in
      let obj : Object = record {
        key = key;
        content_hash = hash;
        size = length bytes;
        ref_count = 1;
        created = now;
        bytes = compress bytes;
        compressed = true;
      } in
      (
        record cas {
          objects = insert key obj cas.objects;
          index = put hash (key ∷ []) cas.index;
          hash_index =
              put hash
                (record { hash = hash; size = length bytes; ref_count = 1; bytes = compress bytes })
                cas.hash_index;
        },
        stored obj,
      )

  unfoldable pub store : String → List ℕ → ℕ → Storage → Storage × Outcome
  store key bytes now cas = elim (find (digest bytes) cas.index) [
    | none ↦ store_new key bytes now cas
    | some keys ↦ elim keys [
      | [] ↦ store_new key bytes now cas
      | first ∷ rest ↦ store_duplicate key (digest bytes) now (first ∷ rest) first cas
    ]
  ]

unfoldable pub retrieve : String → Storage → Option (List ℕ)
unfolding decompress
retrieve key cas = elim (lookup key cas.objects) [
  | none ↦ none
  | some obj ↦ some (if obj.compressed then decompress obj.bytes else obj.bytes)
]

-- The references of the block, when the object has none left.
unfoldable pub release_block : ℕ → Table DedupBlock → Table DedupBlock
release_block hash blocks = elim (find hash blocks) [
  | none ↦ blocks
  | some block ↦
      if ltb 1 block.ref_count
      then put hash (record block { ref_count = block.ref_count - 1 }) blocks
      else remove hash blocks
]

unfoldable pub drop_key : String → ℕ → Table (List String) → Table (List String)
drop_key key hash index = elim (find hash index) [
  | none ↦ index
  | some keys ↦
      let new_keys = keep (λ k. not (str_eq k key)) keys in
      if ltb 0 (length new_keys) then put hash new_keys index else remove hash index
]

-- `Delete`, with whether the object was there.
unfoldable pub delete : String → Storage → Storage × Bool
unfolding release_block drop_key
delete key cas = elim (lookup key cas.objects) [
  | none ↦ (cas, false)
  | some obj ↦ (
    record cas {
      objects = erase key cas.objects;
      index = drop_key key obj.content_hash cas.index;
      hash_index =
          if ltb 1 obj.ref_count
          then cas.hash_index
          else release_block obj.content_hash cas.hash_index;
    },
    true,
  )
]
