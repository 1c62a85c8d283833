-- ===== src/Storage/Buckets/Versions.antt =====
-- The versions of an object.
use mathlib.Core.Path.{subst}
use mathlib.Core.List.{append_assoc, append-nil}
use go_async_practice.Common.{
  ℕ, ◌≡◌, refl, sym, ap, ◌∙◌, String, true, false, ◌&&◌, List, [], ◌∷◌, ◌++◌, map, Option, none,
  some, arith, if◌then◌else◌, str_eq, eq_iff, Option-cases, Bool-cases, inl, inr,
}
use go_async_practice.Common.Dict.{Dict, lookup, insert, lookup-insert, lookup-insert_self}
use go_async_practice.Storage.Buckets.{
  ObjectVersion, Object, Bucket, Storage, new_object, outdated, write_object, put_object,
  create_bucket, get_object,
}

pub record Put : Type 0 where
  pub bucket : String
  pub key : String
  pub bytes : List ℕ
  pub metadata : Dict String
  pub version_id : String
  pub now : ℕ

-- The contents that were put under a key of a bucket, in order.
abbrev pub contents_put : String → String → List Put → List (List ℕ)
contents_put bucket key [] = []
contents_put bucket key (p ∷ puts) =
    if str_eq p.bucket bucket && str_eq p.key key
    then p.bytes ∷ contents_put bucket key puts
    else contents_put bucket key puts

-- All versions but the last are outdated.
abbrev pub OnlyLast : List ObjectVersion → Type 0
OnlyLast [] = Unit
OnlyLast (v ∷ []) = v.is_latest ≡ true
OnlyLast (v ∷ w ∷ versions) = (v.is_latest ≡ false) × OnlyLast (w ∷ versions)

-- The contents of the versions.
abbrev pub version_bytes : List ObjectVersion → List (List ℕ)
version_bytes versions = map (λ v. v.bytes) versions

OnlyLast-append :
    (versions : List ObjectVersion) (new : ObjectVersion)
    → new.is_latest ≡ true
    → OnlyLast (map outdated versions ++ new ∷ [])
OnlyLast-append [] new latest = latest
OnlyLast-append (v ∷ []) new latest = (refl, latest)
OnlyLast-append (v ∷ w ∷ versions) new latest = (refl, OnlyLast-append (w ∷ versions) new latest)

version_bytes-append :
    (versions : List ObjectVersion) (new : ObjectVersion)
    → version_bytes (map outdated versions ++ new ∷ []) ≡ version_bytes versions ++ new.bytes ∷ []
version_bytes-append [] new = refl
version_bytes-append (v ∷ versions) new =
    ap (λ bs. v.bytes ∷ bs) (version_bytes-append versions new)

-- An object whose versions are these contents, the last of which it has itself.
unfoldable pub Kept : Option Object → List (List ℕ) → Type 0
Kept none contents = contents ≡ []
Kept (some obj) contents =
    ((version_bytes obj.versions ≡ contents) × OnlyLast obj.versions)
    × ((front : List (List ℕ)) × (contents ≡ front ++ obj.bytes ∷ []))

contents_put-cons :
    (bucket key : String) (p : Put) (puts : List Put)
    → contents_put bucket key (p ∷ puts)
      ≡ contents_put bucket key (p ∷ []) ++ contents_put bucket key puts
contents_put-cons bucket key p puts = ground arith

module _ (md5 : List ℕ → String) where
  write_object-Kept :
      (key : String) (bytes : List ℕ) (metadata : Dict String) (version_id : String) (now : ℕ)
      (o : Option Object) (contents : List (List ℕ))
      → Kept o contents
      → Kept
          (some (
            write_object md5 true bytes metadata version_id now
              (elim o [ none ↦ new_object key | some obj ↦ obj ])))
          (contents ++ bytes ∷ [])
  unfolding Kept write_object
  write_object-Kept key bytes metadata version_id now none contents e =
      rw e ((refl, refl), ([], refl))
  write_object-Kept key bytes metadata version_id now (some obj) contents ((same, only), last) = (
    (
      version_bytes-append obj.versions _ ∙ ap (λ bs. bs ++ bytes ∷ []) same,
      OnlyLast-append obj.versions _ refl,
    ),
    (contents, refl),
  )

  -- A bucket with versions, in which the object of a key has these.
  record History (bucket key : String) (contents : List (List ℕ)) (s : Storage) : Type 0 where
    b : Bucket
    there : lookup bucket s.buckets ≡ some b
    versioned : b.versioning ≡ true
    kept : Kept (lookup key b.objects) contents

  unfoldable pub put_all : List Put → Storage → Storage
  put_all [] s = s
  put_all (p ∷ puts) s =
      put_all puts (put_object md5 p.bucket p.key p.bytes p.metadata p.version_id p.now s).0

  put_object-buckets :
      (p : Put) (s : Storage) (b : Bucket)
      → lookup p.bucket s.buckets ≡ some b
      → let obj =
          write_object md5 b.versioning p.bytes p.metadata p.version_id p.now
            (elim (lookup p.key b.objects) [ none ↦ new_object p.key | some obj ↦ obj ]) in
        (put_object md5 p.bucket p.key p.bytes p.metadata p.version_id p.now s).0.buckets
        ≡ insert p.bucket (record b { objects = insert p.key obj b.objects }) s.buckets
  unfolding put_object
  put_object-buckets p s b e = ground (arith, e)

  put_object-missing :
      (p : Put) (s : Storage)
      → lookup p.bucket s.buckets ≡ none
      → (put_object md5 p.bucket p.key p.bytes p.metadata p.version_id p.now s).0 ≡ s
  unfolding put_object
  put_object-missing p s e = ground (arith, e)

  put_object-elsewhere :
      (p : Put) (bucket : String) (s : Storage)
      → str_eq p.bucket bucket ≡ false
      → lookup bucket
          (put_object md5 p.bucket p.key p.bytes p.metadata p.version_id p.now s).0.buckets
        ≡ lookup bucket s.buckets
  put_object-elsewhere p bucket s apart = elim (Option-cases (lookup p.bucket s.buckets)) [
    | inl missing ↦ ap (λ x. lookup bucket x.buckets) (put_object-missing p s missing)
    | inr (b, there) ↦
        ap (λ bs. lookup bucket bs) (put_object-buckets p s b there)
        ∙ lookup-insert p.bucket bucket _ s.buckets
        ∙ rw apart refl
  ]

  -- The objects of the bucket behind a write.
  written-Kept :
      (p : Put) (key : String) (contents : List (List ℕ)) (b : Bucket)
      → b.versioning ≡ true
      → Kept (lookup key b.objects) contents
      → Kept
          (lookup key (
            insert p.key
              (write_object md5 b.versioning p.bytes p.metadata p.version_id p.now
                (elim (lookup p.key b.objects) [ none ↦ new_object p.key | some obj ↦ obj ]))
              b.objects))
          (contents ++ (if str_eq p.key key then p.bytes ∷ [] else []))
  written-Kept p key contents b versioned kept = elim (Bool-cases (str_eq p.key key)) [
    | inr other ↦
        rw
          (
            lookup-insert p.key key
                (write_object md5 b.versioning p.bytes p.metadata p.version_id p.now
                  (elim (lookup p.key b.objects) [ none ↦ new_object p.key | some obj ↦ obj ]))
                b.objects,
            other,
            append-nil contents,
          )
          kept
    | inl own ↦
        let e : p.key ≡ key = ground (arith, own, eq_iff p.key key) in
        let obj =
          write_object md5 true p.bytes p.metadata p.version_id p.now
            (elim (lookup p.key b.objects) [ none ↦ new_object p.key | some obj ↦ obj ]) in
        rw (own, versioned)
          (subst (λ k. Kept (lookup k (insert p.key obj b.objects)) (contents ++ p.bytes ∷ [])) e
            (rw (lookup-insert_self p.key obj b.objects) (
              write_object-Kept p.key p.bytes p.metadata p.version_id p.now (lookup p.key b.objects)
                contents (subst (λ k. Kept (lookup k b.objects) contents) (sym e) kept))))
  ]

  put_object-History :
      (p : Put) (bucket key : String) (contents : List (List ℕ)) (s : Storage)
      → History bucket key contents s
      → History bucket key
          (contents ++ contents_put bucket key (p ∷ []))
          (put_object md5 p.bucket p.key p.bytes p.metadata p.version_id p.now s).0
  put_object-History p bucket key contents s h = elim (Bool-cases (str_eq p.bucket bucket)) [
    | inr apart ↦
        rw (apart, append-nil contents)
          (record {
            b = h.b;
            there = put_object-elsewhere p bucket s apart ∙ h.there;
            versioned = h.versioned;
            kept = h.kept;
          })
    | inl same ↦
        let e : p.bucket ≡ bucket = ground (arith, same, eq_iff p.bucket bucket) in
        let found : lookup p.bucket s.buckets ≡ some h.b =
          ap (λ n. lookup n s.buckets) e ∙ h.there in
        let obj : Object =
          write_object md5 h.b.versioning p.bytes p.metadata p.version_id p.now
            (elim (lookup p.key h.b.objects) [ none ↦ new_object p.key | some obj ↦ obj ]) in
        let b' : Bucket = record h.b { objects = insert p.key obj h.b.objects } in
        rw same (record {
          b = b';
          there =
              ap (λ bs. lookup bucket bs) (put_object-buckets p s h.b found)
              ∙ ap (λ n. lookup bucket (insert n b' s.buckets)) e
              ∙ lookup-insert_self bucket b' s.buckets;
          versioned = h.versioned;
          kept = written-Kept p key contents h.b h.versioned h.kept;
        })
  ]

  put_all-History :
      (puts : List Put) (bucket key : String) (contents : List (List ℕ)) (s : Storage)
      → History bucket key contents s
      → History bucket key (contents ++ contents_put bucket key puts) (put_all puts s)
  unfolding put_all
  put_all-History [] bucket key contents s h = rw (append-nil contents) h
  put_all-History (p ∷ puts) bucket key contents s h =
      rw
        (
          contents_put-cons bucket key p puts,
          sym (
              append_assoc contents (contents_put bucket key (p ∷ []))
                (contents_put bucket key puts)),
        )
        (put_all-History puts bucket key (contents ++ contents_put bucket key (p ∷ [])) _
          (put_object-History p bucket key contents s h))

  created-History :
      (bucket key : String) (now : ℕ) (s : Storage)
      → lookup bucket s.buckets ≡ none
      → s.versioning ≡ true
      → History bucket key [] (create_bucket bucket now s).0
  unfolding create_bucket lookup Kept
  created-History bucket key now s new versioned =
      let b : Bucket = record {
        name = bucket;
        created = now;
        objects = [];
        versioning = s.versioning;
      } in
      record {
        b = b;
        there = ground (arith, new, lookup-insert_self bucket b s.buckets);
        versioned = versioned;
        kept = refl;
      }

  get_object-lookup :
      (bucket key : String) (s : Storage) (b : Bucket)
      → lookup bucket s.buckets ≡ some b
      → (get_object bucket key s).1 ≡ lookup key b.objects
  unfolding get_object
  get_object-lookup bucket key s b e = ground (arith, e)

-- A bucket is created in a storage with versions, and objects are put, to it and to others. Then
-- `GetObject` finds an object exactly if one was put under its key, and it has the contents put last;
-- its versions have all contents put under the key, in order, and only the last is the latest.
pub versions_complete :
    (md5 : List ℕ → String) (bucket key : String) (now : ℕ) (s : Storage) (puts : List Put)
    → lookup bucket s.buckets ≡ none
    → s.versioning ≡ true
    → Kept
        (get_object bucket key (put_all md5 puts (create_bucket bucket now s).0)).1
        (contents_put bucket key puts)
versions_complete md5 bucket key now s puts new versioned =
    let h =
      put_all-History md5 puts bucket key [] _
        (created-History md5 bucket key now s new versioned) in
    rw
      (get_object-lookup md5 bucket key (put_all md5 puts (create_bucket bucket now s).0) h.b
        h.there)
      h.kept
