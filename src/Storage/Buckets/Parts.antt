-- ===== src/Storage/Buckets/Parts.antt =====
-- Objects that are uploaded in parts.
use mathlib.Core.List.{Perm}
use go_async_practice.Common.{
  ℕ, ◌≡◌, refl, sym, ap, ◌∙◌, String, List, [], ◌∷◌, ◌++◌, Option, none, some, arith, ◌==◌,
  if◌then◌else◌, All, length,
}
use go_async_practice.Common.Dict.{
  Dict, lookup, insert, erase, lookup-insert_self, lookup-erase_self,
}
use go_async_practice.Common.Table.{Table, find, put, find-put}
use go_async_practice.Common.Sorting.{sort, sort-Perm, sort-All}
use go_async_practice.Storage.Buckets.{
  Object, new_object, Bucket, Part, MultipartUpload, Storage, write_object, put_object, get_object,
  initiate_multipart_upload, upload_part, combine, complete_multipart_upload,
}

-- The specification: the bytes that were last uploaded under a number.
abbrev pub last_bytes : ℕ → List (ℕ × List ℕ) → Option (List ℕ)
last_bytes n [] = none
last_bytes n ((m, bytes) ∷ uploads) = elim (last_bytes n uploads) [
  | some later ↦ some later
  | none ↦ if m == n then some bytes else none
]

abbrev pub or_empty : Option (List ℕ) → List ℕ
or_empty none = []
or_empty (some bytes) = bytes

-- The bytes of these parts, one behind the other.
abbrev pub joined : List ℕ → List (ℕ × List ℕ) → List ℕ
joined [] uploads = []
joined (n ∷ numbers) uploads = or_empty (last_bytes n uploads) ++ joined numbers uploads

abbrev pub IsUploaded : List (ℕ × List ℕ) → ℕ → Type 0
IsUploaded uploads n = (bytes : List ℕ) × (last_bytes n uploads ≡ some bytes)

abbrev part_bytes : Option Part → Option (List ℕ)
part_bytes none = none
part_bytes (some part) = some part.bytes

-- What was uploaded before stays where nothing was uploaded since.
abbrev or_else : Option (List ℕ) → Option (List ℕ) → Option (List ℕ)
or_else none before = before
or_else (some later) before = some later

module _ (md5 : List ℕ → String) where
  unfoldable pub upload_all : String → List (ℕ × List ℕ) → Storage → Storage
  upload_all upload_id [] s = s
  upload_all upload_id ((n, bytes) ∷ uploads) s =
      upload_all upload_id uploads (upload_part md5 upload_id n bytes s).0

  upload_part_found :
      (upload_id : String) (n : ℕ) (bytes : List ℕ) (s : Storage) (upload : MultipartUpload)
      → lookup upload_id s.multipart_uploads ≡ some upload
      → (u : MultipartUpload) × (lookup upload_id
            (upload_part md5 upload_id n bytes s).0.multipart_uploads
          ≡ some u)
        × ((upload_part md5 upload_id n bytes s).0.buckets ≡ s.buckets)
        × (u.bucket ≡ upload.bucket)
        × (u.key ≡ upload.key)
        × ((k : ℕ)
            → part_bytes (find k u.parts)
              ≡ (if n == k then some bytes else part_bytes (find k upload.parts)))
  unfolding upload_part
  upload_part_found upload_id n bytes s upload e =
      let part : Part = record {
        part_number = n;
        etag = md5 bytes;
        size = length bytes;
        bytes = bytes;
      } in
      let u = record upload { parts = put n part upload.parts } in
      (
        u,
        ground (arith, e, lookup-insert_self upload_id u s.multipart_uploads),
        ground (arith, e),
        refl,
        refl,
        λ k. ground (arith, find-put n k part upload.parts),
      )

  -- What a run of uploads leaves.
  record Uploaded (upload_id : String) (uploads : List (ℕ × List ℕ)) (upload : MultipartUpload)
      (s s' : Storage) : Type 0 where
    after : MultipartUpload
    there : lookup upload_id s'.multipart_uploads ≡ some after
    buckets : s'.buckets ≡ s.buckets
    bucket : after.bucket ≡ upload.bucket
    key : after.key ≡ upload.key
    parts :
        (k : ℕ)
        → part_bytes (find k after.parts)
          ≡ or_else (last_bytes k uploads) (part_bytes (find k upload.parts))

  upload_all-Uploaded :
      (upload_id : String) (uploads : List (ℕ × List ℕ)) (s : Storage) (upload : MultipartUpload)
      → lookup upload_id s.multipart_uploads ≡ some upload
      → Uploaded upload_id uploads upload s (upload_all upload_id uploads s)
  unfolding upload_all
  upload_all-Uploaded upload_id [] s upload e = record {
    after = upload;
    there = e;
    buckets = refl;
    bucket = refl;
    key = refl;
    parts = λ k. refl;
  }
  upload_all-Uploaded upload_id ((n, bytes) ∷ uploads) s upload e =
      let (u, found, same, bucket, key, parts) = upload_part_found upload_id n bytes s upload e in
      let r =
        upload_all-Uploaded upload_id uploads (upload_part md5 upload_id n bytes s).0 u found in
      record {
        after = r.after;
        there = r.there;
        buckets = r.buckets ∙ same;
        bucket = r.bucket ∙ bucket;
        key = r.key ∙ key;
        parts = λ k. ground (arith, r.parts k, parts k);
      }

or_else-none : (o : Option (List ℕ)) → or_else o none ≡ o
or_else-none none = refl
or_else-none (some bytes) = refl

combine-joined :
    (numbers : List ℕ) (uploads : List (ℕ × List ℕ)) (parts : Table Part)
    → ((k : ℕ) → part_bytes (find k parts) ≡ last_bytes k uploads)
    → All (IsUploaded uploads) numbers
    → combine numbers parts ≡ some (joined numbers uploads)
unfolding combine
combine-joined [] uploads parts same all = refl
combine-joined (n ∷ numbers) uploads parts same ((bytes, e), all) =
    ground (arith, same n, e, combine-joined numbers uploads parts same all)

module _ (md5 : List ℕ → String) where
  -- What is put is got.
  pub put_object_found :
      (bucket key : String) (bytes : List ℕ) (metadata : Dict String) (version_id : String)
      (now : ℕ) (s : Storage) (b : Bucket)
      → lookup bucket s.buckets ≡ some b
      → (obj : Object) × ((put_object md5 bucket key bytes metadata version_id now s).1 ≡ some obj)
        × (obj.bytes ≡ bytes)
        × ((get_object bucket key (put_object md5 bucket key bytes metadata version_id now s).0).1
            ≡ some obj)
  unfolding put_object get_object write_object
  put_object_found bucket key bytes metadata version_id now s b e =
      let old : Object = elim (lookup key b.objects) [ none ↦ new_object key | some obj ↦ obj ] in
      let obj = write_object md5 b.versioning bytes metadata version_id now old in
      let b' : Bucket = record b { objects = insert key obj b.objects } in
      (
        obj,
        ground (arith, e),
        refl,
        ground (
          arith,
          e,
          lookup-insert_self bucket b' s.buckets,
          lookup-insert_self key obj b.objects,
        ),
      )

  complete_found :
      (upload_id : String) (numbers : List ℕ) (version_id : String) (now : ℕ) (s : Storage)
      (upload : MultipartUpload) (buffer : List ℕ) (obj : Object)
      → lookup upload_id s.multipart_uploads ≡ some upload
      → combine (sort numbers) upload.parts ≡ some buffer
      → (put_object md5 upload.bucket upload.key buffer [] version_id now s).1 ≡ some obj
      → let s' = (put_object md5 upload.bucket upload.key buffer [] version_id now s).0 in
        complete_multipart_upload md5 upload_id numbers version_id now s
        ≡ (record s' { multipart_uploads = erase upload_id s'.multipart_uploads }, some obj)
  unfolding complete_multipart_upload
  complete_found upload_id numbers version_id now s upload buffer obj e e' e'' =
      ground (arith, e, e', e'')

get_object_uploads :
    (bucket key : String) (uploads : Dict MultipartUpload) (s : Storage)
    → (get_object bucket key (record s { multipart_uploads = uploads })).1
      ≡ (get_object bucket key s).1
unfolding get_object
get_object_uploads bucket key uploads s = ground arith

-- An upload is started for a bucket that is there, and parts are uploaded, in any order, some of them
-- again. When it is completed with the numbers of uploaded parts, given in any order, the object has
-- the bytes last uploaded under each number, the numbers rising; this object is what `GetObject` gives
-- back, and the upload is gone.
pub multipart_complete :
    (md5 : List ℕ → String) (upload_id bucket key : String) (uploads : List (ℕ × List ℕ))
    (numbers given : List ℕ) (version_id : String) (started now : ℕ) (s : Storage) (b : Bucket)
    → lookup bucket s.buckets ≡ some b
    → All (IsUploaded uploads) numbers
    → Perm numbers given
    → let ready =
        upload_all md5 upload_id uploads
          (initiate_multipart_upload upload_id bucket key started s) in
      let done = complete_multipart_upload md5 upload_id given version_id now ready in
      (obj : Object) × (done.1 ≡ some obj)
      × (obj.bytes ≡ joined (sort numbers) uploads)
      × ((get_object bucket key done.0).1 ≡ some obj)
      × (lookup upload_id done.0.multipart_uploads ≡ none)
unfolding initiate_multipart_upload find
multipart_complete md5 upload_id bucket key uploads numbers given version_id started now s b e all
      perm =
    let start = initiate_multipart_upload upload_id bucket key started s in
    let upload : MultipartUpload = record {
      upload_id = upload_id;
      bucket = bucket;
      key = key;
      parts = [];
      initiated_at = started;
    } in
    let r =
      upload_all-Uploaded md5 upload_id uploads start upload
        (lookup-insert_self upload_id upload s.multipart_uploads) in
    let ready = upload_all md5 upload_id uploads start in
    let same = sort-Perm perm in
    let buffer = joined (sort numbers) uploads in
    let combined : combine (sort given) r.after.parts ≡ some buffer =
      ap (λ ns. combine ns r.after.parts) (sym same)
      ∙ combine-joined (sort numbers) uploads r.after.parts
          (λ k. r.parts k ∙ or_else-none (last_bytes k uploads))
          (sort-All (IsUploaded uploads) numbers all) in
    let (obj, written, bytes, got) =
      put_object_found md5 r.after.bucket r.after.key buffer [] version_id now ready b
        (ap (λ n. lookup n ready.buckets) r.bucket ∙ ap (λ bs. lookup bucket bs) r.buckets ∙ e) in
    let done =
      complete_found md5 upload_id given version_id now ready r.after buffer obj r.there combined
        written in
    let s' = (put_object md5 r.after.bucket r.after.key buffer [] version_id now ready).0 in
    (
      obj,
      ap (λ d. d.1) done,
      bytes,
      ap (λ d. (get_object bucket key d.0).1) done
          ∙ get_object_uploads bucket key (erase upload_id s'.multipart_uploads) s'
          ∙ ap (λ n. (get_object n key s').1) (sym r.bucket)
          ∙ ap (λ n. (get_object r.after.bucket n s').1) (sym r.key)
          ∙ got,
      ap (λ d. lookup upload_id d.0.multipart_uploads) done
          ∙ lookup-erase_self upload_id s'.multipart_uploads,
    )
