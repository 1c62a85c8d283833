-- ===== src/Storage/Buckets.antt =====
-- S3CompatibleStorage of solutions/solution24_object_storage.go: buckets, objects with their versions
-- and uploads in parts. MD5 with its hexadecimal text is the parameter `md5`. Bytes are numbers; the slice of the caller, which
-- PutObject keeps without a copy, is a value, so writes of the caller to it are not modelled. The
-- identifiers of versions and uploads, which are texts of random bytes, and the readings of the clock
-- are arguments. Access control lists, tags and content types are never read. The counters of metrics
-- only grow here, and do not wrap.
use go_async_practice.Common.{
  ℕ, zero, suc, ◌+◌, String, Bool, true, false, List, [], ◌∷◌, ◌++◌, map, Option, none, some,
  if◌then◌else◌, length,
}
use go_async_practice.Common.Dict.{Dict, lookup, insert, erase}
use go_async_practice.Common.Table.{Table, find, put}
use go_async_practice.Common.Sorting.{sort}
pub mod Versions
pub mod Parts
pub mod Checks

pub record ObjectVersion : Type 0 where
  pub version_id : String
  pub size : ℕ
  pub etag : String
  pub last_modified : ℕ
  pub is_latest : Bool
  pub bytes : List ℕ

pub record Object : Type 0 where
  pub key : String
  pub size : ℕ
  pub etag : String
  pub last_modified : ℕ
  pub metadata : Dict String
  pub bytes : List ℕ
  pub versions : List ObjectVersion
  pub storage_class : String

pub record Bucket : Type 0 where
  pub name : String
  pub created : ℕ
  pub objects : Dict Object
  pub versioning : Bool

pub record Part : Type 0 where
  pub part_number : ℕ
  pub etag : String
  pub size : ℕ
  pub bytes : List ℕ

pub record MultipartUpload : Type 0 where
  pub upload_id : String
  pub bucket : String
  pub key : String
  pub parts : Table Part
  pub initiated_at : ℕ

pub record StorageMetrics : Type 0 where
  pub total_objects : ℕ
  pub total_size : ℕ
  pub total_buckets : ℕ
  pub request_count : ℕ
  pub upload_bytes : ℕ
  pub download_bytes : ℕ

pub record Storage : Type 0 where
  pub buckets : Dict Bucket
  pub multipart_uploads : Dict MultipartUpload
  pub versioning : Bool
  pub metrics : StorageMetrics

unfoldable pub new_storage : Storage
new_storage = record {
  buckets = [];
  multipart_uploads = [];
  versioning = true;
  metrics = record {
    total_objects = 0;
    total_size = 0;
    total_buckets = 0;
    request_count = 0;
    upload_bytes = 0;
    download_bytes = 0;
  };
}

-- With whether the bucket is new.
unfoldable pub create_bucket : String → ℕ → Storage → Storage × Bool
create_bucket name now s = elim (lookup name s.buckets) [
  | some b ↦ (s, false)
  | none ↦
      let b : Bucket = record {
        name = name;
        created = now;
        objects = [];
        versioning = s.versioning;
      } in
      (
        record s {
          buckets = insert name b s.buckets;
          metrics = record s.metrics { total_buckets = s.metrics.total_buckets + 1 };
        },
        true,
      )
]

-- `v.IsLatest = false`
abbrev pub outdated : ObjectVersion → ObjectVersion
outdated v = record v { is_latest = false }

-- `obj.Metadata[k] = v`
unfoldable pub add_metadata : List (String × String) → Dict String → Dict String
add_metadata [] metadata = metadata
add_metadata ((k, v) ∷ entries) metadata = add_metadata entries (insert k v metadata)

abbrev pub new_object : String → Object
new_object key = record {
  key = key;
  size = 0;
  etag = "";
  last_modified = 0;
  metadata = [];
  bytes = [];
  versions = [];
  storage_class = "";
}

module _ (md5 : List ℕ → String) where
  -- The part of `PutObject` that writes the object.
  unfoldable pub write_object : Bool → List ℕ → Dict String → String → ℕ → Object → Object
  unfolding add_metadata
  write_object versioning bytes metadata version_id now obj =
      let version : ObjectVersion = record {
        version_id = version_id;
        size = length bytes;
        etag = md5 bytes;
        last_modified = now;
        is_latest = true;
        bytes = bytes;
      } in
      record obj {
        versions = if versioning then map outdated obj.versions ++ version ∷ [] else obj.versions;
        size = length bytes;
        etag = md5 bytes;
        last_modified = now;
        bytes = bytes;
        storage_class = "STANDARD";
        metadata = add_metadata metadata obj.metadata;
      }

  -- `none` stands for the error that there is no such bucket.
  unfoldable pub put_object :
      String → String → List ℕ → Dict String → String → ℕ → Storage → Storage × Option Object
  put_object bucket key bytes metadata version_id now s = elim (lookup bucket s.buckets) [
    | none ↦ (s, none)
    | some b ↦
        let found = lookup key b.objects in
        let obj =
          write_object b.versioning bytes metadata version_id now
            (elim found [ none ↦ new_object key | some obj ↦ obj ]) in
        (
          record s {
            buckets = insert bucket (record b { objects = insert key obj b.objects }) s.buckets;
            metrics = record s.metrics {
              total_objects = elim found [
                | none ↦ s.metrics.total_objects + 1
                | some old ↦ s.metrics.total_objects
              ];
              total_size = s.metrics.total_size + length bytes;
              upload_bytes = s.metrics.upload_bytes + length bytes;
            };
          },
          some obj,
        )
  ]

  unfoldable pub upload_part : String → ℕ → List ℕ → Storage → Storage × Option String
  upload_part upload_id part_number bytes s = elim (lookup upload_id s.multipart_uploads) [
    | none ↦ (s, none)
    | some upload ↦
        let part : Part = record {
          part_number = part_number;
          etag = md5 bytes;
          size = length bytes;
          bytes = bytes;
        } in
        let upload' = record upload { parts = put part_number part upload.parts } in
        (
          record s { multipart_uploads = insert upload_id upload' s.multipart_uploads },
          some (md5 bytes),
        )
  ]

-- `none` stands for the two errors that something is not found.
unfoldable pub get_object : String → String → Storage → Storage × Option Object
get_object bucket key s = elim (lookup bucket s.buckets) [
  | none ↦ (s, none)
  | some b ↦ elim (lookup key b.objects) [
    | none ↦ (s, none)
    | some obj ↦ (
      record s {
        metrics = record s.metrics {
          download_bytes = s.metrics.download_bytes + obj.size;
          request_count = s.metrics.request_count + 1;
        };
      },
      some obj,
    )
  ]
]

unfoldable pub initiate_multipart_upload : String → String → String → ℕ → Storage → Storage
initiate_multipart_upload upload_id bucket key now s =
    let upload : MultipartUpload = record {
      upload_id = upload_id;
      bucket = bucket;
      key = key;
      parts = [];
      initiated_at = now;
    } in
    record s { multipart_uploads = insert upload_id upload s.multipart_uploads }

-- The loop over the sorted part numbers; `none` for a part that is missing.
unfoldable pub combine : List ℕ → Table Part → Option (List ℕ)
combine [] parts = some []
combine (n ∷ numbers) parts = elim (find n parts) [
  | none ↦ none
  | some part ↦ elim (combine numbers parts) [
    | none ↦ none
    | some buffer ↦ some (part.bytes ++ buffer)
  ]
]

module _ (md5 : List ℕ → String) where
  unfoldable pub complete_multipart_upload :
      String → List ℕ → String → ℕ → Storage → Storage × Option Object
  unfolding combine
  complete_multipart_upload upload_id parts version_id now s =
      elim (lookup upload_id s.multipart_uploads) [
        | none ↦ (s, none)
        | some upload ↦ elim (combine (sort parts) upload.parts) [
          | none ↦ (s, none)
          | some buffer ↦
              let (s', result) =
                put_object md5 upload.bucket upload.key buffer [] version_id now s in
              elim result [
                | none ↦ (s', none)
                | some obj ↦ (
                  record s' { multipart_uploads = erase upload_id s'.multipart_uploads },
                  some obj,
                )
              ]
        ]
      ]
