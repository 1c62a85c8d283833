-- ===== src/Storage/Buckets/Checks.antt =====
-- Buckets at concrete inputs.
use mathlib.Core.List.{perm_append_singleton}
use go_async_practice.Common.{ℕ, ◌≡◌, refl, String, List, [], ◌∷◌, Option, some, none}
use go_async_practice.Common.Dict.{lookup, insert}
use go_async_practice.Common.Sorting.{sort}
use go_async_practice.Storage.Buckets.{
  Object, Storage, new_storage, create_bucket, get_object, initiate_multipart_upload,
  complete_multipart_upload,
}
use go_async_practice.Storage.Buckets.Parts.{joined, upload_all, multipart_complete}
use go_async_practice.Storage.Buckets.Versions.{Put, contents_put, Kept, put_all, versions_complete}

abbrev no_digest : List ℕ → String
no_digest bytes = "etag"

abbrev photos : Storage
photos = (create_bucket "photos" 1 new_storage).0

abbrev two_parts : List (ℕ × List ℕ)
two_parts = (2, 9 ∷ []) ∷ (1, 7 ∷ 7 ∷ []) ∷ (2, 8 ∷ []) ∷ []

abbrev uploaded : Storage
uploaded =
    upload_all no_digest "upload-1" two_parts
      (initiate_multipart_upload "upload-1" "photos" "cat" 2 photos)

abbrev completed : Storage × Option Object
completed = complete_multipart_upload no_digest "upload-1" (2 ∷ 1 ∷ []) "v1" 3 uploaded

multipart_complete_example :
    (obj : Object) × (completed.1 ≡ some obj)
    × (obj.bytes ≡ joined (sort (1 ∷ 2 ∷ [])) two_parts)
    × ((get_object "photos" "cat" completed.0).1 ≡ some obj)
    × (lookup "upload-1" completed.0.multipart_uploads ≡ none)
unfolding new_storage create_bucket lookup insert
multipart_complete_example =
    multipart_complete no_digest "upload-1" "photos" "cat" two_parts (1 ∷ 2 ∷ []) (2 ∷ 1 ∷ []) "v1"
      2 3 photos _ refl ((7 ∷ 7 ∷ [], refl), ((8 ∷ [], refl), tt))
      (perm_append_singleton 2 (1 ∷ []))

in_order : joined (sort (2 ∷ 1 ∷ [])) two_parts ≡ 7 ∷ 7 ∷ 8 ∷ []
in_order = refl

abbrev puts : List Put
puts =
    record {
      bucket = "photos";
      key = "cat";
      bytes = 1 ∷ [];
      metadata = [];
      version_id = "v1";
      now = 2;
    }
    ∷ record {
      bucket = "photos";
      key = "cat";
      bytes = 2 ∷ [];
      metadata = [];
      version_id = "v2";
      now = 3;
    }
    ∷ []

versions_complete_example :
    Kept
      (get_object "photos" "cat" (put_all no_digest puts photos)).1
      (contents_put "photos" "cat" puts)
unfolding new_storage lookup
versions_complete_example = versions_complete no_digest "photos" "cat" 1 new_storage puts refl refl

both_contents : contents_put "photos" "cat" puts ≡ (1 ∷ []) ∷ (2 ∷ []) ∷ []
both_contents = refl
