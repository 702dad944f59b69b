-- ===== src/Tests/Blobs.antt =====
-- A file of two chunks that is uploaded, completed and read. The test digest of a file is its length.
use knowledgebase_storage.Common.{String, ◌≡◌, refl, ◌⊎◌, true, none, some, List, [], ◌∷◌}
use knowledgebase_storage.Common.Result.{ok}
use knowledgebase_storage.Blobs.{
  Bytes, Blob, Blobs, BlobManifestPart, find_blob, read_bytes, claimed_blob,
}
use knowledgebase_storage.Blobs.Service.{inspect, complete, digest_of}
use knowledgebase_storage.Blobs.Manifest.{send_parts, send_parts_lem}
use knowledgebase_storage.Blobs.Complete.{complete_lem}
use knowledgebase_storage.Blobs.Genuine.{rest, next, completed, inspect-IsGenuine}

-- a digest for the tests
abbrev measure : Bytes → String
measure [] = "empty"
measure (_ ∷ []) = "one"
measure (_ ∷ _ ∷ []) = "two"
measure _ = "more"

abbrev listed : Blob
listed = record { digest = "more"; byte_size = 3; chunks = "one" ∷ "two" ∷ []; completed_at = none }

abbrev uploaded : Blobs
uploaded = record {
  rows = listed ∷ [];
  chunks =
      record { name = "one"; content = 7 ∷ [] }
      ∷ record { name = "two"; content = 8 ∷ 9 ∷ [] }
      ∷ [];
  files = [];
}

abbrev done_row : Blob
done_row = record listed { completed_at = some 50 }

answer : (complete measure 50 "more" uploaded.rows uploaded).0 ≡ ok done_row
unfolding complete
answer = refl

complete_lem_example :
    ((find_blob "more" (listed ∷ []) ≡ some done_row)
      × (true ≡ true)
      × ((complete measure 50 "more" (listed ∷ []) uploaded).1 ≡ uploaded))
    ⊎ ((first_read : Blob) × (find_blob "more" (listed ∷ []) ≡ some first_read)
        × (digest_of measure ("one" ∷ "two" ∷ []) uploaded.chunks
            ≡ some (first_read.byte_size, "more"))
        × (true ≡ true)
        × (find_blob "more" (complete measure 50 "more" (listed ∷ []) uploaded).1.rows
            ≡ some done_row))
complete_lem_example = complete_lem measure 50 "more" uploaded.rows uploaded {b = done_row} answer

abbrev two_parts : List BlobManifestPart
two_parts = record { byte_size = 3; chunks = "two" ∷ [] } ∷ []

send_parts_lem_example :
    (rows' : List Blob) × (blob : Blob) × (send_parts "more" 0
        (record { byte_size = 3; chunks = "one" ∷ [] } ∷ two_parts)
        (listed ∷ [])
      ≡ ok rows')
    × (find_blob "more" rows' ≡ some blob)
    × (blob.chunks ≡ "one" ∷ "two" ∷ [])
unfolding find_blob claimed_blob
send_parts_lem_example =
    send_parts_lem "more" (record { byte_size = 3; chunks = "one" ∷ [] }) two_parts (listed ∷ [])
      refl

abbrev after : Blobs
after = (complete measure 50 "more" uploaded.rows uploaded).1

handed : (inspect measure "more" after).0 ≡ true
unfolding inspect complete
handed = refl

inspect-IsGenuine_example :
    (content : Bytes) × (read_bytes "more" (inspect measure "more" after).1.files ≡ some content)
    × (measure content ≡ "more")
inspect-IsGenuine_example =
    inspect-IsGenuine measure (next (completed {s = uploaded} 50 "more" uploaded.rows) rest) tt
      "more" handed
