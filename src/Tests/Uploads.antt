-- ===== src/Tests/Uploads.antt =====
-- An upload of three bytes in two parts, and the paths of two sessions.
use knowledgebase_storage.Common.{String, ◌≡◌, refl, some, List, [], ◌∷◌}
use knowledgebase_storage.Common.Result.{ok, Returns}
use knowledgebase_storage.Blobs.{Bytes}
use knowledgebase_storage.Uploads.{
  Paths, Storage, Upload, git_bundle, start_upload, slugify_segment, transcript_path_of,
}
use knowledgebase_storage.Uploads.Service.{finish_upload}
use knowledgebase_storage.Uploads.Parts.{Holds, send_payloads, upload_roundtrip}
use knowledgebase_storage.Tests.Data.{ascii, key}

abbrev by_length : Bytes → String
by_length [] = "none"
by_length _ = "some"

abbrev one_place : Paths
one_place = record { transcript_path = λ _. "t"; upload_path = λ _. "uploads/1.part" }

abbrev nothing_stored : Storage
nothing_stored = record { transcripts = []; uploads = []; files = [] }

abbrev parts : List Bytes
parts = (1 ∷ 2 ∷ []) ∷ (3 ∷ []) ∷ []

upload_roundtrip_example :
    (t : Storage) × (w : Upload) × (send_payloads one_place 1 0 parts
        (start_upload one_place 1 git_bundle nothing_stored).1
      ≡ ok t)
    × Holds one_place 1 (1 ∷ 2 ∷ 3 ∷ []) 2 t w
    × Returns (λ r. r.0.digest ≡ some "some") (finish_upload by_length one_place 1 60 "some" t)
upload_roundtrip_example = upload_roundtrip one_place 1 by_length git_bundle parts nothing_stored 60

session_path : transcript_path_of ascii ascii.is_word key ≡ "transcripts/laptop/claude/s1.jsonl"
unfolding transcript_path_of
session_path = refl

-- two sessions whose names differ in a mark only are stored under one path
one_segment : slugify_segment ascii ascii.is_word "a:b" ≡ slugify_segment ascii ascii.is_word "a-b"
unfolding slugify_segment
one_segment = refl
