-- ===== src/Blobs/Service.antt =====
-- backend/services/blobs.py: what compares the chunks and the files with their digests, `complete`, `assemble`
-- and `inspect` among it, and `release`. `hash` is sha256.
use knowledgebase_storage.Common.{
  ℕ, String, Bool, true, false, not, ◌||◌, Option, none, some, List, [], ◌∷◌, ◌==◌, ltb, eqb,
  if◌then◌else◌, is_none, is_some, length, contains,
}
use knowledgebase_storage.Common.Result.{
  Result, ok, raised, resource_not_found, chunk_too_large, upload_digest_mismatch, blob_incomplete,
  file_not_found, ◌>>◌, raise_if,
}
use knowledgebase_storage.Blobs.{
  Bytes, StoredFile, Blob, Blobs, max_chunk_bytes, read_bytes, exists_file, write_whole, remove,
  missing, find_blob, chunk_bytes, complete_locked, reopened,
}

module _ (hash : Bytes → String) where
  unfoldable pub put_chunk : String → Bytes → List StoredFile → Result (ℕ × List StoredFile)
  unfolding write_whole
  put_chunk digest payload chunks = do
    raise_if (ltb max_chunk_bytes (length payload)) chunk_too_large
    raise_if (not (hash payload == digest)) upload_digest_mismatch
    ok (length payload, write_whole digest payload chunks)

  -- `digest_of`: how many bytes the chunks hold, and the digest of all of them
  abbrev pub sized : Option Bytes → Option (ℕ × String)
  sized none = none
  sized (some content) = some (length content, hash content)

  unfoldable pub digest_of : List String → List StoredFile → Option (ℕ × String)
  unfolding chunk_bytes
  digest_of cs files = sized (chunk_bytes cs files)

  abbrev pub is_damaged : String → Option Bytes → Bool
  is_damaged name none = false
  is_damaged name (some content) = not (hash content == name)

  unfoldable pub drop_damaged : List String → List StoredFile → List StoredFile
  unfolding read_bytes remove
  drop_damaged [] files = files
  drop_damaged (c ∷ cs) files =
      let rest = drop_damaged cs files in
      if is_damaged c (read_bytes c rest) then remove c rest else rest

  -- `complete` once the chunks are read; `later` are the rows when the lock is taken.
  unfoldable pub complete_checked :
      (now : ℕ) → Blob → Option (ℕ × String) → (later : List Blob) → Blobs → Result Blob × Blobs
  unfolding complete_locked drop_damaged find_blob
  complete_checked now blob none later s = (raised file_not_found, s)
  complete_checked now blob (some (total, whole)) later s =
      let dropped = record s { chunks = drop_damaged blob.chunks s.chunks } in
      let last =
        complete_locked now blob.chunks (find_blob blob.digest later) (record s { rows = later }) in
      if not (eqb total blob.byte_size) || not (whole == blob.digest)
      then (raised blob_incomplete, dropped)
      else last

  unfoldable pub complete_found :
      (now : ℕ) → Option Blob → (later : List Blob) → Blobs → Result Blob × Blobs
  unfolding complete_checked digest_of missing
  complete_found now none later s = (raised resource_not_found, s)
  complete_found now (some blob) later s =
      let checked = complete_checked now blob (digest_of blob.chunks s.chunks) later s in
      if is_some blob.completed_at
      then (ok blob, s)
      else if eqb (length (missing blob.chunks s.chunks)) 0
      then checked
      else (raised blob_incomplete, s)

  -- `later` are the rows as other requests leave them while the chunks are being read.
  unfoldable pub complete : (now : ℕ) → String → (later : List Blob) → Blobs → Result Blob × Blobs
  unfolding complete_found find_blob
  complete now digest later s = complete_found now (find_blob digest s.rows) later s

  -- `assemble`: whether the file is there afterwards
  unfoldable pub assembled : Blob → Option Bytes → Blobs → Bool × Blobs
  unfolding write_whole drop_damaged
  assembled blob none s = (false, record s { chunks = drop_damaged blob.chunks s.chunks })
  assembled blob (some content) s =
      if hash content == blob.digest
      then (true, record s { files = write_whole blob.digest content s.files })
      else (false, record s { chunks = drop_damaged blob.chunks s.chunks })

  unfoldable pub assemble : Blob → Blobs → Bool × Blobs
  unfolding assembled chunk_bytes read_bytes
  assemble blob s =
      let made = assembled blob (chunk_bytes blob.chunks s.chunks) s in
      if exists_file blob.digest s.files then (true, s) else made

  unfoldable pub inspect_found : Option Blob → Blobs → Bool × Blobs
  unfolding reopened assemble
  inspect_found none s = (false, s)
  inspect_found (some blob) s =
      let made = reopened blob (assemble blob s) in
      if is_none blob.completed_at then (false, s) else made

  unfoldable pub inspect : String → Blobs → Bool × Blobs
  unfolding inspect_found find_blob
  inspect digest s = inspect_found (find_blob digest s.rows) s

-- `release`, for the digests that no file of a worktree has: `referenced` are those that one has
unfoldable pub release_files : List String → List String → List StoredFile → List StoredFile
unfolding remove
release_files [] referenced files = files
release_files (d ∷ ds) referenced files =
    let rest = release_files ds referenced files in
    if contains referenced d then rest else remove d rest
