-- ===== src/Blobs.antt =====
-- backend/services/blobs.py and backend/repositories/blob.py: a file that is uploaded in chunks, each
-- stored under its digest, and put together again. `hash` is sha256's hexadecimal digest; a stored file
-- is found by the digest that its path is made of.
pub mod Service
pub mod Kept
pub mod Genuine
pub mod Rows
pub mod Manifest
pub mod Complete
use knowledgebase_storage.Common.{
  ℕ, zero, suc, ◌+◌, ◌-◌, ◌*◌, ◌/◌, ◌%◌, ◌^◌, ◌≤◌, ◌<◌, min, max, String, ◌≡◌, refl, sym, ap, ◌∙◌,
  subst, ◌≢◌, ◌↔◌, ◌⊎◌, inl, inr, Bool, true, false, not, ◌&&◌, ◌||◌, Option, none, some, List, [],
  ◌∷◌, ◌++◌, map, reverse, Memᴰ, arith, ◌==◌, eq_iff, eq_refl, ltb, leb, eqb, if◌then◌else◌,
  Bool-cases, Option-cases, is_none, is_some, holds_text, or_text, take_text, ◌<>◌, length,
  length-append, take, All, keep, contains,
}
use knowledgebase_storage.Common.Result.{
  Result, ok, raised, resource_not_found, chunk_too_large, upload_digest_mismatch, blob_incomplete,
  file_not_found, ◌>>◌, ◌>>=◌, raise_if,
}
use knowledgebase_storage.Common.Table.{first, put, delete_where}

abbrev pub Bytes : Type 0
Bytes = List ℕ

pub record StoredFile : Type 0 where
  pub name : String
  pub content : Bytes

abbrev pub named : String → StoredFile → Bool
named name f = f.name == name

pub record Blob : Type 0 where
  pub digest : String
  pub byte_size : ℕ
  pub chunks : List String
  pub completed_at : Option ℕ

pub record BlobManifestPart : Type 0 where
  pub byte_size : ℕ
  pub chunks : List String

pub record BlobState : Type 0 where
  pub digest : String
  pub byte_size : ℕ
  pub chunk_count : ℕ
  pub completed_at : Option ℕ

-- The rows of the blobs, the files below `chunks/` and the files below `blobs/`.
pub record Blobs : Type 0 where
  pub rows : List Blob
  pub chunks : List StoredFile
  pub files : List StoredFile

-- `8 << 20`
abbrev pub max_chunk_bytes : ℕ
max_chunk_bytes = 8388608

abbrev pub contents : Option StoredFile → Option Bytes
contents none = none
contents (some f) = some f.content

unfoldable pub read_bytes : String → List StoredFile → Option Bytes
unfolding first
read_bytes name files = contents (first (named name) files)

abbrev pub exists_file : String → List StoredFile → Bool
exists_file name files = is_some (read_bytes name files)

unfoldable pub write_whole : String → Bytes → List StoredFile → List StoredFile
unfolding put
write_whole name content files =
    put (λ a b. a.name == b.name) (record { name = name; content = content }) files

unfoldable pub remove : String → List StoredFile → List StoredFile
unfolding delete_where
remove name files = delete_where (named name) files

-- `dict.fromkeys`
unfoldable pub distinct : List String → List String
unfolding keep
distinct [] = []
distinct (x ∷ xs) = x ∷ keep (λ y. not (y == x)) (distinct xs)

unfoldable pub missing : List String → List StoredFile → List String
unfolding distinct keep
missing digests files = keep (λ digest. not (exists_file digest files)) (distinct digests)

unfoldable pub find_blob : String → List Blob → Option Blob
unfolding first
find_blob digest rows = first (λ b. b.digest == digest) rows

unfoldable pub save_blob : Blob → List Blob → List Blob
unfolding put
save_blob blob rows = put (λ a b. a.digest == b.digest) blob rows

-- The row of `BlobRepository.claim`, which is inserted where there is none.
unfoldable pub claimed_blob : String → Option Blob → Blob
claimed_blob digest none = record {
  digest = digest;
  byte_size = 0;
  chunks = [];
  completed_at = none;
}
claimed_blob digest (some blob) = blob

unfoldable pub state_of : Blob → BlobState
state_of blob = record {
  digest = blob.digest;
  byte_size = blob.byte_size;
  chunk_count = length blob.chunks;
  completed_at = blob.completed_at;
}

-- `add_manifest` on the claimed row.
unfoldable pub extend_manifest : ℕ → BlobManifestPart → Blob → List Blob → Result (Blob × List Blob)
extend_manifest offset part blob rows =
    let held = if eqb offset 0 then [] else blob.chunks in
    let extended = record blob { byte_size = part.byte_size; chunks = held ++ part.chunks } in
    let refused : Result (Blob × List Blob) = raised blob_incomplete in
    if is_some blob.completed_at
    then ok (blob, rows)
    else if eqb offset (length held)
    then ok (extended, save_blob extended rows)
    else refused

unfoldable pub add_manifest : String → ℕ → BlobManifestPart → List Blob → Result (Blob × List Blob)
unfolding extend_manifest claimed_blob find_blob
add_manifest digest offset part rows =
    extend_manifest offset part (claimed_blob digest (find_blob digest rows)) rows

-- `locked.chunks != chunks`
unfoldable pub same_chunks : List String → List String → Bool
same_chunks [] [] = true
same_chunks [] (_ ∷ _) = false
same_chunks (_ ∷ _) [] = false
same_chunks (x ∷ xs) (y ∷ ys) = x == y && same_chunks xs ys

abbrev pub joined : Option Bytes → Option Bytes → Option Bytes
joined none rest = none
joined (some content) none = none
joined (some content) (some rest) = some (content ++ rest)

-- The bytes of the chunks one after the other; `none` where a chunk's file is not there.
unfoldable pub chunk_bytes : List String → List StoredFile → Option Bytes
unfolding read_bytes
chunk_bytes [] files = some []
chunk_bytes (c ∷ cs) files = let rest = chunk_bytes cs files in joined (read_bytes c files) rest

-- `complete` from the second read of the row on, which takes the row's lock.
unfoldable pub complete_locked : (now : ℕ) → List String → Option Blob → Blobs → Result Blob × Blobs
unfolding same_chunks save_blob
complete_locked now cs none s = (raised blob_incomplete, s)
complete_locked now cs (some locked) s =
    let stamped = record locked { completed_at = some now } in
    if not (same_chunks locked.chunks cs)
    then (raised blob_incomplete, s)
    else if is_some locked.completed_at
    then (ok locked, s)
    else (ok stamped, record s { rows = save_blob stamped s.rows })

-- `inspect` up to the run of the script: a row whose file cannot be put together is open again
unfoldable pub reopened : Blob → Bool × Blobs → Bool × Blobs
unfolding save_blob
reopened blob (made, s) =
    if made
    then (true, s)
    else (false, record s { rows = save_blob (record blob { completed_at = none }) s.rows })
