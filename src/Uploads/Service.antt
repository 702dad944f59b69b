-- ===== src/Uploads/Service.antt =====
-- backend/services/ingest.py: the end of an upload, and `append`, which both take the digest of a file. `hash`
-- is sha256, and `stamps_in` gives the times that are found in a payload, in order.

use knowledgebase_storage.Common.{
  is_some, ℕ, String, not, ◌&&◌, Option, none, some, List, ◌==◌, eqb, if◌then◌else◌,
}
use knowledgebase_storage.Common.Result.{
  raised, Result, ok, upload_digest_mismatch, note_was_purged, ◌>>=◌, ◌>>◌, raise_if,
}
use knowledgebase_storage.Models.{NoteDecision}
use knowledgebase_storage.Queue.{decision_of}
use knowledgebase_storage.Queue.Decisions.{is_purged}
use knowledgebase_storage.Blobs.{Bytes, read_bytes}
use knowledgebase_storage.Uploads.{
  RawTranscript, Upload, TranscriptRef, Paths, Storage, size, truncate, append_bytes,
  find_transcript, save_transcript, find_upload, save_upload, named_transcript, stamped,
  found_upload,
}

module _ (hash : Bytes → String) where
  -- `StorageRepository.digest`
  unfoldable pub digest_file : Option Bytes → String
  digest_file none = ""
  digest_file (some content) = hash content

  unfoldable pub finish_upload :
      Paths → (id now : ℕ) → (digest : String) → Storage → Result (Upload × Storage)
  unfolding save_upload find_upload found_upload digest_file read_bytes
  finish_upload paths id now digest s = do
    w ← found_upload (find_upload id s.uploads)
    let found = digest_file (read_bytes (paths.upload_path id) s.files)
    raise_if (not (digest == "") && not (digest == found)) upload_digest_mismatch
    let saved = record w { digest = some found; completed_at = some now }
    ok (saved, record s { uploads = save_upload saved s.uploads })

module _ (hash : Bytes → String) (stamps_in : Bytes → List ℕ) where
  unfoldable pub append_to :
      (path : String)
      → RawTranscript
      → (offset : ℕ) → Bytes
      → Storage
      → Result (RawTranscript × Storage)
  unfolding append_bytes truncate size stamped digest_file save_transcript read_bytes
  append_to path t offset payload s = do
    let files =
        if eqb offset 0 && not (eqb (size path s.files) 0) then truncate path s.files else s.files
    r ← append_bytes path payload offset files
    let sized = stamped (stamps_in payload) (record t { byte_size = r.0 })
    let saved = record sized { digest = digest_file hash (read_bytes path r.1) }
    ok (saved, record s { transcripts = save_transcript saved s.transcripts; files = r.1 })

  -- `append` where it raises no error
  unfoldable pub append_row :
      Paths
      → List NoteDecision
      → (id : ℕ) → TranscriptRef
      → (offset : ℕ) → Bytes
      → Storage
      → Result (RawTranscript × Storage)
  unfolding append_to named_transcript find_transcript decision_of
  append_row paths decisions id ref offset payload s = do
    raise_if (is_purged (decision_of ref.key decisions)) note_was_purged
    append_to (paths.transcript_path ref.key)
        (named_transcript id ref (find_transcript ref.key s.transcripts)) offset payload s

  -- A session that is not purged has its row before the bytes are refused: a new row is saved at once.
  unfoldable pub refused_storage : List NoteDecision → (id : ℕ) → TranscriptRef → Storage → Storage
  unfolding named_transcript find_transcript save_transcript decision_of
  refused_storage decisions id ref s =
      let made = record s {
        transcripts = save_transcript (named_transcript id ref none) s.transcripts;
      } in
      if is_purged (decision_of ref.key decisions)
      then s
      else if is_some (find_transcript ref.key s.transcripts)
      then s
      else made

  unfoldable pub append :
      Paths
      → List NoteDecision
      → (id : ℕ) → TranscriptRef
      → (offset : ℕ) → Bytes
      → Storage
      → Result RawTranscript × Storage
  unfolding append_row refused_storage
  append paths decisions id ref offset payload s =
      elim (append_row paths decisions id ref offset payload s) [
        | ok r ↦ (ok r.0, r.1)
        | raised e ↦ (raised e, refused_storage decisions id ref s)
      ]
