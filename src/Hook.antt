-- ===== src/Hook.antt =====
-- hooks/kbstore_hook.py: what a device sends. Here the transcript of a session and the uploads in parts;
-- Hook/Memories has the files that an agent remembers. A request may fail to reach the server, and an
-- answer may fail to reach the device: `net` says for each request what becomes of it. A block is not
-- empty, and a file does not change while it is sent.
pub mod Rows
pub mod Appends
pub mod Sending
pub mod Pushing
pub mod Arrival
pub mod Memories
use knowledgebase_storage.Common.{
  ℕ, zero, suc, ◌+◌, ◌-◌, String, Bool, true, false, not, ◌&&◌, Option, none, some, List, [], ◌∷◌,
  ◌++◌, ◌==◌, eqb, ltb, leb, if◌then◌else◌, length, take, drop, is_empty,
}
use knowledgebase_storage.Common.Result.{Result, ok, raised, resource_not_found}
use knowledgebase_storage.Models.{NoteDecision, SessionKey}
use knowledgebase_storage.Blobs.{Bytes}
use knowledgebase_storage.Uploads.{
  Paths, Storage, TranscriptRef, RawTranscript, Upload, UploadKind, find_transcript, start_upload,
  add_part,
}
use knowledgebase_storage.Uploads.Service.{append, finish_upload}

-- What becomes of a request: it does not arrive, its answer does not, or all is well.
pub data Delivery : Type 0 where
  unsent unanswered answered : Delivery

-- `while block := handle.read(size)`, in `rounds` steps at most
unfoldable pub blocks : (rounds size : ℕ) → Bytes → List Bytes
blocks zero size content = []
blocks (suc rounds) size content =
    let rest = take size content ∷ blocks rounds size (drop size content) in
    if is_empty content then [] else rest

-- `IngestService.state`: how many bytes the server has
unfoldable pub state : SessionKey → Storage → Result ℕ
unfolding find_transcript
state key s = elim (find_transcript key s.transcripts) [
  | none ↦ raised resource_not_found
  | some t ↦ ok t.byte_size
]

-- How the sending went, and the number of requests so far.
pub record Sent : Type 0 where
  pub done : Bool
  pub turns : ℕ
  pub storage : Storage

module _ (hash : Bytes → String) (stamps_in : Bytes → List ℕ) (paths : Paths)
    (decisions : List NoteDecision) (id : ℕ) (ref : TranscriptRef) (net : ℕ → Delivery) where
  -- One `send_bytes`: whether the device was told of a success, and what the server keeps.
  unfoldable pub send_block : (turns offset : ℕ) → Bytes → Storage → Bool × Storage
  unfolding append
  send_block turns offset block s =
      let served = append hash stamps_in paths decisions id ref offset block s in
      elim (net turns) [
        | unsent ↦ (false, s)
        | unanswered ↦ (false, served.1)
        | answered ↦ (elim served.0 [ raised e ↦ false | ok t ↦ true ], served.1)
      ]

  unfoldable pub send_blocks : (turns offset : ℕ) → List Bytes → Storage → Sent
  unfolding send_block
  send_blocks turns offset [] s = record { done = true; turns = turns; storage = s }
  send_blocks turns offset (b ∷ bs) s =
      let (told, s') = send_block turns offset b s in
      let rest = send_blocks (suc turns) (offset + length b) bs s' in
      if told then rest else record { done = false; turns = suc turns; storage = s' }

  unfoldable pub send_transcript : (size turns offset : ℕ) → Bytes → Storage → Sent
  unfolding send_blocks blocks
  send_transcript size turns offset content s =
      send_blocks turns offset (blocks (length content) size (drop offset content)) s

  -- what the device takes the server to have
  unfoldable pub held_offset : (turns : ℕ) → Storage → ℕ
  unfolding state
  held_offset turns s = elim (net turns) [
    | unsent ↦ 0
    | unanswered ↦ 0
    | answered ↦ elim (state ref.key s) [ raised e ↦ 0 | ok n ↦ n ]
  ]

  unfoldable pub push_transcript : (size : ℕ) → Bytes → Storage → Storage
  unfolding send_transcript held_offset
  push_transcript size content s =
      let offset = held_offset 0 s in
      let first =
        send_transcript size 1 (if leb offset (length content) then offset else 0) content s in
      let again = send_transcript size first.turns 0 content first.storage in
      if eqb (length content) offset
      then s
      else if not first.done && not (eqb offset 0)
      then again.storage
      else first.storage
