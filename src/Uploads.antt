-- ===== src/Uploads.antt =====
-- backend/services/ingest.py with backend/repositories/storage.py and backend/repositories/raw.py: the
-- transcripts that clients append to, and the uploads in parts. A file is found by its path below the storage's
-- root. A request about an upload that raises leaves the rows as they were, since nothing is committed.
pub mod Service
pub mod Parts
use Prim.Native.Char.{Char}
use Prim.Native.String as Text
use knowledgebase_storage.Common.{
  ℕ, zero, suc, ◌+◌, ◌-◌, ◌*◌, ◌/◌, ◌%◌, ◌^◌, ◌≤◌, ◌<◌, min, max, String, ◌≡◌, refl, sym, ap, ◌∙◌,
  subst, ◌≢◌, ◌↔◌, ◌⊎◌, inl, inr, Bool, true, false, not, ◌&&◌, ◌||◌, Option, none, some, List, [],
  ◌∷◌, ◌++◌, map, reverse, Memᴰ, arith, ◌==◌, eq_iff, eq_refl, ltb, leb, eqb, if◌then◌else◌,
  Bool-cases, Option-cases, is_none, is_some, holds_text, or_text, take_text, ◌<>◌, length,
  length-append, take, All, keep, contains,
}
use knowledgebase_storage.Common.Result.{
  Result, ok, raised, resource_not_found, upload_offset_mismatch, upload_digest_mismatch,
  note_was_purged, ◌>>=◌, ◌>>◌, raise_if,
}
use knowledgebase_storage.Common.Table.{first, put}
use knowledgebase_storage.Names.{CharTables, char_eq, strip, is_dash}
use knowledgebase_storage.Models.{SessionKey, key_eq, NoteDecision}
use knowledgebase_storage.Queue.{decision_of}
use knowledgebase_storage.Queue.Decisions.{is_purged}
use knowledgebase_storage.Blobs.{Bytes, StoredFile, read_bytes, write_whole, remove}

abbrev pub is_slash : Char → Bool
is_slash c = char_eq c "/"

-- the characters that a segment of a path keeps
unfoldable pub kept_chars : (Char → Bool) → String → String
kept_chars is_alnum Text.[] = ""
kept_chars is_alnum (Text.◌∷◌ c s) =
    let rest = kept_chars is_alnum s in
    let safe = is_alnum c || (char_eq c "-" || (char_eq c "_" || char_eq c ".")) in
    if safe then (Text.◌∷◌ c rest) else (Text.◌∷◌ "-" rest)

unfoldable pub slugify_segment : CharTables → (is_alnum : Char → Bool) → String → String
unfolding kept_chars strip
slugify_segment u is_alnum value =
    let slug = u.lower (strip is_dash (kept_chars is_alnum (strip is_slash value))) in
    if slug == "" then "unknown" else slug

pub record RawTranscript : Type 0 where
  pub id : ℕ
  pub key : SessionKey
  pub project_hint : String
  pub cwd : Option String
  pub byte_size : ℕ
  pub digest : String
  pub started_at : Option ℕ
  pub ended_at : Option ℕ

pub data UploadKind : Type 0 where
  transcript git_bundle worktree : UploadKind

pub record Upload : Type 0 where
  pub id : ℕ
  pub kind : UploadKind
  pub byte_size : ℕ
  pub part_count : ℕ
  pub digest : Option String
  pub completed_at : Option ℕ

pub record TranscriptRef : Type 0 where
  pub key : SessionKey
  pub project : String
  pub cwd : Option String

-- Where a transcript or an upload is stored.
pub record Paths : Type 0 where
  pub transcript_path : SessionKey → String
  pub upload_path : ℕ → String

unfoldable pub transcript_path_of : CharTables → (Char → Bool) → SessionKey → String
unfolding slugify_segment
transcript_path_of u is_alnum key =
    "transcripts/"
    <> (slugify_segment u is_alnum key.device
        <> ("/"
            <> (slugify_segment u is_alnum key.agent
                <> ("/" <> (slugify_segment u is_alnum key.session_id <> ".jsonl")))))

pub record Storage : Type 0 where
  pub transcripts : List RawTranscript
  pub uploads : List Upload
  pub files : List StoredFile

abbrev pub bytes_of : Option Bytes → Bytes
bytes_of none = []
bytes_of (some content) = content

-- `size`: a file that is not there has none
unfoldable pub size : String → List StoredFile → ℕ
unfolding read_bytes
size path files = length (bytes_of (read_bytes path files))

unfoldable pub truncate : String → List StoredFile → List StoredFile
unfolding write_whole
truncate path files = write_whole path [] files

-- `StorageRepository.append`
unfoldable pub append_bytes :
    String → Bytes → (offset : ℕ) → List StoredFile → Result (ℕ × List StoredFile)
unfolding read_bytes write_whole
append_bytes path payload offset files = do
  let held = bytes_of (read_bytes path files)
  raise_if (not (eqb offset (length held))) upload_offset_mismatch
  ok (length held + length payload, write_whole path (held ++ payload) files)

unfoldable pub find_transcript : SessionKey → List RawTranscript → Option RawTranscript
unfolding first
find_transcript key transcripts = first (λ t. key_eq t.key key) transcripts

unfoldable pub save_transcript : RawTranscript → List RawTranscript → List RawTranscript
unfolding put
save_transcript t transcripts = put (λ a b. eqb a.id b.id) t transcripts

unfoldable pub find_upload : ℕ → List Upload → Option Upload
unfolding first
find_upload id uploads = first (λ w. eqb w.id id) uploads

unfoldable pub save_upload : Upload → List Upload → List Upload
unfolding put
save_upload w uploads = put (λ a b. eqb a.id b.id) w uploads

-- `ref.cwd or transcript.cwd`
abbrev pub or_cwd : Option String → Option String → Option String
or_cwd none old = old
or_cwd (some cwd) old = if cwd == "" then old else some cwd

-- The row that a payload is appended to, with the project and folder that it came with.
unfoldable pub named_transcript : (id : ℕ) → TranscriptRef → Option RawTranscript → RawTranscript
named_transcript id ref none = record {
  id = id;
  key = ref.key;
  project_hint = ref.project;
  cwd = ref.cwd;
  byte_size = 0;
  digest = "";
  started_at = none;
  ended_at = none;
}
named_transcript id ref (some t) =
    if ref.project == ""
    then t
    else record t { project_hint = ref.project; cwd = or_cwd ref.cwd t.cwd }

abbrev pub last_or : ℕ → List ℕ → ℕ
last_or last [] = last
last_or last (t ∷ ts) = last_or t ts

abbrev pub or_first : Option ℕ → ℕ → Option ℕ
or_first none t = some t
or_first (some held) t = some held

unfoldable pub stamped : List ℕ → RawTranscript → RawTranscript
stamped [] t = t
stamped (s ∷ ss) t = record t {
  started_at = or_first t.started_at s;
  ended_at = some (last_or s ss);
}

unfoldable pub start_upload : Paths → (id : ℕ) → UploadKind → Storage → Upload × Storage
unfolding save_upload truncate
start_upload paths id kind s =
    let made : Upload = record {
      id = id;
      kind = kind;
      byte_size = 0;
      part_count = 0;
      digest = none;
      completed_at = none;
    } in
    (
      made,
      record s {
        uploads = save_upload made s.uploads;
        files = truncate (paths.upload_path id) s.files;
      },
    )

unfoldable pub found_upload : Option Upload → Result Upload
found_upload none = raised resource_not_found
found_upload (some w) = ok w

unfoldable pub add_part : Paths → (id offset : ℕ) → Bytes → Storage → Result (Upload × Storage)
unfolding append_bytes save_upload find_upload found_upload
add_part paths id offset payload s = do
  w ← found_upload (find_upload id s.uploads)
  r ← append_bytes (paths.upload_path id) payload offset s.files
  let saved = record w { byte_size = r.0; part_count = suc w.part_count }
  ok (saved, record s { uploads = save_upload saved s.uploads; files = r.1 })
