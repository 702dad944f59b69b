-- ===== src/Hook/Appends.antt =====
-- `append` of backend/services/ingest.py: it does not fail on bytes that go on where the file ends, or start it
-- anew, and the server then holds them.

use knowledgebase_storage.Common.{
  ℕ, suc, ◌+◌, String, ◌≡◌, refl, sym, ap, ◌∙◌, subst, ◌⊎◌, inl, inr, true, false, not, ◌&&◌, none,
  some, List, [], ◌∷◌, ◌++◌, arith, ◌==◌, eq_refl, eqb, if◌then◌else◌, Bool-cases, Option-cases,
  length, length-append,
}
use knowledgebase_storage.Common.Result.{ok}
use knowledgebase_storage.Common.Table.Laws.{first_passes}
use knowledgebase_storage.Models.{NoteDecision, SessionKey, key_eq}
use knowledgebase_storage.Queue.{decision_of}
use knowledgebase_storage.Queue.Decisions.{is_purged}
use knowledgebase_storage.Blobs.{Bytes, StoredFile, read_bytes, write_whole}
use knowledgebase_storage.Uploads.{
  Paths, Storage, TranscriptRef, RawTranscript, find_transcript, save_transcript, named_transcript,
  stamped, bytes_of, size, truncate,
}
use knowledgebase_storage.Uploads.Service.{append_row, append_to, digest_file}
use knowledgebase_storage.Uploads.Parts.{read_bytes-write_whole}
use knowledgebase_storage.Hook.Rows.{DistinctIds, save-DistinctIds, find-save_new, find-save_old}

module _ (hash : Bytes → String) (stamps_in : Bytes → List ℕ) (paths : Paths)
    (decisions : List NoteDecision) (id : ℕ) (ref : TranscriptRef) where
  abbrev path : String
  path = paths.transcript_path ref.key

  -- The server has a row for the session that knows how long its file is, and the file holds `content`.
  pub record Holds (content : Bytes) (s : Storage) (t : RawTranscript) : Type 0 where
    pub row : find_transcript ref.key s.transcripts ≡ some t
    pub sized : t.byte_size ≡ length content
    pub file : read_bytes (paths.transcript_path ref.key) s.files ≡ some content

  -- the file as `append` finds it
  abbrev prepared : ℕ → Storage → List StoredFile
  prepared offset s =
      if eqb offset 0 && not (eqb (size path s.files) 0) then truncate path s.files else s.files

  abbrev written_row : RawTranscript → Bytes → Bytes → List StoredFile → RawTranscript
  written_row t content payload files =
      record (stamped (stamps_in payload)
        (record t { byte_size = length content + length payload })) {
          digest = digest_file hash (read_bytes path (write_whole path (content ++ payload) files));
        }

  abbrev served :
      RawTranscript → Bytes → Bytes → List StoredFile → Storage → RawTranscript × Storage
  served t content payload files s = (
    written_row t content payload files,
    record s {
      transcripts = save_transcript (written_row t content payload files) s.transcripts;
      files = write_whole path (content ++ payload) files;
    },
  )

  append_to-ok :
      (t : RawTranscript) (offset : ℕ) (payload content : Bytes) (s : Storage)
      → bytes_of (read_bytes path (prepared offset s)) ≡ content
      → offset ≡ length content
      → append_to hash stamps_in path t offset payload s
        ≡ ok (served t content payload (prepared offset s) s)
  unfolding append_to
  append_to-ok t offset payload content s held at =
      subst
        (λ c.
          append_to hash stamps_in path t offset payload s
          ≡ ok (served t c payload (prepared offset s) s))
        held
        (rw
          (itself offset (length (bytes_of (read_bytes path (prepared offset s))))
            (at ∙ ap length (sym held)))
          refl)
    where
      itself : (m n : ℕ) → m ≡ n → eqb m n ≡ true
      itself m n e = ground (arith, e)

  stamped-key :
      (ss : List ℕ) (t : RawTranscript)
      → ((stamped ss t).key ≡ t.key)
        × ((stamped ss t).id ≡ t.id)
        × ((stamped ss t).byte_size ≡ t.byte_size)
  unfolding stamped
  stamped-key [] t = (refl, refl, refl)
  stamped-key (s ∷ ss) t = (refl, refl, refl)

  key_itself : (key : SessionKey) → key_eq key key ≡ true
  key_itself key = rw (eq_refl key.agent, eq_refl key.device, eq_refl key.session_id) refl

  found-key :
      (ts : List RawTranscript) (u : RawTranscript)
      → find_transcript ref.key ts ≡ some u
      → key_eq u.key ref.key ≡ true
  unfolding find_transcript
  found-key ts u e = first_passes (λ w. key_eq w.key ref.key) ts e

  named-key :
      (u : RawTranscript)
      → key_eq u.key ref.key ≡ true
      → key_eq (named_transcript id ref (some u)).key ref.key ≡ true
  unfolding named_transcript
  named-key u h = elim (Bool-cases (ref.project == "")) [ inl e ↦ rw e h | inr e ↦ rw e h ]

  named-id : (u : RawTranscript) → eqb (named_transcript id ref (some u)).id u.id ≡ true
  unfolding named_transcript
  named-id u = elim (Bool-cases (ref.project == "")) [
    | inl e ↦ rw e (ground arith)
    | inr e ↦ rw e (ground arith)
  ]

  -- the row that is written is found afterwards
  written-found :
      (payload content : Bytes) (files : List StoredFile) (ts : List RawTranscript)
      → DistinctIds ts
      → let t = named_transcript id ref (find_transcript ref.key ts) in
        find_transcript ref.key (save_transcript (written_row t content payload files) ts)
        ≡ some (written_row t content payload files)
  written-found payload content files ts d = elim (Option-cases (find_transcript ref.key ts)) [
    | inl e ↦
        let t = named_transcript id ref none in
        rw e (
          find-save_new ref.key (written_row t content payload files) ts
            (key_of t (unfold named_transcript in (key_itself ref.key))) e)
    | inr (u, e) ↦
        let t = named_transcript id ref (some u) in
        rw e (
          find-save_old ref.key (written_row t content payload files) u ts
            (key_of t (named-key u (found-key ts u e))) (id_of t u (named-id u)) d e)
  ]
    where
      key_of :
          (t : RawTranscript)
          → key_eq t.key ref.key ≡ true
          → key_eq (written_row t content payload files).key ref.key ≡ true
      key_of t h =
          rw
            ((stamped-key (stamps_in payload)
              (record t { byte_size = length content + length payload })).0)
            h

      id_of :
          (t u : RawTranscript)
          → eqb t.id u.id ≡ true
          → eqb (written_row t content payload files).id u.id ≡ true
      id_of t u h =
          rw
            ((stamped-key (stamps_in payload)
              (record t { byte_size = length content + length payload })).1)
            h

  -- Where the server stands: its rows are told apart, and it holds `content` of the session.
  abbrev pub HoldsSome : Bytes → Storage → Type 0
  HoldsSome content s = DistinctIds s.transcripts × ((t : RawTranscript) × Holds content s t)

  module _ (allowed : is_purged (decision_of ref.key decisions) ≡ false) where
    append-served :
        (offset : ℕ) (payload content : Bytes) (s : Storage)
        → DistinctIds s.transcripts
        → bytes_of (read_bytes path (prepared offset s)) ≡ content
        → offset ≡ length content
        → (r : RawTranscript × Storage) × (append_row hash stamps_in paths decisions id ref offset
              payload s
            ≡ ok r)
          × HoldsSome (content ++ payload) r.1
    unfolding append_row
    append-served offset payload content s d held at =
        let t = named_transcript id ref (find_transcript ref.key s.transcripts) in
        let files = prepared offset s in
        (
          served t content payload files s,
          rw allowed (append_to-ok t offset payload content s held at),
          (
            save-DistinctIds (written_row t content payload files) s.transcripts d,
            (
              written_row t content payload files,
              record {
                row = written-found payload content files s.transcripts d;
                sized =
                    (stamped-key (stamps_in payload)
                      (record t { byte_size = length content + length payload })).2
                    ∙ sym (length-append content payload);
                file = read_bytes-write_whole path (content ++ payload) files;
              },
            ),
          ),
        )

    truncated : (s : Storage) → bytes_of (read_bytes path (truncate path s.files)) ≡ []
    unfolding truncate
    truncated s = ap bytes_of (read_bytes-write_whole path [] s.files)

    no_size :
        (s : Storage) → eqb (size path s.files) 0 ≡ true → bytes_of (read_bytes path s.files) ≡ []
    unfolding size
    no_size s e = no_bytes (bytes_of (read_bytes path s.files)) (ground (arith, e))
      where
        no_bytes : (b : Bytes) → length b ≡ 0 → b ≡ []
        no_bytes [] h = refl
        no_bytes (x ∷ xs) h = absurd (omega arith)

    emptied : (s : Storage) → bytes_of (read_bytes path (prepared 0 s)) ≡ []
    emptied s = elim (Bool-cases (eqb (size path s.files) 0)) [
      | inl e ↦ rw e (no_size s e)
      | inr e ↦ rw e (truncated s)
    ]

    -- an append at the beginning starts the file anew
    append-first :
        (payload : Bytes) (s : Storage)
        → DistinctIds s.transcripts
        → (r : RawTranscript × Storage) × (append_row hash stamps_in paths decisions id ref 0
              payload s
            ≡ ok r)
          × HoldsSome payload r.1
    append-first payload s d = append-served 0 payload [] s d (emptied s) refl

    -- an append where the file ends extends it
    append-next :
        (payload content : Bytes) (s : Storage)
        → HoldsSome content s
        → (r : RawTranscript × Storage) × (append_row hash stamps_in paths decisions id ref
              (length content)
              payload
              s
            ≡ ok r)
          × HoldsSome (content ++ payload) r.1
    append-next payload [] s (d, (t, h)) = append-first payload s d
    append-next payload (b ∷ bs) s (d, (t, h)) =
        append-served (suc (length bs)) payload (b ∷ bs) s d
          (rw (not_zero (length bs)) (ap bytes_of h.file)) refl
      where
        not_zero : (n : ℕ) → eqb (suc n) 0 ≡ false
        not_zero n = ground arith

    -- What is sent next follows what the server holds, or starts anew.
    abbrev pub Starts : (offset : ℕ) → Bytes → Storage → Type 0
    Starts offset content s =
        (HoldsSome content s × (offset ≡ length content))
        ⊎ (DistinctIds s.transcripts × (offset ≡ 0) × (content ≡ []))

    pub append-Starts :
        (offset : ℕ) (payload content : Bytes) (s : Storage)
        → Starts offset content s
        → (r : RawTranscript × Storage) × (append_row hash stamps_in paths decisions id ref offset
              payload s
            ≡ ok r)
          × HoldsSome (content ++ payload) r.1
    append-Starts offset payload content s (inl (h, at)) =
        subst
          (λ n.
            (r : RawTranscript × Storage) × (append_row hash stamps_in paths decisions id ref n
                payload s
              ≡ ok r)
            × HoldsSome (content ++ payload) r.1)
          (sym at) (append-next payload content s h)
    append-Starts offset payload content s (inr (d, at, none_yet)) =
        rw (at, none_yet) (append-first payload s d)
