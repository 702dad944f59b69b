-- ===== src/Hook/Arrival.antt =====
-- `push_transcript` of hooks/kbstore_hook.py where every request is answered.
use mathlib.Core.List
use knowledgebase_storage.Common.{
  ℕ, suc, ◌+◌, ◌<◌, String, ◌≡◌, refl, sym, ap, ◌∙◌, subst, ◌≢◌, inl, inr, true, false, none, some,
  List, [], ◌∷◌, ◌++◌, arith, eqb, leb, if◌then◌else◌, Bool-cases, length, length-append, drop,
  length-drop, drop-append,
}
use knowledgebase_storage.Common.Result.{ok, raised}
use knowledgebase_storage.Models.{NoteDecision}
use knowledgebase_storage.Queue.{decision_of}
use knowledgebase_storage.Queue.Decisions.{is_purged}
use knowledgebase_storage.Blobs.{Bytes}
use knowledgebase_storage.Uploads.{Paths, Storage, TranscriptRef, RawTranscript, find_transcript}
use knowledgebase_storage.Uploads.Parts.{all_bytes}
use knowledgebase_storage.Hook.{
  Delivery, answered, blocks, state, Sent, send_blocks, send_transcript, held_offset,
  push_transcript,
}
use knowledgebase_storage.Hook.Rows.{DistinctIds}
use knowledgebase_storage.Hook.Pushing.{blocks_all, Begins, IsReady}
use knowledgebase_storage.Hook.Appends.{Holds, HoldsSome}
use knowledgebase_storage.Hook.Sending.{send_block-answered, send_blocks-arrive}

module _ (hash : Bytes → String) (stamps_in : Bytes → List ℕ) (paths : Paths)
    (decisions : List NoteDecision) (id : ℕ) (ref : TranscriptRef)
    (allowed : is_purged (decision_of ref.key decisions) ≡ false) (net : ℕ → Delivery) (size : ℕ)
    (some_size : 0 < size) (transcript : Bytes) (well : (n : ℕ) → net n ≡ answered) where
  abbrev heard : (turns offset : ℕ) → Storage → Sent
  heard turns offset s =
      send_transcript hash stamps_in paths decisions id ref net size turns offset transcript s

  abbrev HasAll : Storage → Type 0
  HasAll = HoldsSome hash stamps_in paths decisions id ref transcript

  anew-arrives :
      (turns : ℕ) (s : Storage)
      → transcript ≢ []
      → DistinctIds s.transcripts
      → HasAll (heard turns 0 s).storage × ((heard turns 0 s).done ≡ true)
  unfolding send_transcript
  anew-arrives turns s some_bytes d =
      subst
        (λ b.
          HoldsSome hash stamps_in paths decisions id ref b (heard turns 0 s).storage
          × ((heard turns 0 s).done ≡ true))
        (blocks_all (length transcript) size transcript some_size (omega arith))
        (arrive (blocks (length transcript) size transcript) (λ none_left. some_bytes (
          sym (blocks_all (length transcript) size transcript some_size (omega arith))
          ∙ ap all_bytes none_left)))
    where
      arrive :
          (bs : List Bytes)
          → bs ≢ []
          → HoldsSome hash stamps_in paths decisions id ref
              (all_bytes bs)
              (send_blocks hash stamps_in paths decisions id ref net turns 0 bs s).storage
            × ((send_blocks hash stamps_in paths decisions id ref net turns 0 bs s).done ≡ true)
      arrive [] some_blocks = absurd (some_blocks refl)
      arrive (b ∷ bs) some_blocks =
          let (s', e, h) =
            send_block-answered hash stamps_in paths decisions id ref allowed net turns 0 b [] s
              (well turns) (inr (d, refl, refl)) in
          let rest =
            send_blocks-arrive hash stamps_in paths decisions id ref allowed net well bs (suc turns)
              (0 + length b) b s' h (omega arith) in
          rw (e, send_blocks) rest

  further-arrives :
      (turns : ℕ) (content : Bytes) (s : Storage) (t : RawTranscript)
      → DistinctIds s.transcripts
      → Holds hash stamps_in paths decisions id ref content s t
      → Begins transcript content
      → HasAll (heard turns (length content) s).storage
        × ((heard turns (length content) s).done ≡ true)
  unfolding send_transcript
  further-arrives turns content s t d h (rest, e) =
      let left : drop (length content) transcript ≡ rest =
        subst (λ b. drop (length content) b ≡ rest) e (drop-append content rest) in
      let bs = blocks (length transcript) size (drop (length content) transcript) in
      let whole : content ++ all_bytes bs ≡ transcript =
        ap (λ b. content ++ b)
          (blocks_all (length transcript) size (drop (length content) transcript) some_size
              (omega (arith, length-drop (length content) transcript))
            ∙ left)
        ∙ e in
      subst
        (λ b.
          HoldsSome hash stamps_in paths decisions id ref b (heard turns (length content) s).storage
          × ((heard turns (length content) s).done ≡ true))
        whole
        (send_blocks-arrive hash stamps_in paths decisions id ref allowed net well bs turns
          (length content) content s (d, (t, h)) refl)

  device_offset :
      (turns : ℕ) (s : Storage)
      → held_offset hash stamps_in paths decisions id ref net turns s
        ≡ elim (state ref.key s) [ raised e ↦ 0 | ok n ↦ n ]
  unfolding held_offset
  device_offset turns s = rw (well turns, held_offset) refl

  -- the first loop did all
  finished :
      (offset : ℕ) (s : Storage)
      → held_offset hash stamps_in paths decisions id ref net 0 s ≡ offset
      → eqb (length transcript) offset ≡ false
      → let start = if leb offset (length transcript) then offset else 0 in
        HasAll (heard 1 start s).storage × ((heard 1 start s).done ≡ true)
        → HasAll (push_transcript hash stamps_in paths decisions id ref net size transcript s)
  unfolding push_transcript
  finished offset s e other (there, done) = rw (e, other, done, push_transcript) there

  no_offset :
      (s : Storage)
      → find_transcript ref.key s.transcripts ≡ none
      → held_offset hash stamps_in paths decisions id ref net 0 s ≡ 0
  unfolding state
  no_offset s none_yet = device_offset 0 s ∙ rw none_yet refl

  row_offset :
      (s : Storage) (t : RawTranscript)
      → find_transcript ref.key s.transcripts ≡ some t
      → held_offset hash stamps_in paths decisions id ref net 0 s ≡ t.byte_size
  unfolding state
  row_offset s t row = device_offset 0 s ∙ rw row refl

  some_length : transcript ≢ [] → eqb (length transcript) 0 ≡ false
  some_length some_bytes = some_of transcript some_bytes
    where
      some_of : (b : Bytes) → b ≢ [] → eqb (length b) 0 ≡ false
      some_of [] h = absurd (h refl)
      some_of (x ∷ xs) h = ground arith

  -- the server has all that there is
  unchanged :
      (content : Bytes) (s : Storage) (t : RawTranscript)
      → DistinctIds s.transcripts
      → Holds hash stamps_in paths decisions id ref content s t
      → content ≡ transcript
      → HasAll s
  unchanged content s t d h same =
      (d, (t, subst (λ b. Holds hash stamps_in paths decisions id ref b s t) same h))

  whole :
      (content rest : Bytes)
      → content ++ rest ≡ transcript
      → length content ≡ length transcript
      → content ≡ transcript
  whole content [] e l = sym (List.append-nil content) ∙ e
  whole content (r ∷ rs) e l = absurd (omega (arith, length-append content (r ∷ rs), ap length e))

  abbrev begin_at : ℕ → ℕ
  begin_at offset = if leb offset (length transcript) then offset else 0

  -- Where the session is not purged, blocks and the transcript are not empty, and the server has nothing of the
  -- session, a first part of the transcript or a file that is longer, with rows of different identifiers:
  -- once every request of a push is answered, the server has the whole transcript.
  pub push_transcript-HoldsSome :
      (s : Storage)
      → transcript ≢ []
      → IsReady hash stamps_in paths decisions id ref transcript s
      → HasAll (push_transcript hash stamps_in paths decisions id ref net size transcript s)
  unfolding push_transcript
  push_transcript-HoldsSome s some_bytes (d, inl none_yet) =
      finished 0 s (no_offset s none_yet) (some_length some_bytes)
        (rw (nought) (anew-arrives 1 s some_bytes d))
    where
      nought : begin_at 0 ≡ 0
      nought = ground arith
  push_transcript-HoldsSome s some_bytes (d, inr (content, t, h, inl (rest, e))) =
      let l : length content + length rest ≡ length transcript =
        sym (length-append content rest) ∙ ap length e in
      elim (Bool-cases (eqb (length transcript) t.byte_size)) [
        | inl same ↦
            let all : content ≡ transcript = whole content rest e (ground (arith, same, h.sized)) in
            rw (row_offset s t h.row, same, push_transcript) (unchanged content s t d h all)
        | inr other ↦
            let start : begin_at t.byte_size ≡ length content = ground (arith, l, h.sized) in
            finished t.byte_size s (row_offset s t h.row) other
              (rw start (further-arrives 1 content s t d h (rest, e)))
      ]
  push_transcript-HoldsSome s some_bytes (d, inr (content, t, h, inr longer)) =
      let start : begin_at t.byte_size ≡ 0 = ground (arith, longer, h.sized) in
      let other : eqb (length transcript) t.byte_size ≡ false = ground (arith, longer, h.sized) in
      finished t.byte_size s (row_offset s t h.row) other (rw start (anew-arrives 1 s some_bytes d))
