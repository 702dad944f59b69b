-- ===== src/Hook/Pushing.antt =====
-- `push_transcript` of hooks/kbstore_hook.py: whatever is lost on the way, the server has a first part of
-- the transcript, and all of it once its answers arrive.
use mathlib.Core.List
use knowledgebase_storage.Common.{
  ℕ, zero, suc, ◌+◌, ◌≤◌, ◌<◌, String, ◌≡◌, refl, sym, ap, ◌∙◌, subst, ◌⊎◌, inl, inr, false, not,
  ◌&&◌, none, List, [], ◌∷◌, ◌++◌, arith, eqb, leb, if◌then◌else◌, Bool-cases, length,
  length-append, take, drop, take-append-drop, length-drop, drop-append,
}
use knowledgebase_storage.Models.{NoteDecision}
use knowledgebase_storage.Queue.{decision_of}
use knowledgebase_storage.Queue.Decisions.{is_purged}
use knowledgebase_storage.Blobs.{Bytes}
use knowledgebase_storage.Uploads.{Paths, Storage, TranscriptRef, RawTranscript, find_transcript}
use knowledgebase_storage.Uploads.Parts.{all_bytes}
use knowledgebase_storage.Hook.{
  Delivery, blocks, state, Sent, send_transcript, held_offset, push_transcript,
}
use knowledgebase_storage.Hook.Rows.{DistinctIds}
use knowledgebase_storage.Hook.Appends.{Holds}
use knowledgebase_storage.Hook.Sending.{Delivery-cases, send_blocks-Outcome}

pub blocks_all :
    (rounds size : ℕ) (content : Bytes)
    → 0 < size
    → length content ≤ rounds
    → all_bytes (blocks rounds size content) ≡ content
unfolding blocks
blocks_all rounds size [] p h = nothing rounds
  where
    nothing : (rounds : ℕ) → all_bytes (blocks rounds size []) ≡ []
    nothing zero = refl
    nothing (suc n) = refl
blocks_all zero size (x ∷ xs) p h = absurd (omega arith)
blocks_all (suc rounds) size (x ∷ xs) p h =
    ap (λ (t : Bytes). take size (x ∷ xs) ++ t)
      (blocks_all rounds size (drop size (x ∷ xs)) p (omega (arith, length-drop size (x ∷ xs))))
    ∙ take-append-drop size (x ∷ xs)

-- These bytes are the first of the transcript.
abbrev pub Begins : (transcript content : Bytes) → Type 0
Begins transcript content = (rest : Bytes) × (content ++ rest ≡ transcript)

module _ (hash : Bytes → String) (stamps_in : Bytes → List ℕ) (paths : Paths)
    (decisions : List NoteDecision) (id : ℕ) (ref : TranscriptRef) (transcript : Bytes) where
  -- The server has no row of the session, or it has a first part of the transcript, or a file that is
  -- longer than the transcript.
  abbrev pub Standing : Storage → Type 0
  Standing s =
      (find_transcript ref.key s.transcripts ≡ none)
      ⊎ ((content : Bytes) × (t : RawTranscript) × Holds hash stamps_in paths decisions id ref
            content s t
          × (Begins transcript content ⊎ (length transcript < length content)))

  abbrev pub IsReady : Storage → Type 0
  IsReady s = DistinctIds s.transcripts × Standing s

module _ (hash : Bytes → String) (stamps_in : Bytes → List ℕ) (paths : Paths)
    (decisions : List NoteDecision) (id : ℕ) (ref : TranscriptRef)
    (allowed : is_purged (decision_of ref.key decisions) ≡ false) (net : ℕ → Delivery) (size : ℕ)
    (some_size : 0 < size) (transcript : Bytes) where
  abbrev Ready : Storage → Type 0
  Ready = IsReady hash stamps_in paths decisions id ref transcript

  abbrev sent : (turns offset : ℕ) → Storage → Sent
  sent turns offset s =
      send_transcript hash stamps_in paths decisions id ref net size turns offset transcript s

  -- the second loop of `push_transcript`, and the first where it starts anew
  anew-IsReady : (turns : ℕ) (s : Storage) → Ready s → Ready (sent turns 0 s).storage
  unfolding send_transcript
  anew-IsReady turns s (d, r) =
      let (d', o) =
        send_blocks-Outcome hash stamps_in paths decisions id ref allowed net
          (blocks (length transcript) size transcript) turns 0 [] s d (inr (d, refl, refl)) in
      elim o [
        | inl same ↦
            (d', subst (Standing hash stamps_in paths decisions id ref transcript) (sym same) r)
        | inr (p, q, e, (d'', (t, h))) ↦ (
          d',
          inr (
            p,
            t,
            h,
            inl (q, e ∙ blocks_all (length transcript) size transcript some_size (omega arith)),
          ),
        )
      ]

  further-IsReady :
      (turns : ℕ) (content : Bytes) (s : Storage) (t : RawTranscript)
      → Ready s
      → Holds hash stamps_in paths decisions id ref content s t
      → Begins transcript content
      → Ready (sent turns (length content) s).storage
  unfolding send_transcript
  further-IsReady turns content s t (d, r) h (rest, e) =
      let left : drop (length content) transcript ≡ rest =
        subst (λ b. drop (length content) b ≡ rest) e (drop-append content rest) in
      let (d', o) =
        send_blocks-Outcome hash stamps_in paths decisions id ref allowed net
          (blocks (length transcript) size (drop (length content) transcript)) turns
          (length content) content s d (inl ((d, (t, h)), refl)) in
      elim o [
        | inl same ↦
            (d', subst (Standing hash stamps_in paths decisions id ref transcript) (sym same) r)
        | inr (p, q, f, (d'', (u, k))) ↦ (
          d',
          inr (
            content ++ p,
            u,
            k,
            inl (
              q,
              List.append_assoc content p q
                  ∙ ap (λ b. content ++ b)
                      (f
                        ∙ blocks_all (length transcript) size (drop (length content) transcript)
                            some_size (omega (arith, length-drop (length content) transcript))
                        ∙ left)
                  ∙ e,
            ),
          ),
        )
      ]

  -- where the first loop starts
  abbrev start_of : ℕ → ℕ
  start_of offset = if leb offset (length transcript) then offset else 0

  -- The device starts at 0, or where the first part ends that the server has.
  offset-cases :
      (turns : ℕ) (s : Storage)
      → Ready s
      → (start_of (held_offset hash stamps_in paths decisions id ref net turns s) ≡ 0)
        ⊎ ((content : Bytes) × (t : RawTranscript) × Holds hash stamps_in paths decisions id ref
              content s t
            × Begins transcript content
            × (start_of (held_offset hash stamps_in paths decisions id ref net turns s)
                ≡ length content))
  unfolding held_offset state
  offset-cases turns s (d, r) = elim (Delivery-cases (net turns)) [
    | inl n ↦ inl (rw (n, held_offset) nought)
    | inr (inl n) ↦ inl (rw (n, held_offset) nought)
    | inr (inr n) ↦ elim r [
      | inl none_yet ↦ inl (rw (n, none_yet, held_offset) nought)
      | inr (content, t, h, inl b) ↦
          inr (content, t, h, b, rw (n, h.row, held_offset) (fits content t h.sized b))
      | inr (content, t, h, inr longer) ↦
          inl (rw (n, h.row, held_offset) (too_long content t h.sized longer))
    ]
  ]
    where
      nought : start_of 0 ≡ 0
      nought = ground arith

      fits :
          (content : Bytes) (t : RawTranscript)
          → t.byte_size ≡ length content
          → Begins transcript content
          → start_of t.byte_size ≡ length content
      fits content t e (rest, f) =
          let l : length content + length rest ≡ length transcript =
            sym (length-append content rest) ∙ ap length f in
          ground (arith, e, l)

      too_long :
          (content : Bytes) (t : RawTranscript)
          → t.byte_size ≡ length content
          → length transcript < length content
          → start_of t.byte_size ≡ 0
      too_long content t e l = ground (arith, e, l)

  first-IsReady :
      (s : Storage)
      → Ready s
      → Ready
          (sent 1 (start_of (held_offset hash stamps_in paths decisions id ref net 0 s)) s).storage
  first-IsReady s r = elim (offset-cases 0 s r) [
    | inl e ↦ rw e (anew-IsReady 1 s r)
    | inr (content, t, h, b, e) ↦ rw e (further-IsReady 1 content s t r h b)
  ]

  -- Where the session is not purged, blocks are not empty, and the server has nothing of the session, a first
  -- part of the transcript or a file that is longer, with rows of different identifiers: whatever becomes of
  -- the requests of a push, the server then has nothing of it, a first part or a longer file again.
  pub push_transcript-IsReady :
      (s : Storage)
      → Ready s
      → Ready (push_transcript hash stamps_in paths decisions id ref net size transcript s)
  unfolding push_transcript
  push_transcript-IsReady s r =
      let offset = held_offset hash stamps_in paths decisions id ref net 0 s in
      let begun = sent 1 (start_of offset) s in
      elim (Bool-cases (eqb (length transcript) offset)) [
        | inl same ↦ rw same r
        | inr e ↦ elim (Bool-cases (not begun.done && not (eqb offset 0))) [
          | inl again ↦ rw (e, again) (anew-IsReady begun.turns begun.storage (first-IsReady s r))
          | inr over ↦ rw (e, over) (first-IsReady s r)
        ]
      ]
