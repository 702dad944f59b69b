-- ===== src/Hook/Sending.antt =====
-- `send_block` and `send_blocks` of hooks/kbstore_hook.py against `append` of backend/services/ingest.py: what
-- the server has of a session's transcript.
use mathlib.Core.List
use knowledgebase_storage.Common.{
  ℕ, suc, ◌+◌, String, ◌≡◌, refl, sym, ap, ◌∙◌, subst, ◌⊎◌, inl, inr, Bool, true, false, List, [],
  ◌∷◌, ◌++◌, arith, length, length-append,
}
use knowledgebase_storage.Common.Result.{ok}
use knowledgebase_storage.Models.{NoteDecision}
use knowledgebase_storage.Queue.{decision_of}
use knowledgebase_storage.Queue.Decisions.{is_purged}
use knowledgebase_storage.Blobs.{Bytes}
use knowledgebase_storage.Uploads.{Paths, Storage, TranscriptRef, RawTranscript}
use knowledgebase_storage.Uploads.Service.{append, append_row}
use knowledgebase_storage.Uploads.Parts.{all_bytes}
use knowledgebase_storage.Hook.{
  Delivery, unsent, unanswered, answered, Sent, send_block, send_blocks,
}
use knowledgebase_storage.Hook.Rows.{DistinctIds}
use knowledgebase_storage.Hook.Appends.{
  HoldsSome as Held, Starts as Start, append-Starts as appended,
}

pub Delivery-cases : (d : Delivery) → (d ≡ unsent) ⊎ ((d ≡ unanswered) ⊎ (d ≡ answered))
Delivery-cases unsent = inl refl
Delivery-cases unanswered = inr (inl refl)
Delivery-cases answered = inr (inr refl)

module _ (hash : Bytes → String) (stamps_in : Bytes → List ℕ) (paths : Paths)
    (decisions : List NoteDecision) (id : ℕ) (ref : TranscriptRef)
    (allowed : is_purged (decision_of ref.key decisions) ≡ false) (net : ℕ → Delivery) where
  abbrev HasSome : Bytes → Storage → Type 0
  HasSome = Held hash stamps_in paths decisions id ref

  abbrev Starts : ℕ → Bytes → Storage → Type 0
  Starts = Start hash stamps_in paths decisions id ref allowed

  abbrev pub sending : (turns offset : ℕ) → List Bytes → Storage → Sent
  sending = send_blocks hash stamps_in paths decisions id ref net

  -- Nothing changed, or what the server holds goes on with the first of the bytes that were to be sent.
  abbrev pub Outcome : Bytes → List Bytes → Storage → Storage → Type 0
  Outcome content bs s s' =
      DistinctIds s'.transcripts
      × ((s' ≡ s) ⊎ ((p q : Bytes) × (p ++ q ≡ all_bytes bs) × HasSome (content ++ p) s'))

  append_ok :
      (offset : ℕ) (b : Bytes) (s : Storage) (r : RawTranscript × Storage)
      → append_row hash stamps_in paths decisions id ref offset b s ≡ ok r
      → append hash stamps_in paths decisions id ref offset b s ≡ (ok r.0, r.1)
  unfolding append
  append_ok offset b s r e = rw (e, append) refl

  send_block-Outcome :
      (turns offset : ℕ) (b content : Bytes) (s : Storage)
      → Starts offset content s
      → (send_block hash stamps_in paths decisions id ref net turns offset b s ≡ (false, s))
        ⊎ ((told : Bool) × (s' : Storage) × (send_block hash stamps_in paths decisions id ref net
                turns offset b s
              ≡ (told, s'))
            × HasSome (content ++ b) s')
  unfolding send_block
  send_block-Outcome turns offset b content s start =
      let (r, e, h) =
        appended hash stamps_in paths decisions id ref allowed offset b content s start in
      let served = append_ok offset b s r e in
      elim (Delivery-cases (net turns)) [
        | inl n ↦ inl (rw (n, send_block) refl)
        | inr (inl n) ↦ inr (false, r.1, rw (n, served, send_block) refl, h)
        | inr (inr n) ↦ inr (true, r.1, rw (n, served, send_block) refl, h)
      ]

  pub send_block-answered :
      (turns offset : ℕ) (b content : Bytes) (s : Storage)
      → net turns ≡ answered
      → Starts offset content s
      → (s' : Storage) × (send_block hash stamps_in paths decisions id ref net turns offset b s
          ≡ (true, s'))
        × HasSome (content ++ b) s'
  unfolding send_block
  send_block-answered turns offset b content s n start =
      let (r, e, h) =
        appended hash stamps_in paths decisions id ref allowed offset b content s start in
      let served = append_ok offset b s r e in (r.1, rw (n, served, send_block) refl, h)

  later :
      (content b : Bytes) (bs : List Bytes) (s s' s'' : Storage)
      → HasSome (content ++ b) s'
      → Outcome (content ++ b) bs s' s''
      → Outcome content (b ∷ bs) s s''
  later content b bs s s' s'' h (d, inl same) =
      (d, inr (b, all_bytes bs, refl, subst (HasSome (content ++ b)) (sym same) h))
  later content b bs s s' s'' h (d, inr (p, q, e, h'')) = (
    d,
    inr (
      b ++ p,
      q,
      List.append_assoc b p q ∙ ap (λ t. b ++ t) e,
      subst (λ c. HasSome c s'') (List.append_assoc content b p) h'',
    ),
  )

  further :
      (offset : ℕ) (b content : Bytes) (s : Storage)
      → Starts offset content s
      → offset + length b ≡ length (content ++ b)
  further offset b content s (inl (h, at)) = omega (arith, length-append content b)
  further offset b content s (inr (d, at, none_yet)) = rw (at, none_yet) (omega arith)

  pub send_blocks-Outcome :
      (bs : List Bytes) (turns offset : ℕ) (content : Bytes) (s : Storage)
      → DistinctIds s.transcripts
      → Starts offset content s
      → Outcome content bs s (sending turns offset bs s).storage
  unfolding send_blocks send_block
  send_blocks-Outcome [] turns offset content s d start = (d, inl refl)
  send_blocks-Outcome (b ∷ bs) turns offset content s d start =
      elim (send_block-Outcome turns offset b content s start) [
        | inl e ↦ rw e (d, inl refl)
        | inr (true, s', e, h) ↦ rw e (
            later content b bs s s' (sending (suc turns) (offset + length b) bs s').storage h (
              send_blocks-Outcome bs (suc turns) (offset + length b) (content ++ b) s' h.0
                (inl (h, further offset b content s start))))
        | inr (false, s', e, h) ↦ rw e (later content b bs s s' s' h (h.0, inl refl))
      ]

  -- where every request is answered, all of it arrives
  pub send_blocks-arrive :
      ((n : ℕ) → net n ≡ answered)
      → (bs : List Bytes) (turns offset : ℕ) (content : Bytes) (s : Storage) → HasSome content s
      → offset ≡ length content
      → HasSome (content ++ all_bytes bs) (sending turns offset bs s).storage
        × ((sending turns offset bs s).done ≡ true)
  unfolding send_blocks
  send_blocks-arrive well [] turns offset content s h at =
      (subst (λ c. HasSome c s) (sym (List.append-nil content)) h, refl)
  send_blocks-arrive well (b ∷ bs) turns offset content s h at =
      let (s', e, h') = send_block-answered turns offset b content s (well turns) (inl (h, at)) in
      let (there, done) =
        send_blocks-arrive well bs (suc turns) (offset + length b) (content ++ b) s' h'
          (omega (arith, at, length-append content b)) in
      rw e (
        subst (λ c. HasSome c (sending (suc turns) (offset + length b) bs s').storage)
            (List.append_assoc content b (all_bytes bs)) there,
        done,
      )
