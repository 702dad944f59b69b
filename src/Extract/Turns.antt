-- ===== src/Extract/Turns.antt =====
-- `read_codex` of backend/services/extract.py: the segments are the user's requests.
use mathlib.Core.List
use knowledgebase_storage.Common.{
  String, ◌≡◌, refl, subst, inl, inr, not, ◌&&◌, ◌||◌, List, [], ◌∷◌, ◌++◌, ◌==◌, if◌then◌else◌,
  Bool-cases, is_empty, Bool, true, false, some, arith, All,
}
use knowledgebase_storage.Models.Json.{Message, get}
use knowledgebase_storage.Queue.Service.{str}
use knowledgebase_storage.Extract.{Reader, stamp, new_reader}
use knowledgebase_storage.Extract.Values.{Texts, object_of, is_word_of, str_or_empty}
use knowledgebase_storage.Extract.Codex.{
  Patterns, note_inputs, questions_in, raw_input, read_codex_call, read_payload, read_codex_entry,
  read_codex_entries, codex_reader,
}
use knowledgebase_storage.Extract.Reads.{read_codex, codex_fails, codex_entry_fails, payload_fails}
use knowledgebase_storage.Extract.Runs.{
  Asks, headings, numbered, flush-Asks, trace-Asks, cwd-Asks, stamp-Asks,
}
use knowledgebase_storage.Extract.Messages.{
  Stands, note-Stands, asked_message, time_after, asked_in, all_asked, none_more,
  read_codex_message-Stands,
}

module _ (p : Texts) (q : Patterns) where
  note_inputs-Stands :
      (requests : List (String × String)) (last : String) (questions : List Message) (r : Reader)
      → Stands requests last r
      → Stands requests last (note_inputs p q questions r)
  unfolding note_inputs
  note_inputs-Stands requests last [] r h = h
  note_inputs-Stands requests last (m ∷ ms) r h =
      note_inputs-Stands requests last ms _ (note-Stands requests last _ r h)

  read_codex_call-Stands :
      (requests : List (String × String)) (last : String) (payload : Message) (r : Reader)
      → Stands requests last r
      → Stands requests last (read_codex_call p q payload r)
  unfolding read_codex_call
  read_codex_call-Stands requests last payload r h =
      elim (Bool-cases (str p.shown (get "name" payload) == "request_user_input_async")) [
        | inl e ↦
            rw e (note_inputs-Stands requests last (questions_in p q (raw_input p q payload)) r h)
        | inr e ↦ rw e (traced requests last r _ h)
      ]
    where
      traced :
          (requests : List (String × String)) (last : String) (r : Reader) (traces : List String)
          → Stands requests last r
          → Stands requests last (record r { traces = traces })
      traced requests last r traces h = record {
        asks = trace-Asks requests r traces h.asks;
        ended = h.ended;
      }

  read_payload-Stands :
      (requests : List (String × String)) (last : String) (payload : Message) (r : Reader)
      → Stands requests last r
      → Stands
          (requests
            ++ (if is_word_of "message" (get "type" payload)
                then asked_message p q last payload
                else []))
          last
          (read_payload p q payload r)
  unfolding read_payload
  read_payload-Stands requests last payload r h =
      let kind = get "type" payload in
      elim (Bool-cases (is_word_of "message" kind)) [
        | inl e ↦ rw e (read_codex_message-Stands p q requests last payload r h)
        | inr e ↦
            elim (Bool-cases (
              (is_word_of "function_call" kind || is_word_of "custom_tool_call" kind)
              && not (is_empty r.segments))) [
                | inl f ↦
                    rw (e, f)
                      (none_more p q requests last _
                        (read_codex_call-Stands requests last payload r h))
                | inr f ↦ rw (e, f) (none_more p q requests last r h)
              ]
      ]

  stamp-Stands :
      (requests : List (String × String)) (last : String) (entry : Message) (r : Reader)
      → Stands requests last r
      → Stands requests
          (time_after p q last entry)
          (stamp (str_or_empty p (get "timestamp" entry)) r)
  unfolding stamp
  stamp-Stands requests last entry r h =
      let asked = stamp-Asks requests (str_or_empty p (get "timestamp" entry)) r h.asks in
      elim (Bool-cases (str_or_empty p (get "timestamp" entry) == "")) [
        | inl e ↦ record { asks = asked; ended = rw e h.ended }
        | inr e ↦ record { asks = asked; ended = rw e refl }
      ]

  read_codex_entry-Stands :
      (requests : List (String × String)) (last : String) (entry : Message) (r : Reader)
      → Stands requests last r
      → Stands
          (requests ++ asked_in p q (time_after p q last entry) entry)
          (time_after p q last entry)
          (read_codex_entry p q entry r)
  unfolding read_codex_entry
  read_codex_entry-Stands requests last entry r h =
      let k = stamp-Stands requests last entry r h in
      let stamped = stamp (str_or_empty p (get "timestamp" entry)) r in
      let payload = object_of (get "payload" entry) in
      elim (Bool-cases (is_word_of "session_meta" (get "type" entry))) [
        | inl e ↦ rw e (
            none_more p q requests _ _
              (record { asks = cwd-Asks requests stamped _ k.asks; ended = k.ended }))
        | inr e ↦ elim (Bool-cases (is_word_of "response_item" (get "type" entry))) [
          | inl f ↦
              rw (e, f) (read_payload-Stands requests (time_after p q last entry) payload stamped k)
          | inr f ↦ rw (e, f) (none_more p q requests _ stamped k)
        ]
      ]

  read_codex_entries-Asks :
      (requests : List (String × String)) (last : String) (entries : List Message) (r : Reader)
      → Stands requests last r
      → Asks (requests ++ all_asked p q last entries) (read_codex_entries p q entries r)
  unfolding read_codex_entries
  read_codex_entries-Asks requests last [] r h = (none_more p q requests last r h).asks
  read_codex_entries-Asks requests last (e ∷ es) r h =
      let first = asked_in p q (time_after p q last e) e in
      subst (λ t. Asks t (read_codex_entries p q es (read_codex_entry p q e r)))
        (List.append_assoc requests first (all_asked p q (time_after p q last e) es))
        (read_codex_entries-Asks (requests ++ first) (time_after p q last e) es
          (read_codex_entry p q e r) (read_codex_entry-Stands requests last e r h))

  -- an entry that raises no error while a segment is begun raises none
  unbegun_entry :
      (begun : Bool) (e : Message)
      → codex_entry_fails p q true e ≡ false
      → codex_entry_fails p q begun e ≡ false
  unfolding codex_entry_fails payload_fails
  unbegun_entry true e h = h
  unbegun_entry false e h = ground (arith, h)

  none_fails :
      (entries : List Message) (r : Reader)
      → All (λ e. codex_entry_fails p q true e ≡ false) entries
      → codex_fails p q entries r ≡ false
  unfolding codex_fails
  none_fails [] r all = refl
  none_fails (e ∷ es) r all =
      rw
        (
          unbegun_entry (not (is_empty r.segments)) e all.0,
          none_fails es (read_codex_entry p q e r) all.1,
        )
        refl

  -- A transcript with objects and lists wherever the code looks into a value, while a segment is begun, is
  -- read without an error. The segments are the requests in it, in their order, numbered from one on, each
  -- with the last time that stands in the transcript up to it: every message of the user that is not empty, not one
  -- of the harness, not a goal that goes on by itself, not empty without what an editor put before it, and
  -- not an answer to a question.
  pub read_codex_lem :
      (entries : List Message)
      → All (λ e. codex_entry_fails p q true e ≡ false) entries
      → (r : Reader) × (read_codex p q entries ≡ some r)
        × (headings r.segments ≡ numbered 1 (all_asked p q "" entries))
  unfolding read_codex codex_reader Asks
  read_codex_lem entries all = (
    codex_reader p q entries,
    rw (none_fails entries new_reader all) refl,
    flush-Asks (all_asked p q "" entries) (read_codex_entries p q entries new_reader)
        (read_codex_entries-Asks [] "" entries new_reader (record { asks = refl; ended = refl })),
  )
