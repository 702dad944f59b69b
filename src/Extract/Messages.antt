-- ===== src/Extract/Messages.antt =====
-- The request in a message that `read_codex_message` of backend/services/extract.py reads.
use mathlib.Core.List
use knowledgebase_storage.Common.{
  String, ◌≡◌, refl, sym, ◌∙◌, subst, inl, inr, true, false, not, ◌&&◌, ◌||◌, Option, none, some,
  Option-cases, List, [], ◌∷◌, ◌++◌, map, arith, ◌==◌, eq_iff, if◌then◌else◌, Bool-cases, is_empty,
  ◌<>◌,
}
use knowledgebase_storage.Models.Json.{Json, null, bool, number, text, array, object, Message, get}
use knowledgebase_storage.Names.{begins}
use knowledgebase_storage.Extract.{answer_chars, Reader, Segment, note, open_segment, flush}
use knowledgebase_storage.Extract.Values.{Texts, object_of, is_word_of, str_or_empty, cleaned, flat}
use knowledgebase_storage.Extract.Codex.{
  Patterns, is_noise, note_each, append_line, codex_answers, asked_of, active_in, message_text,
  open_request, note_goal, read_request, read_codex_message,
}
use knowledgebase_storage.Extract.Runs.{Asks, heading, on_last-Asks, note-Asks, open_segment-Asks}

-- The segments are those of these requests, and the last time that was seen is this one.
pub record Stands (requests : List (String × String)) (last : String) (r : Reader) : Type 0 where
  pub asks : Asks requests r
  pub ended : r.ended_at ≡ last

note-ended : (line : String) (r : Reader) → (note line r).ended_at ≡ r.ended_at
unfolding note flush
note-ended line r = refl

pub note-Stands :
    (requests : List (String × String)) (last line : String) (r : Reader)
    → Stands requests last r
    → Stands requests last (note line r)
note-Stands requests last line r h = record {
  asks = note-Asks requests line r h.asks;
  ended = note-ended line r ∙ h.ended;
}

note_each-Stands :
    (requests : List (String × String)) (last prefix : String) (lines : List String) (r : Reader)
    → Stands requests last r
    → Stands requests last (note_each prefix lines r)
unfolding note_each
note_each-Stands requests last prefix [] r h = h
note_each-Stands requests last prefix (l ∷ ls) r h =
    note_each-Stands requests last prefix ls (note (prefix <> l) r)
      (note-Stands requests last (prefix <> l) r h)

headings-append_line : (line : String) (s : Segment) → heading (append_line line s) ≡ heading s
unfolding append_line
headings-append_line line s = refl

one_role :
    (role : Option Json) → is_word_of "assistant" role ≡ true → is_word_of "user" role ≡ false
unfolding is_word_of
one_role none h = absurd (cc)
one_role (some null) h = absurd (cc)
one_role (some (bool b)) h = absurd (cc)
one_role (some (number n)) h = absurd (cc)
one_role (some (text t)) h =
    subst (λ w. (w == "user") ≡ false) (sym ((eq_iff t "assistant").0 h)) refl
one_role (some (array items)) h = absurd (cc)
one_role (some (object fields)) h = absurd (cc)

module _ (p : Texts) (q : Patterns) where
  -- the request in a message, or none
  abbrev pub asked_message : (time : String) → Message → List (String × String)
  asked_message time payload =
      let said = message_text p q payload in
      let request = asked_of p q said in
      if not (is_word_of "user" (get "role" payload)) || (said == "" || is_noise said)
      then []
      else if begins said "<codex_internal_context" || request == ""
      then []
      else elim (codex_answers p q request) [
        | some answers ↦ []
        | none ↦ (cleaned p request, time) ∷ []
      ]

  -- the time that stands after an entry
  abbrev pub time_after : String → Message → String
  time_after last entry =
      let time = str_or_empty p (get "timestamp" entry) in if time == "" then last else time

  abbrev pub asked_in : (time : String) → Message → List (String × String)
  asked_in time entry =
      let payload = object_of (get "payload" entry) in
      if is_word_of "session_meta" (get "type" entry)
        || not (is_word_of "response_item" (get "type" entry))
      then []
      else if is_word_of "message" (get "type" payload)
      then asked_message time payload
      else []

  abbrev pub all_asked : (last : String) → List Message → List (String × String)
  all_asked last [] = []
  all_asked last (e ∷ es) = asked_in (time_after last e) e ++ all_asked (time_after last e) es

  pub none_more :
      (requests : List (String × String)) (last : String) (r : Reader)
      → Stands requests last r
      → Stands (requests ++ []) last r
  none_more requests last r h = subst (λ t. Stands t last r) (sym (List.append-nil requests)) h

  open_request-Stands :
      (requests : List (String × String)) (last request active : String) (r : Reader)
      → Stands requests last r
      → Stands
          (requests ++ ((cleaned p request, last) ∷ []))
          last
          (open_request p q request active r)
  unfolding open_request
  open_request-Stands requests last request active r h =
      let opened = open_segment-Asks requests (cleaned p request) r.ended_at r h.asks in
      let timed : Asks (requests ++ ((cleaned p request, last) ∷ []))
          (open_segment (cleaned p request) r.ended_at r) =
        subst
          (λ t.
            Asks (requests ++ ((cleaned p request, t) ∷ []))
              (open_segment (cleaned p request) r.ended_at r))
          h.ended opened in
      elim (Bool-cases (active == "")) [
        | inl e ↦ rw e (record { asks = timed; ended = h.ended })
        | inr e ↦ rw e (record {
          asks =
              on_last-Asks (requests ++ ((cleaned p request, last) ∷ []))
                (append_line ("(활성 파일: " <> (active <> ")")))
                (open_segment (cleaned p request) r.ended_at r)
                (headings-append_line ("(활성 파일: " <> (active <> ")"))) timed;
          ended = h.ended;
        })
      ]

  read_request-Stands :
      (requests : List (String × String)) (last request active : String) (r : Reader)
      → Stands requests last r
      → Stands
          (requests ++ elim (codex_answers p q request) as (λ o. List (String × String)) [
            | some answers ↦ []
            | none ↦ (cleaned p request, last) ∷ []
          ])
          last
          (read_request p q request active r)
  unfolding read_request
  read_request-Stands requests last request active r h =
      elim (Option-cases (codex_answers p q request)) [
        | inl e ↦ rw (e, read_request) (open_request-Stands requests last request active r h)
        | inr (answers, e) ↦
            rw (e, read_request)
              (none_more requests last _ (
                note_each-Stands requests last "[사용자 답변] "
                  (map (λ a. flat p a answer_chars) answers) r h))
      ]

  note_goal-Stands :
      (requests : List (String × String)) (last said : String) (r : Reader)
      → Stands requests last r
      → Stands requests last (note_goal p q said r)
  unfolding note_goal
  note_goal-Stands requests last said r h = note-Stands requests last _ r h

  pub read_codex_message-Stands :
      (requests : List (String × String)) (last : String) (payload : Message) (r : Reader)
      → Stands requests last r
      → Stands (requests ++ asked_message last payload) last (read_codex_message p q payload r)
  unfolding read_codex_message
  read_codex_message-Stands requests last payload r h =
      let said = message_text p q payload in
      let role = get "role" payload in
      let request = asked_of p q said in
      elim (Bool-cases
        (is_word_of "assistant" role && (not (said == "") && not (is_empty r.segments)))) [
          | inl e ↦
              let f : is_word_of "user" role ≡ false = one_role role (ground (arith, e)) in
              rw (e, f)
                (none_more requests last _ (note-Stands requests last ("[assistant] " <> said) r h))
          | inr e ↦
              elim (Bool-cases (not (is_word_of "user" role) || (said == "" || is_noise said))) [
                | inl f ↦ rw (e, f) (none_more requests last r h)
                | inr f ↦ elim (Bool-cases (begins said "<codex_internal_context")) [
                  | inl g ↦
                      rw (e, f, g)
                        (none_more requests last _ (note_goal-Stands requests last said r h))
                  | inr g ↦ elim (Bool-cases (request == "")) [
                    | inl k ↦ rw (e, f, g, k) (none_more requests last r h)
                    | inr k ↦
                        rw (e, f, g, k)
                          (read_request-Stands requests last request (active_in p q said) r h)
                  ]
                ]
              ]
        ]
