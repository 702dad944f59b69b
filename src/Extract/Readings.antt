-- ===== src/Extract/Readings.antt =====
-- The requests in a line of a transcript that `read_claude` of backend/services/extract.py reads, and what it does
-- with the other lines.

use knowledgebase_storage.Common.{
  String, inl, inr, Bool, true, false, not, ◌&&◌, ◌||◌, Option, some, List, [], ◌∷◌, ◌++◌, ◌==◌,
  if◌then◌else◌, Bool-cases, or_text,
}
use knowledgebase_storage.Common.Dict.{lookup}
use knowledgebase_storage.Models.Json.{Json, object, Message, get}
use knowledgebase_storage.Queue.Service.{str}
use knowledgebase_storage.Names.{strip}
use knowledgebase_storage.Extract.{Reader}
use knowledgebase_storage.Extract.Values.{
  Texts, is_word_of, truthy, str_or_empty, objects_of, object_of,
}
use knowledgebase_storage.Extract.Claude.{
  Reading, request_in, blocks_of, note_questions, read_attachment, note_result, read_result,
  note_use, read_tool_use, add_trace_of, read_assistant_block, read_claude_assistant, seen,
}
use knowledgebase_storage.Extract.Runs.{Asks, note-Asks, trace_of_tool-Asks, stamp-Asks}

if-Asks :
    (requests : List (String × String)) (test : Bool) (r t : Reader)
    → Asks requests r
    → Asks requests t
    → Asks requests (if test then r else t)
if-Asks requests true r t h k = h
if-Asks requests false r t h k = k

module _ (p : Texts) where
  -- the requests in one message of the user, with the time of the entry
  abbrev pub asked_blocks : Bool → String → List Message → List (String × String)
  asked_blocks is_summary time [] = []
  asked_blocks is_summary time (b ∷ bs) =
      let rest = asked_blocks is_summary time bs in
      if is_word_of "tool_result" (get "type" b) || request_in p is_summary b == ""
      then rest
      else (request_in p is_summary b, time) ∷ rest

  abbrev pub asked_message : (entry : Message) → Option Json → List (String × String)
  asked_message entry (some (object message)) =
      if is_word_of "user" (get "role" message)
      then asked_blocks (truthy p (get "isCompactSummary" entry))
          (str_or_empty p (get "timestamp" entry)) (blocks_of p (get "content" message))
      else []
  asked_message entry other = []

  -- the requests in one entry: those of a user's message that is no attachment and not marked as meta
  abbrev pub asked_in : Message → List (String × String)
  asked_in entry =
      if is_word_of "attachment" (get "type" entry) || truthy p (get "isMeta" entry)
      then []
      else asked_message entry (get "message" entry)

  abbrev pub all_asked : List Message → List (String × String)
  all_asked [] = []
  all_asked (e ∷ es) = asked_in e ++ all_asked es

  module _ (requests : List (String × String)) where
    pub read_attachment-Asks :
        (entry : Message) (r : Reader) → Asks requests r → Asks requests (read_attachment p entry r)
    unfolding read_attachment
    read_attachment-Asks entry r h =
        if-Asks requests _ r _ h (if-Asks requests _ r _ h (note-Asks requests _ r h))

    note_result-Asks :
        (name : String) (block : Message) (r : Reader)
        → Asks requests r
        → Asks requests (note_result p name block r)
    unfolding note_result
    note_result-Asks name block r h =
        if-Asks requests (name == "AskUserQuestion") _ _ (note-Asks requests _ r h) (
          if-Asks requests (name == "ExitPlanMode") _ _ (note-Asks requests _ r h) (
            if-Asks requests (truthy p (get "is_error" block) && not (name == "")) _ r
              (trace_of_tool-Asks requests _ r h) h))

    pub read_result-Asks :
        (block : Message) (s : Reading)
        → Asks requests s.reader
        → Asks requests (read_result p block s).reader
    unfolding read_result
    read_result-Asks block s h =
        note_result-Asks (or_text (lookup (str p.shown (get "tool_use_id" block)) s.pending) "")
          block s.reader h

    note_questions-Asks :
        (questions : List Message) (r : Reader)
        → Asks requests r
        → Asks requests (note_questions p questions r)
    unfolding note_questions
    note_questions-Asks [] r h = h
    note_questions-Asks (q ∷ qs) r h = note_questions-Asks qs _ (note-Asks requests _ r h)

    add_trace_of-Asks :
        (name : String) (input : Option Json) (r : Reader)
        → Asks requests r
        → Asks requests (add_trace_of p name input r)
    unfolding add_trace_of
    add_trace_of-Asks name input r h = if-Asks requests _ r _ h (trace_of_tool-Asks requests _ r h)

    note_use-Asks :
        (name : String) (input : Option Json) (r : Reader)
        → Asks requests r
        → Asks requests (note_use p name input r)
    unfolding note_use
    note_use-Asks name input r h =
        if-Asks requests (name == "AskUserQuestion") _ _
          (note_questions-Asks (objects_of (get "questions" (object_of input))) r h)
          (if-Asks requests (name == "ExitPlanMode") _ _ (note-Asks requests _ r h)
            (add_trace_of-Asks name input r h))

    read_tool_use-Asks :
        (block : Message) (s : Reading)
        → Asks requests s.reader
        → Asks requests (read_tool_use p block s).reader
    unfolding read_tool_use
    read_tool_use-Asks block s h =
        note_use-Asks (str p.shown (get "name" block)) (get "input" block) s.reader h

    read_assistant_block-Asks :
        (block : Message) (s : Reading)
        → Asks requests s.reader
        → Asks requests (read_assistant_block p block s).reader
    unfolding read_assistant_block
    read_assistant_block-Asks block s h =
        let said = strip p.is_space (str p.shown (get "text" block)) in
        elim (Bool-cases (is_word_of "text" (get "type" block) && not (said == ""))) [
          | inl e ↦ rw e (note-Asks requests _ s.reader h)
          | inr e ↦ elim (Bool-cases (is_word_of "tool_use" (get "type" block))) [
            | inl f ↦ rw (e, f) (read_tool_use-Asks block s h)
            | inr f ↦ rw (e, f) h
          ]
        ]

    pub read_claude_assistant-Asks :
        (blocks : List Message) (s : Reading)
        → Asks requests s.reader
        → Asks requests (read_claude_assistant p blocks s).reader
    unfolding read_claude_assistant
    read_claude_assistant-Asks [] s h = h
    read_claude_assistant-Asks (b ∷ bs) s h =
        read_claude_assistant-Asks bs (read_assistant_block p b s) (read_assistant_block-Asks b s h)

    pub seen-Asks :
        (entry : Message) (r : Reader) → Asks requests r → Asks requests (seen p entry r)
    unfolding seen Asks
    seen-Asks entry r h = stamp-Asks requests _ _ h
