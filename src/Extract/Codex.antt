-- ===== src/Extract/Codex.antt =====
-- The loop of `read_codex` of backend/services/extract.py and what it calls, over entries on which it raises no
-- error. What `json.loads` reads and what the patterns find are parameters.
use Prim.Native.String as Text
use knowledgebase_storage.Common.{
  String, Bool, not, ◌&&◌, ◌||◌, Option, none, some, List, [], ◌∷◌, ◌++◌, ◌==◌, if◌then◌else◌, ◌<>◌,
  is_empty, or_text, map,
}
use knowledgebase_storage.Common.Texts.{join, all_text}
use knowledgebase_storage.Models.Json.{
  Json, text, array, object, Items, end_items, item, end_fields, field, Message, get,
}
use knowledgebase_storage.Names.{strip, begins, has_part}
use knowledgebase_storage.Queue.Service.{str}
use knowledgebase_storage.Extract.{
  trace_chars, answer_chars, plan_chars, Reader, Segment, new_reader, on_last, flush, note,
  open_segment, stamp, flatten, clean_request,
}
use knowledgebase_storage.Extract.Values.{
  Texts, object_of, objects_of, is_word_of, texts_of, str_or_empty, either, flat, cleaned,
  formatted,
}
use knowledgebase_storage.Extract.Tools.{remove_prefix}

-- What the patterns of the code find in a text, and what `json.loads` makes of it.
pub record Patterns : Type 0 where
  pub loads : String → Option Json
  pub goal : String → Option String
  pub active_file : String → Option String
  pub without_context : String → String
  pub question_reply : String → Option String
  pub patch_files : String → List String
  pub exec_commands : String → List String

-- the prefixes of `CODEX_NOISE`
unfoldable pub is_noise : String → Bool
unfolding begins
is_noise s =
    begins s "# AGENTS.md instructions"
    || begins s "<environment_context>"
    || begins s "<user_instructions>"
    || begins s "<permissions instructions>"
    || begins s "<recommended_plugins>"

unfoldable pub values_of : Items → List Json
values_of end_items = []
values_of (item v rest) = v ∷ values_of rest

-- the values that a loop goes through: a text's characters, an object's keys
unfoldable pub keys_of : Message → List Json
keys_of end_fields = []
keys_of (field k v rest) = text k ∷ keys_of rest

unfoldable pub characters_of : String → List Json
characters_of Text.[] = []
characters_of (Text.◌∷◌ c s) = text (Text.◌∷◌ c "") ∷ characters_of s

unfoldable pub values_in : Option Json → List Json
unfolding values_of keys_of characters_of
values_in (some (array items)) = values_of items
values_in (some (object fields)) = keys_of fields
values_in (some (text s)) = characters_of s
values_in value = []

unfoldable pub note_each : (prefix : String) → List String → Reader → Reader
unfolding note
note_each prefix [] r = r
note_each prefix (s ∷ ss) r = note_each prefix ss (note (prefix <> s) r)

unfoldable pub append_line : String → Segment → Segment
append_line line s = record s { lines = s.lines ++ (line ∷ []) }

module _ (p : Texts) (q : Patterns) where
  unfoldable pub reply_lines : List Message → List String
  unfolding str get
  reply_lines [] = []
  reply_lines (m ∷ ms) =
      (str p.shown (get "question" m) <> (" → " <> str p.shown (get "answer" m))) ∷ reply_lines ms

  unfoldable pub codex_answers : String → Option (List String)
  unfolding reply_lines objects_of flatten
  codex_answers s = elim (q.question_reply s) [
    | none ↦ none
    | some found ↦ elim (q.loads found) [
      | none ↦ some (flat p found answer_chars ∷ [])
      | some replies ↦ some (reply_lines (objects_of (some replies)))
    ]
  ]

  unfoldable pub codex_traces : (name raw cwd : String) → List String
  unfolding has_part remove_prefix strip flatten str_or_empty either object_of get str
  codex_traces name raw cwd =
      let edits =
        map (λ path. "edit " <> remove_prefix (cwd <> "/") (strip p.is_space path))
          (q.patch_files raw) in
      let commands = map (λ command. "$ " <> flat p command trace_chars) (q.exec_commands raw) in
      let searched = if has_part "web__run" raw then "web search" ∷ [] else [] in
      let shell : List String = elim (q.loads raw) [
        | none ↦ ("$ " <> flat p raw trace_chars) ∷ []
        | some arguments ↦
            let a = object_of (some arguments) in
            ("$ " <> flat p (str_or_empty p (either p (get "cmd" a) (get "command" a))) trace_chars)
            ∷ []
      ] in
      let agent : List String = elim (q.loads raw) [
        | none ↦ "subagent" ∷ []
        | some arguments ↦
            ("subagent: " <> str p.shown (get "task_name" (object_of (some arguments)))) ∷ []
      ] in
      if name == "apply_patch" || has_part "tools." raw
      then edits ++ (commands ++ searched)
      else if name == "exec_command" || name == "shell"
      then shell
      else if name == "spawn_agent"
      then agent
      else []

  -- what of a message's text is the request, and the file that the context names
  unfoldable pub asked_of : String → String
  unfolding begins strip
  asked_of said =
      if begins said "# Context from my IDE setup:"
      then strip p.is_space (q.without_context said)
      else said

  unfoldable pub active_in : String → String
  unfolding begins strip
  active_in said =
      if begins said "# Context from my IDE setup:"
      then strip p.is_space (or_text (q.active_file said) "")
      else ""

  unfoldable pub message_text : Message → String
  unfolding strip texts_of objects_of get all_text
  message_text payload =
      strip p.is_space (all_text (texts_of p.shown (objects_of (get "content" payload))))

  unfoldable pub open_request : (request active : String) → Reader → Reader
  unfolding open_segment clean_request on_last append_line
  open_request request active r =
      let opened = open_segment (cleaned p request) r.ended_at r in
      if active == "" then opened else record opened {
        segments = on_last (append_line ("(활성 파일: " <> (active <> ")"))) opened.segments;
      }

  unfoldable pub note_goal : String → Reader → Reader
  unfolding note flatten
  note_goal said r =
      note
        (elim (q.goal said) [
          | none ↦ "[자동 계속]"
          | some goal ↦ "[자동 계속] 목표: " <> flat p goal plan_chars
        ])
        r

  unfoldable pub read_request : (request active : String) → Reader → Reader
  unfolding codex_answers note_each flatten open_request
  read_request request active r = elim (codex_answers request) [
    | some answers ↦ note_each "[사용자 답변] " (map (λ a. flat p a answer_chars) answers) r
    | none ↦ open_request request active r
  ]

  unfoldable pub read_codex_message : Message → Reader → Reader
  unfolding message_text is_word_of get note is_noise begins note_goal asked_of active_in
      read_request
  read_codex_message payload r =
      let said = message_text payload in
      let role = get "role" payload in
      if is_word_of "assistant" role && (not (said == "") && not (is_empty r.segments))
      then note ("[assistant] " <> said) r
      else if not (is_word_of "user" role) || (said == "" || is_noise said)
      then r
      else if begins said "<codex_internal_context"
      then note_goal said r
      else if asked_of said == ""
      then r
      else read_request (asked_of said) (active_in said) r

  unfoldable pub note_inputs : List Message → Reader → Reader
  unfolding note join values_in str either get
  note_inputs [] r = r
  note_inputs (m ∷ ms) r =
      let options = join " / " (map (λ v. str p.shown (some v)) (values_in (get "options" m))) in
      note_inputs ms (
        note
          ("[assistant 질문] "
            <> (str p.shown (either p (get "title" m) (get "question" m))
                <> (" (선택지: " <> (options <> ")"))))
          r)

  unfoldable pub raw_input : Message → String
  unfolding is_word_of get formatted str_or_empty
  raw_input payload =
      if is_word_of "custom_tool_call" (get "type" payload)
      then formatted p (get "input" payload)
      else str_or_empty p (get "arguments" payload)

  unfoldable pub questions_in : (raw : String) → List Message
  unfolding objects_of object_of get
  questions_in raw =
      objects_of (get "questions" (object_of (q.loads (if raw == "" then "{}" else raw))))

  unfoldable pub read_codex_call : Message → Reader → Reader
  unfolding get str questions_in raw_input note_inputs codex_traces
  read_codex_call payload r =
      let name = str p.shown (get "name" payload) in
      let raw = raw_input payload in
      if name == "request_user_input_async"
      then note_inputs (questions_in raw) r
      else record r { traces = r.traces ++ codex_traces name raw r.cwd }

  unfoldable pub read_payload : Message → Reader → Reader
  unfolding is_word_of get read_codex_message read_codex_call
  read_payload payload r =
      let kind = get "type" payload in
      if is_word_of "message" kind
      then read_codex_message payload r
      else if (is_word_of "function_call" kind || is_word_of "custom_tool_call" kind)
          && not (is_empty r.segments)
      then read_codex_call payload r
      else r

  unfoldable pub read_codex_entry : Message → Reader → Reader
  unfolding object_of get stamp str_or_empty is_word_of read_payload
  read_codex_entry entry r =
      let payload = object_of (get "payload" entry) in
      let cwd = str_or_empty p (get "cwd" payload) in
      let stamped = stamp (str_or_empty p (get "timestamp" entry)) r in
      if is_word_of "session_meta" (get "type" entry)
      then record stamped { cwd = if cwd == "" then stamped.cwd else cwd }
      else if is_word_of "response_item" (get "type" entry)
      then read_payload payload stamped
      else stamped

  unfoldable pub read_codex_entries : List Message → Reader → Reader
  unfolding read_codex_entry
  read_codex_entries [] r = r
  read_codex_entries (e ∷ es) r = read_codex_entries es (read_codex_entry e r)

  -- what `read_codex` gives where no entry raises an error
  unfoldable pub codex_reader : List Message → Reader
  unfolding read_codex_entries flush
  codex_reader entries = flush (read_codex_entries entries new_reader)
