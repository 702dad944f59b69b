-- ===== src/Extract/Reads.antt =====
-- `read_claude` and `read_codex` of backend/services/extract.py with the errors that they raise: where `.get` is
-- asked of a value that is no object, or a loop goes over a value that has no elements. An entry that raises
-- ends the reading. `begun` says whether there is a segment: without one, some entries are not looked into.
use knowledgebase_storage.Common.{
  String, Bool, true, false, not, ◌&&◌, ◌||◌, Option, none, some, List, [], ◌∷◌, ◌==◌,
  if◌then◌else◌, is_empty, is_some, contains,
}
use knowledgebase_storage.Models.Json.{
  Json, text, array, object, Items, end_items, item, end_fields, Message, get,
}
use knowledgebase_storage.Names.{begins, has_part}
use knowledgebase_storage.Queue.Service.{str}
use knowledgebase_storage.Extract.{Reader, new_reader}
use knowledgebase_storage.Extract.Values.{Texts, object_of, objects_of, is_word_of, truthy}
use knowledgebase_storage.Extract.Tools.{skip_tools, file_tool}
use knowledgebase_storage.Extract.Claude.{Reading, blocks_of, read_entry, claude_reader}
use knowledgebase_storage.Extract.Codex.{
  Patterns, is_noise, message_text, asked_of, raw_input, read_codex_entry, codex_reader,
}

unfoldable pub all_objects : Items → Bool
all_objects end_items = true
all_objects (item (object fields) rest) = all_objects rest
all_objects (item value rest) = false

-- `.get` of the value is no error
unfoldable pub is_object : Option Json → Bool
is_object (some (object fields)) = true
is_object value = false

-- a loop over the value is no error, the empty list standing for a missing one
unfoldable pub has_elements : Option Json → Bool
has_elements none = true
has_elements (some (array items)) = true
has_elements (some (text s)) = true
has_elements (some (object fields)) = true
has_elements (some value) = false

-- and neither is `.get` of each element: a text's characters and an object's keys are no objects
unfoldable pub has_objects : Option Json → Bool
unfolding all_objects
has_objects none = true
has_objects (some (array items)) = all_objects items
has_objects (some (text s)) = s == ""
has_objects (some (object end_fields)) = true
has_objects (some value) = false

unfoldable pub each_has : (test : Option Json → Bool) → (name : String) → List Message → Bool
unfolding get
each_has test name [] = true
each_has test name (m ∷ ms) = test (get name m) && each_has test name ms

-- tools whose arguments `trace_of` looks into
unfoldable pub takes_arguments : (name : String) → Bool
unfolding file_tool
takes_arguments name =
    is_some (file_tool name)
    || contains ("Bash" ∷ "Agent" ∷ "Task" ∷ "WebFetch" ∷ "WebSearch" ∷ []) name

module _ (p : Texts) where
  -- `value or {}` and `value or []`
  unfoldable pub or_object_fails : Option Json → Bool
  unfolding truthy is_object
  or_object_fails value = truthy p value && not (is_object value)

  unfoldable pub or_list_fails : (test : Option Json → Bool) → Option Json → Bool
  unfolding truthy
  or_list_fails test value = truthy p value && not (test value)

  unfoldable pub attachment_fails : Message → Bool
  unfolding or_object_fails or_list_fails has_elements object_of is_word_of get
  attachment_fails entry =
      let attachment = object_of (get "attachment" entry) in
      let origin = get "origin" attachment in
      or_object_fails (get "attachment" entry)
      || (is_word_of "queued_command" (get "type" attachment)
          && (or_object_fails origin
              || (is_word_of "human" (get "kind" (object_of origin))
                  && or_list_fails has_elements (get "prompt" attachment))))

  -- `for question in arguments.get("questions", [])`, and each one's options
  unfoldable pub questions_fail : (options : Option Json → Bool) → Message → Bool
  unfolding has_objects each_has objects_of get
  questions_fail options arguments =
      let questions = get "questions" arguments in
      not (has_objects questions) || not (each_has options "options" (objects_of questions))

  unfoldable pub tool_use_fails : Message → Bool
  unfolding or_object_fails questions_fail has_objects takes_arguments object_of str get
  tool_use_fails block =
      let name = str p.shown (get "name" block) in
      let input = get "input" block in
      if name == "AskUserQuestion"
      then or_object_fails input || questions_fail has_objects (object_of input)
      else if name == "ExitPlanMode"
      then or_object_fails input
      else not (contains skip_tools name) && (takes_arguments name && or_object_fails input)

  unfoldable pub some_tool_use_fails : List Message → Bool
  unfolding tool_use_fails is_word_of get
  some_tool_use_fails [] = false
  some_tool_use_fails (b ∷ bs) =
      (is_word_of "tool_use" (get "type" b) && tool_use_fails b) || some_tool_use_fails bs

  -- the blocks of a message, of which a text is one
  unfoldable pub blocks_fail : Option Json → Bool
  unfolding or_list_fails has_objects
  blocks_fail (some (text s)) = false
  blocks_fail content = or_list_fails has_objects content

  unfoldable pub message_fails : (begun : Bool) → Message → Bool
  unfolding blocks_fail some_tool_use_fails blocks_of is_word_of get
  message_fails begun message =
      let content = get "content" message in
      let role = get "role" message in
      if is_word_of "user" role
      then blocks_fail content
      else is_word_of "assistant" role
        && (begun && (blocks_fail content || some_tool_use_fails (blocks_of p content)))

  unfoldable pub claude_entry_fails : (begun : Bool) → Message → Bool
  unfolding attachment_fails message_fails is_object object_of is_word_of truthy get
  claude_entry_fails begun entry =
      let message = get "message" entry in
      if is_word_of "attachment" (get "type" entry)
      then attachment_fails entry
      else not (truthy p (get "isMeta" entry))
        && (is_object message && message_fails begun (object_of message))

  unfoldable pub claude_fails : List Message → Reading → Bool
  unfolding claude_entry_fails read_entry
  claude_fails [] s = false
  claude_fails (e ∷ es) s =
      claude_entry_fails (not (is_empty s.reader.segments)) e || claude_fails es (read_entry p e s)

  unfoldable pub read_claude : List Message → Option Reader
  unfolding claude_fails claude_reader
  read_claude entries =
      if claude_fails entries (record { reader = new_reader; pending = [] })
      then none
      else some (claude_reader p entries)

  module _ (q : Patterns) where
    -- `json.loads(raw).get`, where `raw` is JSON
    unfoldable pub loaded_fails : Option Json → Bool
    unfolding is_object
    loaded_fails none = false
    loaded_fails (some value) = not (is_object (some value))

    -- the replies that `codex_answers` goes through
    unfoldable pub answers_fail : (request : String) → Bool
    unfolding has_elements
    answers_fail request = elim (q.question_reply request) [
      | none ↦ false
      | some found ↦ elim (q.loads found) [
        | none ↦ false
        | some replies ↦ not (has_elements (some replies))
      ]
    ]

    unfoldable pub codex_message_fails : Message → Bool
    unfolding or_list_fails has_elements message_text is_word_of is_noise begins asked_of
        answers_fail get
    codex_message_fails payload =
        let said = message_text p q payload in
        or_list_fails has_elements (get "content" payload)
        || (is_word_of "user" (get "role" payload)
            && (not (said == "" || is_noise said)
                && (not (begins said "<codex_internal_context")
                    && (not (asked_of p q said == "") && answers_fail (asked_of p q said)))))

    unfoldable pub codex_traces_fail : (name raw : String) → Bool
    unfolding has_part loaded_fails
    codex_traces_fail name raw =
        not (name == "apply_patch" || has_part "tools." raw)
        && ((name == "exec_command" || (name == "shell" || name == "spawn_agent"))
            && loaded_fails (q.loads raw))

    unfoldable pub codex_call_fails : Message → Bool
    unfolding raw_input loaded_fails questions_fail has_elements object_of codex_traces_fail str get
    codex_call_fails payload =
        let name = str p.shown (get "name" payload) in
        let raw = raw_input p q payload in
        let loaded = q.loads (if raw == "" then "{}" else raw) in
        if name == "request_user_input_async"
        then loaded_fails loaded || questions_fail has_elements (object_of loaded)
        else codex_traces_fail name raw

    -- `payload.get("type") in {…}` of a list or an object, which have no hash
    unfoldable pub has_no_hash : Option Json → Bool
    has_no_hash (some (array items)) = true
    has_no_hash (some (object fields)) = true
    has_no_hash value = false

    unfoldable pub payload_fails : (begun : Bool) → Message → Bool
    unfolding codex_message_fails codex_call_fails has_no_hash is_word_of get
    payload_fails begun payload =
        let kind = get "type" payload in
        if is_word_of "message" kind
        then codex_message_fails payload
        else has_no_hash kind
          || ((is_word_of "function_call" kind || is_word_of "custom_tool_call" kind)
              && (begun && codex_call_fails payload))

    unfoldable pub codex_entry_fails : (begun : Bool) → Message → Bool
    unfolding or_object_fails payload_fails object_of is_word_of get
    codex_entry_fails begun entry =
        let payload = get "payload" entry in
        if is_word_of "session_meta" (get "type" entry)
        then or_object_fails payload
        else is_word_of "response_item" (get "type" entry)
          && (or_object_fails payload || payload_fails begun (object_of payload))

    unfoldable pub codex_fails : List Message → Reader → Bool
    unfolding codex_entry_fails read_codex_entry
    codex_fails [] r = false
    codex_fails (e ∷ es) r =
        codex_entry_fails (not (is_empty r.segments)) e || codex_fails es (read_codex_entry p q e r)

    unfoldable pub read_codex : List Message → Option Reader
    unfolding codex_fails codex_reader
    read_codex entries =
        if codex_fails entries new_reader then none else some (codex_reader p q entries)
