-- ===== src/Extract/Claude.antt =====
-- The loop of `read_claude` of backend/services/extract.py and what it calls, over entries on which it raises no
-- error. An entry is a line of the transcript.
use knowledgebase_storage.Common.{
  String, Bool, not, ◌&&◌, ◌||◌, Option, none, some, List, [], ◌∷◌, ◌==◌, if◌then◌else◌, ◌<>◌,
  is_empty, or_text,
}
use knowledgebase_storage.Common.Dict.{lookup, insert, remove}
use knowledgebase_storage.Common.Texts.{join, all_text}
use knowledgebase_storage.Models.Json.{Json, text, object, end_fields, field, Message, get}
use knowledgebase_storage.Names.{strip}
use knowledgebase_storage.Queue.Service.{str}
use knowledgebase_storage.Extract.{
  flatten, clean_request, answer_chars, plan_chars, error_chars, Reader, new_reader, flush, note,
  open_segment, stamp, trace_of_tool,
}
use knowledgebase_storage.Extract.Values.{
  Texts, object_of, objects_of, is_word_of, texts_of, truthy, str_or_empty, flat, cleaned,
  formatted,
}
use knowledgebase_storage.Extract.Tools.{trace_of, result_text, labels_of}

-- What `read_claude` keeps: the reader, and the tools whose result has not come.
pub record Reading : Type 0 where
  pub reader : Reader
  pub pending : List (String × String)

module _ (p : Texts) where
  unfoldable pub note_questions : List Message → Reader → Reader
  unfolding note labels_of objects_of join formatted get
  note_questions [] r = r
  note_questions (q ∷ qs) r =
      let options = join " / " (labels_of p (objects_of (get "options" q))) in
      note_questions qs (
        note
          ("[assistant 질문] " <> (formatted p (get "question" q) <> (" (선택지: " <> (options <> ")"))))
          r)

  unfoldable pub read_attachment : Message → Reader → Reader
  unfolding object_of is_word_of get texts_of objects_of all_text clean_request note str
  read_attachment entry r =
      let attachment = object_of (get "attachment" entry) in
      let prompt = get "prompt" attachment in
      let said = cleaned p (elim prompt [
        | none ↦ ""
        | some (text s) ↦ s
        | some value ↦ all_text (texts_of p.shown (objects_of (some value)))
      ]) in
      let noted = note ("[작업 중 사용자 추가 요청] " <> said) r in
      if not (is_word_of "queued_command" (get "type" attachment))
        || not (is_word_of "human" (get "kind" (object_of (get "origin" attachment))))
      then r
      else if said == ""
      then r
      else noted

  unfoldable pub note_result : (name : String) → Message → Reader → Reader
  unfolding get result_text note flatten truthy
  note_result name block r =
      let said = result_text p block in
      if name == "AskUserQuestion"
      then note ("[사용자 답변] " <> flat p said answer_chars) r
      else if name == "ExitPlanMode"
      then note ("[계획 승인 결과] " <> flat p said plan_chars) r
      else if truthy p (get "is_error" block) && not (name == "")
      then trace_of_tool (name <> (" 실패: " <> flat p said error_chars)) r
      else r

  -- the result of a tool that was waited for
  unfoldable pub read_result : Message → Reading → Reading
  unfolding str get lookup remove note_result
  read_result block s =
      let id = str p.shown (get "tool_use_id" block) in
      record {
        reader = note_result (or_text (lookup id s.pending) "") block s.reader;
        pending = remove id s.pending;
      }

  -- the text of a block that opens a segment, or the empty text
  unfoldable pub request_in : (is_summary : Bool) → Message → String
  unfolding is_word_of get clean_request str
  request_in is_summary block =
      if is_word_of "text" (get "type" block) && not is_summary
      then cleaned p (str p.shown (get "text" block))
      else ""

  unfoldable pub read_user_block :
      (is_summary : Bool) → (stamp : String) → Message → Reading → Reading
  unfolding is_word_of get read_result request_in open_segment
  read_user_block is_summary stamp block s =
      let request = request_in is_summary block in
      let after = read_result block s in
      if is_word_of "tool_result" (get "type" block)
      then after
      else if request == ""
      then s
      else record s { reader = open_segment request stamp s.reader }

  unfoldable pub read_claude_user : Message → List Message → Reading → Reading
  unfolding read_user_block truthy str_or_empty get
  read_claude_user entry [] s = s
  read_claude_user entry (b ∷ bs) s = read_claude_user entry bs (
      read_user_block (truthy p (get "isCompactSummary" entry))
        (str_or_empty p (get "timestamp" entry)) b s)

  -- `elif trace := self.trace_of(…)`
  unfoldable pub add_trace_of : (name : String) → Option Json → Reader → Reader
  unfolding trace_of
  add_trace_of name input r =
      let trace = or_text (trace_of p name input r.cwd) "" in
      if trace == "" then r else trace_of_tool trace r

  unfoldable pub note_use : (name : String) → Option Json → Reader → Reader
  unfolding get str note note_questions objects_of object_of add_trace_of
  note_use name input r =
      let arguments = object_of input in
      if name == "AskUserQuestion"
      then note_questions (objects_of (get "questions" arguments)) r
      else if name == "ExitPlanMode"
      then note ("[계획]\n" <> str p.shown (get "plan" arguments)) r
      else add_trace_of name input r

  unfoldable pub read_tool_use : Message → Reading → Reading
  unfolding get str insert note_use
  read_tool_use block s =
      let name = str p.shown (get "name" block) in
      record {
        reader = note_use name (get "input" block) s.reader;
        pending = insert (str p.shown (get "id" block)) name s.pending;
      }

  unfoldable pub read_assistant_block : Message → Reading → Reading
  unfolding is_word_of get str strip note read_tool_use
  read_assistant_block block s =
      let said = strip p.is_space (str p.shown (get "text" block)) in
      let used = read_tool_use block s in
      if is_word_of "text" (get "type" block) && not (said == "")
      then record s { reader = note ("[assistant] " <> said) s.reader }
      else if is_word_of "tool_use" (get "type" block)
      then used
      else s

  unfoldable pub read_claude_assistant : List Message → Reading → Reading
  unfolding read_assistant_block
  read_claude_assistant [] s = s
  read_claude_assistant (b ∷ bs) s = read_claude_assistant bs (read_assistant_block b s)

  -- the blocks of a message's content
  unfoldable pub blocks_of : Option Json → List Message
  unfolding objects_of
  blocks_of (some (text s)) = field "type" (text "text") (field "text" (text s) end_fields) ∷ []
  blocks_of content = objects_of content

  unfoldable pub read_message : Message → Message → Reading → Reading
  unfolding blocks_of get is_word_of read_claude_user read_claude_assistant
  read_message entry message s =
      let blocks = blocks_of (get "content" message) in
      if is_word_of "user" (get "role" message)
      then read_claude_user entry blocks s
      else if is_word_of "assistant" (get "role" message) && not (is_empty s.reader.segments)
      then read_claude_assistant blocks s
      else s

  -- the working directory is the first that an entry names
  unfoldable pub seen : Message → Reader → Reader
  unfolding str_or_empty get stamp
  seen entry r =
      stamp (str_or_empty p (get "timestamp" entry))
        (record r { cwd = if r.cwd == "" then str_or_empty p (get "cwd" entry) else r.cwd })

  unfoldable pub read_entry : Message → Reading → Reading
  unfolding seen is_word_of get read_attachment truthy read_message
  read_entry entry s =
      let s' : Reading = record s { reader = seen entry s.reader } in
      if is_word_of "attachment" (get "type" entry)
      then record s' { reader = read_attachment entry s'.reader }
      else if truthy p (get "isMeta" entry)
      then s'
      else elim (get "message" entry) [
        | some (object message) ↦ read_message entry message s'
        | other ↦ s'
      ]

  unfoldable pub read_entries : List Message → Reading → Reading
  unfolding read_entry
  read_entries [] s = s
  read_entries (e ∷ es) s = read_entries es (read_entry e s)

  -- what `read_claude` gives where no entry raises an error
  unfoldable pub claude_reader : List Message → Reader
  unfolding read_entries flush
  claude_reader entries =
      flush (read_entries entries (record { reader = new_reader; pending = [] })).reader
