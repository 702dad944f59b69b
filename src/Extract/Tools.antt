-- ===== src/Extract/Tools.antt =====
-- `trace_of` and `result_text` of backend/services/extract.py: what a segment says of a tool.
use knowledgebase_storage.Common.{
  String, ◌||◌, Option, none, some, List, [], ◌∷◌, ◌==◌, if◌then◌else◌, ◌<>◌, contains,
}
use knowledgebase_storage.Common.Texts.{text_length, drop_text, join}
use knowledgebase_storage.Models.Json.{Json, array, object, end_fields, Message, get}
use knowledgebase_storage.Names.{begins}
use knowledgebase_storage.Queue.Service.{str}
use knowledgebase_storage.Extract.{flatten, trace_chars}
use knowledgebase_storage.Extract.Values.{
  Texts, object_of, truthy, objects_in, texts_of, str_or_empty, either, flat,
}

abbrev pub skip_tools : List String
skip_tools = "Read" ∷ "Grep" ∷ "Glob" ∷ "ToolSearch" ∷ "TodoWrite" ∷ "LS" ∷ []

-- `FILE_TOOLS.get(name)`
unfoldable pub file_tool : String → Option String
file_tool name =
    if contains ("Edit" ∷ "MultiEdit" ∷ "NotebookEdit" ∷ []) name
    then some "edit"
    else if name == "Write"
    then some "write"
    else none

-- `s.removeprefix(prefix)`
unfoldable pub remove_prefix : (prefix : String) → String → String
unfolding begins drop_text text_length
remove_prefix prefix s = if begins s prefix then drop_text (text_length prefix) s else s

module _ (p : Texts) where
  unfoldable pub described : (other : String) → Message → String
  unfolding either str get flatten
  described other arguments =
      flat p (str p.shown (either p (get "description" arguments) (get other arguments)))
        trace_chars

  -- `input or {}`, which need not be an object
  unfoldable pub or_object : Option Json → Json
  unfolding truthy
  or_object none = object end_fields
  or_object (some value) = if truthy p (some value) then value else object end_fields

  unfoldable pub shape_of : (name : String) → Option Json → String
  unfolding described str get flatten object_of or_object
  shape_of name input =
      let arguments = object_of input in
      if name == "Bash"
      then "$ " <> described "command" arguments
      else if name == "Agent" || name == "Task"
      then "subagent: " <> described "prompt" arguments
      else if name == "WebFetch"
      then "fetch " <> str p.shown (get "url" arguments)
      else if name == "WebSearch"
      then "search " <> flat p (str p.shown (get "query" arguments)) trace_chars
      else name <> (" " <> flat p (p.dumped (or_object input)) 100)

  unfoldable pub trace_of : (name : String) → Option Json → (cwd : String) → Option String
  unfolding file_tool str_or_empty either remove_prefix shape_of get object_of
  trace_of name input cwd =
      let arguments = object_of input in
      let path =
        str_or_empty p (either p (get "file_path" arguments) (get "notebook_path" arguments)) in
      let shape = some (shape_of name input) in
      if contains skip_tools name then none else elim (file_tool name) [
        | none ↦ shape
        | some verb ↦ some (verb <> (" " <> remove_prefix (cwd <> "/") path))
      ]

  unfoldable pub result_text : Message → String
  unfolding str_or_empty join texts_of objects_in get
  result_text block = elim (get "content" block) [
    | none ↦ ""
    | some (array items) ↦ join "\n" (texts_of p.shown (objects_in items))
    | some value ↦ str_or_empty p (some value)
  ]

  unfoldable pub labels_of : List Message → List String
  unfolding str get
  labels_of [] = []
  labels_of (o ∷ os) = str p.shown (get "label" o) ∷ labels_of os
