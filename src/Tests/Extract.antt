-- ===== src/Tests/Extract.antt =====
-- A short transcript of each kind.
use knowledgebase_storage.Common.{true, false, String, ◌≡◌, refl, none, some, List, [], ◌∷◌, ◌==◌}
use knowledgebase_storage.Models.Json.{
  number, text, array, object, end_items, item, end_fields, field, Message,
}
use knowledgebase_storage.Common.Texts.{flat_text, text_length}
use knowledgebase_storage.Names.{has_part}
use knowledgebase_storage.Extract.{clean_request, Reader, Segment, add, new_reader}
use knowledgebase_storage.Extract.Rendered.{substantial, render}
use knowledgebase_storage.Extract.Trivial.{substantial-add}
use knowledgebase_storage.Extract.Values.{Texts, str_or_empty}
use knowledgebase_storage.Extract.Claude.{claude_reader, request_in}
use knowledgebase_storage.Extract.Codex.{Patterns, codex_answers}
use knowledgebase_storage.Extract.Reads.{
  read_claude, read_codex, claude_entry_fails, codex_entry_fails,
}
use knowledgebase_storage.Extract.Runs.{headings}
use knowledgebase_storage.Extract.Requests.{read_claude_lem}
use knowledgebase_storage.Extract.Turns.{read_codex_lem}
use knowledgebase_storage.Tests.Data.{ascii, shown}

abbrev pub plain_texts : Texts
plain_texts = record {
  is_space = ascii.is_space;
  shown = shown;
  is_zero = λ n. n == "0";
  dumped = λ arguments. "{}";
  without_noise = λ s. s;
  with_commands = λ s. s;
}

abbrev pub no_patterns : Patterns
no_patterns = record {
  loads = λ s. none;
  goal = λ s. none;
  active_file = λ s. none;
  without_context = λ s. s;
  question_reply = λ s. none;
  patch_files = λ s. [];
  exec_commands = λ s. [];
}

abbrev pub said : (role content time : String) → Message
said role content time = field "timestamp" (text time) (
    field "message" (object (field "role" (text role) (field "content" (text content) end_fields)))
      end_fields)

abbrev edits : Message
edits =
    field "message"
      (object (
        field "role" (text "assistant") (
          field "content"
            (array (
              item
                (object (
                  field "type" (text "tool_use") (
                    field "id" (text "t1") (
                      field "name" (text "Edit") (
                        field "input" (object (field "file_path" (text "/work/a.py") end_fields))
                          end_fields)))))
                end_items))
            end_fields)))
      (field "cwd" (text "/work") end_fields)

abbrev claude_entries : List Message
claude_entries =
    said "assistant" "too early" "t0"
    ∷ said "user" "fix it" "t1"
    ∷ edits
    ∷ said "user" "  " "t2"
    ∷ said "user" "thanks" "t3"
    ∷ []

two_requests :
    (claude_reader plain_texts claude_entries).segments
    ≡ record {
      number = 1;
      request = "fix it";
      started_at = "t1";
      lines = "도구: edit a.py" ∷ [];
      commands = 0;
      skipped = 0;
    }
      ∷ record {
        number = 2;
        request = "thanks";
        started_at = "t3";
        lines = [];
        commands = 0;
        skipped = 0;
      }
      ∷ []
unfolding claude_reader
two_requests = refl

read_claude_lem_example :
    (r : Reader) × (read_claude plain_texts claude_entries ≡ some r)
    × (headings r.segments ≡ (1, "fix it", "t1") ∷ (2, "thanks", "t3") ∷ [])
unfolding claude_entry_fails request_in str_or_empty
read_claude_lem_example =
    read_claude_lem plain_texts claude_entries (refl, (refl, (refl, (refl, (refl, tt)))))

abbrev codex_said : (role content time : String) → Message
codex_said role content time = field "timestamp" (text time) (
    field "type" (text "response_item") (
      field "payload"
        (object (
          field "type" (text "message") (
            field "role" (text role) (
              field "content"
                (array (item (object (field "text" (text content) end_fields)) end_items))
                end_fields))))
        end_fields))

abbrev codex_entries : List Message
codex_entries =
    codex_said "user" "<environment_context>" "t0"
    ∷ codex_said "user" "fix it" ""
    ∷ codex_said "assistant" "done" "t1"
    ∷ codex_said "user" "thanks" "t2"
    ∷ []

read_codex_lem_example :
    (r : Reader) × (read_codex plain_texts no_patterns codex_entries ≡ some r)
    × (headings r.segments ≡ (1, "fix it", "t0") ∷ (2, "thanks", "t2") ∷ [])
unfolding codex_entry_fails codex_answers clean_request
read_codex_lem_example =
    read_codex_lem plain_texts no_patterns codex_entries (refl, (refl, (refl, (refl, tt))))

-- a number for the content, and a payload that is a text
abbrev numbered_content : Message
numbered_content =
    field "message" (object (field "role" (text "user") (field "content" (number "1") end_fields)))
      end_fields

fails_on_number : read_claude plain_texts (numbered_content ∷ []) ≡ none
unfolding read_claude
fails_on_number = refl

fails_on_text :
    read_codex plain_texts no_patterns
      (field "type" (text "response_item") (field "payload" (text "p") end_fields) ∷ [])
    ≡ none
unfolding read_codex
fails_on_text = refl

abbrev short_request : Segment
short_request = record {
  number = 1;
  request = "fix it";
  started_at = "t1";
  lines = [];
  commands = 0;
  skipped = 0;
}

-- one edit is missed, and a second one is seen
second_seen :
    substantial ascii.is_space
      (λ s. false)
      (record new_reader { segments = add ("edit a.py" ∷ "edit b.py" ∷ []) short_request ∷ [] })
    ≡ true
unfolding substantial add
second_seen = refl

shown_segment :
    render ascii.is_space (λ n. "1") (add ("edit a.py" ∷ []) short_request)
    ≡ "## 사용자 요청 #1 (t1)\nfix it\n\n도구: edit a.py"
unfolding render add
shown_segment = refl

substantial-add_example :
    substantial ascii.is_space
      (λ s. false)
      (record new_reader { segments = add ("edit a.py" ∷ []) short_request ∷ [] })
    ≡ false
unfolding flat_text has_part text_length
substantial-add_example =
    substantial-add ascii.is_space (λ s. false) short_request "edit a.py" refl refl refl
