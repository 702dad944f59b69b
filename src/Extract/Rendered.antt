-- ===== src/Extract/Rendered.antt =====
-- `Segment.render`, `substantial`, `lines_of` and `read` of backend/services/extract.py. A stored file is the list of
-- its lines; `decimal` is `str` of a number, and `slash_only` is what `SLASH_ONLY` matches.
use Prim.Native.Char.{Char}
use Prim.Native.String as Text
use knowledgebase_storage.Common.{
  ℕ, zero, suc, ◌-◌, String, Bool, false, not, ◌&&◌, ◌||◌, Option, none, some, List, [], ◌∷◌, ◌++◌,
  leb, eqb, if◌then◌else◌, ◌<>◌, take_text,
}
use knowledgebase_storage.Common.Texts.{join, text_length, flat_text}
use knowledgebase_storage.Models.Json.{object, Message}
use knowledgebase_storage.Names.{strip, begins, has_part}
use knowledgebase_storage.Extract.{Segment, Reader, new_reader}
use knowledgebase_storage.Extract.Values.{Texts}
use knowledgebase_storage.Extract.Codex.{Patterns}
use knowledgebase_storage.Extract.Reads.{read_claude, read_codex}

abbrev pub min_request_chars : ℕ
min_request_chars = 20

-- `Segment.render`
unfoldable pub render : (is_space : Char → Bool) → (decimal : ℕ → String) → Segment → String
unfolding strip join take_text
render is_space decimal s =
    let tail =
      if eqb s.skipped 0 then [] else ("(그 밖의 명령 " <> (decimal s.skipped <> "개 생략)")) ∷ [] in
    let heading =
      "## 사용자 요청 #" <> (decimal s.number <> (" (" <> (take_text 16 s.started_at <> ")"))) in
    strip is_space (join "\n" (heading ∷ s.request ∷ "" ∷ (s.lines ++ tail)))

-- `s.split(separator)`: `part` is what was read since the last separator, and `skip` characters belong to it
unfoldable pub split_from : (separator part : String) → (skip : ℕ) → String → List String
unfolding begins text_length
split_from separator part skip Text.[] = part ∷ []
split_from separator part (suc skip) (Text.◌∷◌ c s) = split_from separator part skip s
split_from separator part zero (Text.◌∷◌ c s) =
    let next = part ∷ split_from separator "" (text_length separator - 1) s in
    let longer = split_from separator (part <> (Text.◌∷◌ c "")) 0 s in
    if begins (Text.◌∷◌ c s) separator then next else longer

unfoldable pub some_edit : List String → Bool
unfolding begins
some_edit [] = false
some_edit (t ∷ ts) = begins t "edit " || begins t "write " || some_edit ts

unfoldable pub some_edited_line : List String → Bool
unfolding some_edit split_from
some_edited_line [] = false
some_edited_line (l ∷ ls) = some_edit (split_from ", " "" 0 l) || some_edited_line ls

unfoldable pub some_edited : List Segment → Bool
unfolding some_edited_line
some_edited [] = false
some_edited (s ∷ ss) = some_edited_line s.lines || some_edited ss

unfoldable pub some_request :
    (is_space : Char → Bool) → (slash_only : String → Bool) → List Segment → Bool
unfolding flat_text text_length
some_request is_space slash_only [] = false
some_request is_space slash_only (s ∷ ss) =
    let request = flat_text is_space s.request in
    (not (slash_only request) && leb min_request_chars (text_length request))
    || some_request is_space slash_only ss

unfoldable pub substantial : (is_space : Char → Bool) → (slash_only : String → Bool) → Reader → Bool
unfolding some_request some_edited
substantial is_space slash_only r =
    some_request is_space slash_only r.segments || some_edited r.segments

module _ (p : Texts) (q : Patterns) where
  -- the lines that are objects of JSON
  unfoldable pub lines_of : List String → List Message
  lines_of [] = []
  lines_of (raw ∷ rest) = elim (q.loads raw) [
    | some (object entry) ↦ entry ∷ lines_of rest
    | other ↦ lines_of rest
  ]

  abbrev pub first_line : List String → String
  first_line [] = ""
  first_line (l ∷ ls) = l

  -- `none` where the code raises an error
  unfoldable pub read : (file : Option (List String)) → Option Reader
  unfolding has_part lines_of read_claude read_codex
  read none = some new_reader
  read (some lines) =
      if has_part "\"session_meta\"" (first_line lines)
      then read_codex p q (lines_of lines)
      else read_claude p (lines_of lines)
