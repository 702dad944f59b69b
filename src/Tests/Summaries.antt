-- ===== src/Tests/Summaries.antt =====
-- Two short messages, a small budget, and a provider that answers every prompt with "ok".

use knowledgebase_storage.Common.{
  Option, if◌then◌else◌, ◌+◌, ◌≤◌, String, ◌≡◌, refl, ◌⊎◌, none, some, List, [], ◌∷◌, arith, All,
  length,
}
use knowledgebase_storage.Common.Texts.{text_length, all_text}
use knowledgebase_storage.Models.Json.{Message}
use knowledgebase_storage.Names.{begins}
use knowledgebase_storage.Summaries.{Recipe, split_text, chunk_transcript, fold, build_user_prompt}
use knowledgebase_storage.Summaries.Chunks.{Fits, IsCut, split_text_lem, chunk_transcript_lem}
use knowledgebase_storage.Summaries.Folding.{fold-Fits, fold_answers}
use knowledgebase_storage.Tests.Data.{ascii, shown, says}

abbrev messages : List Message
messages = says "fix it" ∷ says "test it" ∷ []

split_text_lem_example :
    (all_text (split_text "abcdefg" 2) ≡ "abcdefg") × All (Fits 2) (split_text "abcdefg" 2)
split_text_lem_example = split_text_lem "abcdefg" 2 (omega arith)

four_pieces : split_text "abcdefg" 2 ≡ "ab" ∷ "cd" ∷ "ef" ∷ "g" ∷ []
unfolding split_text
four_pieces = refl

chunk_transcript_lem_example :
    (groups : List (List Message)) × IsCut ascii shown 9
      (omega arith)
      groups
      messages
      (chunk_transcript ascii shown messages 9)
chunk_transcript_lem_example = chunk_transcript_lem ascii shown 9 (omega arith) messages

-- each message is a chunk of its own, as both together are too long
two_chunks : chunk_transcript ascii shown messages 9 ≡ "### user\nfix it" ∷ "### user\ntest it" ∷ []
unfolding chunk_transcript
two_chunks = refl

abbrev recipe : Recipe
recipe = record { system = "s"; context = "c"; single = "one"; mapped = "part"; reduced = "merge" }

abbrev says_ok : String → String → String
says_ok system user = "ok"

abbrev answer : String → String → String
answer system user = user

-- the validation refuses an answer that is not a merge
abbrev validated : String → Option String
validated s = if begins s "merge" then some s else none

fold-Fits_example :
    (fold ascii shown says_ok answer validated recipe 9 messages ≡ none)
    ⊎ ((instruction body : String) × Fits 9 body
        × (fold ascii shown says_ok answer validated recipe 9 messages
            ≡ some (validated (answer "s" (build_user_prompt instruction body "c")))))
fold-Fits_example = fold-Fits says_ok recipe 9 (omega arith) ascii shown answer validated messages

ok_is_brief : (user : String) → text_length (says_ok "s" user) + 8 ≤ 10
unfolding text_length
ok_is_brief user = omega arith

few_chunks : length (chunk_transcript ascii shown messages 10) ≤ 32
unfolding chunk_transcript
few_chunks = omega arith

fold_answers_example :
    (instruction body : String) × Fits 10 body
    × (fold ascii shown says_ok answer validated recipe 10 messages
        ≡ some (validated (answer "s" (build_user_prompt instruction body "c"))))
fold_answers_example =
    fold_answers says_ok recipe 10 ok_is_brief ascii shown answer validated messages few_chunks

folded_once :
    fold ascii shown says_ok answer validated recipe 9 messages
    ≡ some (some "merge\nc\n\n---\n\nok\n\n---\n\nok")
unfolding fold begins
folded_once = refl

-- one chunk asks for no merge, and its answer is refused
refused_once : fold ascii shown says_ok answer validated recipe 900 messages ≡ some none
unfolding fold begins
refused_once = refl
