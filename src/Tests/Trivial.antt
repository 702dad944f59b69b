-- ===== src/Tests/Trivial.antt =====
-- A sweep over short sessions.
use knowledgebase_storage.Common.{
  false, true, String, ◌≡◌, refl, none, some, List, [], ◌∷◌, map, if◌then◌else◌,
}
use knowledgebase_storage.Models.Json.{object, field, text, number, end_fields}
use knowledgebase_storage.Extract.Codex.{Patterns}
use knowledgebase_storage.Models.{Job}
use knowledgebase_storage.Blobs.{Bytes}
use knowledgebase_storage.Uploads.{Paths, Storage}
use knowledgebase_storage.Queue.Service.{fresh_job}
use knowledgebase_storage.Queue.Unsummarized.{settle_noteless, pending_sessions}
use knowledgebase_storage.Sweeps.Trivial.{trivial_scan, settle_trivial}
use knowledgebase_storage.Sweeps.Trivial.Rows.{among}
use knowledgebase_storage.Sweeps.Trivial.Outcome.{up_to_error, outcome, settle_trivial_lem}
use knowledgebase_storage.Tests.Data.{ascii, digest, key, post, shown}
use knowledgebase_storage.Tests.Extract.{plain_texts, no_patterns, said}

-- Of two quiet sessions, one asked for a repair in a few words and the other has no transcript.
abbrev quiet : Job
quiet = fresh_job ascii digest shown 1 100 post

abbrev unstored : Job
unstored =
    fresh_job ascii digest shown 2 100
      (record post { key = record { agent = "claude"; device = "laptop"; session_id = "s2" } })

abbrev stored_session : Storage
stored_session = record {
  transcripts =
      record {
        id = 1;
        key = key;
        project_hint = "demo";
        cwd = none;
        byte_size = 1;
        digest = "";
        started_at = none;
        ended_at = none;
      }
      ∷ [];
  uploads = [];
  files = record { name = "t"; content = 1 ∷ [] } ∷ [];
}

abbrev one_file : Paths
one_file = record { transcript_path = λ _. "t"; upload_path = λ _. "u" }

abbrev asks_a_little : Patterns
asks_a_little = record no_patterns { loads = λ s. some (object (said "user" "fix it" "t1")) }

abbrev one_line : Bytes → List String
one_line content = "{}" ∷ []

one_settled :
    settle_trivial plain_texts asks_a_little
      (λ s. false)
      one_line
      one_file
      stored_session
      900
      600
      (quiet ∷ unstored ∷ [])
    ≡ (
      false,
      1,
      record (settle_noteless 900 quiet) { updated_at = 900 }
          ∷ record unstored { updated_at = 900 }
          ∷ [],
    )
unfolding settle_trivial settle_noteless fresh_job
one_settled = refl

settle_trivial_lem_example :
    (settle_trivial plain_texts asks_a_little
      (λ s. false)
      one_line
      one_file
      stored_session
      900
      600
      (quiet ∷ unstored ∷ [])).2
    ≡ map
        (λ j.
          if among
            (up_to_error plain_texts asks_a_little
              (λ s. false)
              one_line
              one_file
              stored_session
              900
              (pending_sessions 900 600 trivial_scan (quiet ∷ unstored ∷ [])))
            j
          then outcome plain_texts asks_a_little (λ s. false) one_line one_file stored_session 900 j
          else j)
        (quiet ∷ unstored ∷ [])
unfolding fresh_job
settle_trivial_lem_example =
    settle_trivial_lem plain_texts asks_a_little (λ s. false) one_line one_file stored_session 900
      600 (quiet ∷ unstored ∷ []) ((refl, tt), (tt, tt))

-- a message with a number for its content ends the loop
abbrev malformed : Patterns
malformed = record no_patterns {
  loads = λ s. some (
      object (
        field "message"
          (object (field "role" (text "user") (field "content" (number "1") end_fields)))
          end_fields));
}

one_raises :
    settle_trivial plain_texts malformed
      (λ s. false)
      one_line
      one_file
      stored_session
      900
      600
      (quiet ∷ unstored ∷ [])
    ≡ (true, 0, quiet ∷ unstored ∷ [])
unfolding settle_trivial fresh_job
one_raises = refl
