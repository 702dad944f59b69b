-- ===== src/Tests/Hook.antt =====
-- A device with a transcript and with files that an agent remembers.
use knowledgebase_storage.Common.{
  keep, ℕ, zero, suc, ◌<>◌, String, ◌≡◌, refl, Bool, true, not, none, some, List, [], ◌∷◌, arith,
  ◌==◌, inl,
}
use knowledgebase_storage.Common.Dict.{lookup}
use knowledgebase_storage.Tests.Data.{key}
use knowledgebase_storage.Blobs.{Bytes, read_bytes}
use knowledgebase_storage.Uploads.{Paths, Storage, TranscriptRef, find_transcript}
use knowledgebase_storage.Uploads.Service.{append}
use knowledgebase_storage.Queue.{decision_of}
use knowledgebase_storage.Hook.{Delivery, unanswered, answered, push_transcript}
use knowledgebase_storage.Hook.Pushing.{IsReady, push_transcript-IsReady}
use knowledgebase_storage.Hook.Appends.{HoldsSome}
use knowledgebase_storage.Hook.Arrival.{push_transcript-HoldsSome}
use knowledgebase_storage.Hook.Memories.{
  pull_memories, push_memories, sync_memories, changed_files, deleted_names, digests_of,
}
use knowledgebase_storage.Hook.Memories.Push.{sync_memories_lem}
use knowledgebase_storage.Hook.Memories.Merge.{pull_memories_lem}

abbrev as_it_is : String → String
as_it_is text = text

abbrev no_path : String → Bool
no_path name = not (name == "../x.md")

abbrev here : List (String × String)
here = ("a.md", "old") ∷ ("b.md", "edited") ∷ ("c.md", "stale") ∷ []

abbrev kept_digests : List (String × String)
kept_digests = ("a.md", "old") ∷ ("b.md", "b0") ∷ ("c.md", "stale") ∷ ("d.md", "d0") ∷ []

abbrev listed : List (String × String)
listed = ("b.md", "b1") ∷ ("d.md", "d1") ∷ ("e.md", "e1") ∷ ("../x.md", "bad") ∷ []

pulled_files :
    pull_memories as_it_is no_path (some (("a.md", "new") ∷ listed)) here kept_digests ≡ (
      ("a.md", "new") ∷ ("b.md", "edited") ∷ ("e.md", "e1") ∷ [],
      ("a.md", "new") ∷ ("b.md", "b0") ∷ ("d.md", "d0") ∷ ("e.md", "e1") ∷ [],
    )
unfolding pull_memories
pulled_files = refl

pull_memories_lem_example :
    lookup "b.md"
      (pull_memories as_it_is no_path (some (("a.md", "new") ∷ listed)) here kept_digests).0
    ≡ some "edited"
unfolding lookup
pull_memories_lem_example =
    pull_memories_lem as_it_is no_path "b.md" (some (("a.md", "new") ∷ listed)) here kept_digests
      refl (refl, (refl, (refl, (refl, (refl, tt))))) (refl, (refl, (refl, tt)))
      (λ h t e f same. same)

abbrev rendered : String → String → String
rendered name content = content <> "!"

accepted_push : push_memories as_it_is (λ files gone. true) here kept_digests ≡ here
unfolding push_memories keep
accepted_push = refl

sync_memories_lem_example :
    lookup "b.md" (
      sync_memories rendered
        (changed_files as_it_is kept_digests here)
        (deleted_names as_it_is kept_digests (digests_of as_it_is here))
        listed)
    ≡ some "edited!"
unfolding lookup
sync_memories_lem_example =
    sync_memories_lem as_it_is rendered "b.md" here kept_digests listed (refl, (refl, (refl, tt)))
      (refl, (refl, (refl, (refl, tt))))

abbrev by_length : Bytes → String
by_length [] = "none"
by_length (x ∷ xs) = "some"

abbrev no_stamps : Bytes → List ℕ
no_stamps payload = []

abbrev one_place : Paths
one_place = record { transcript_path = λ _. "t"; upload_path = λ _. "u" }

abbrev session_ref : TranscriptRef
session_ref = record { key = key; project = "site"; cwd = none }

abbrev nothing_stored : Storage
nothing_stored = record { transcripts = []; uploads = []; files = [] }

abbrev session_bytes : Bytes
session_bytes = 1 ∷ 2 ∷ 3 ∷ 4 ∷ 5 ∷ []

-- the answer to the second block is lost
abbrev lossy : ℕ → Delivery
lossy zero = answered
lossy (suc zero) = answered
lossy (suc (suc n)) = unanswered

abbrev reliable : ℕ → Delivery
reliable n = answered

abbrev pushed : (ℕ → Delivery) → Storage → Storage
pushed net s = push_transcript by_length no_stamps one_place [] 1 session_ref net 2 session_bytes s

lost_answer : read_bytes "t" (pushed lossy nothing_stored).files ≡ some (1 ∷ 2 ∷ 3 ∷ 4 ∷ [])
unfolding push_transcript read_bytes append
lost_answer = refl

goes_on : read_bytes "t" (pushed reliable (pushed lossy nothing_stored)).files ≡ some session_bytes
unfolding push_transcript read_bytes append
goes_on = refl

push_transcript-IsReady_example :
    IsReady by_length no_stamps one_place [] 1 session_ref session_bytes
      (pushed lossy nothing_stored)
unfolding decision_of find_transcript
push_transcript-IsReady_example =
    push_transcript-IsReady by_length no_stamps one_place [] 1 session_ref refl lossy 2
      (omega arith) session_bytes nothing_stored (tt, inl refl)

push_transcript-HoldsSome_example :
    HoldsSome by_length no_stamps one_place [] 1 session_ref session_bytes
      (pushed reliable nothing_stored)
unfolding decision_of find_transcript
push_transcript-HoldsSome_example =
    push_transcript-HoldsSome by_length no_stamps one_place [] 1 session_ref refl reliable 2
      (omega arith) session_bytes (λ n. refl) nothing_stored (λ e. absurd (cc)) (tt, inl refl)
