-- ===== src/Queue/Documents.antt =====
-- `ensure_memory_merge` of backend/repositories/job.py: the documents that wait to be merged into a memory.
use mathlib.Core.List.{append-nil, append_assoc}
use knowledgebase_storage.Common.{
  ℕ, suc, String, ◌≡◌, refl, sym, ap, ◌∙◌, inl, inr, true, Option, none, some, List, [], ◌∷◌, ◌++◌,
  arith, ◌<>◌, eqb, if◌then◌else◌, Bool-cases,
}
use knowledgebase_storage.Common.Table.Laws.{first_passes}
use knowledgebase_storage.Models.{
  Job, SessionKey, key_eq, background_session, memory_merge, new_job, is_settled,
}
use knowledgebase_storage.Models.Json.{Message}
use knowledgebase_storage.Queue.{find_by_session}
use knowledgebase_storage.Queue.Background.{
  ensure_memory_merge, or_empty, background_key, background_job, is_applied, merge_documents,
  is_idle, or_new, file_merge, arm_merge,
}
use knowledgebase_storage.Queue.Merges.{merge_each}
use knowledgebase_storage.Queue.Enqueue.{find_by_session-save, key_refl}

-- the documents that a row has not merged yet
unfoldable pub unmerged : Option Job → List Message
unfolding is_applied
unmerged none = []
unmerged (some job) = if is_applied (some job) then [] else or_empty job.transcript

-- the documents that wait to be merged into a memory of a project
unfoldable pub waiting : (into name : String) → List Job → List Message
unfolding unmerged find_by_session
waiting into name jobs = unmerged (
    find_by_session (background_key (background_session memory_merge (into <> ("/" <> name)))) jobs)

-- the row that `ensure_memory_merge` saves, where it finds this one
abbrev pub merged_row : (id now : ℕ) (session_id into path : String) → Message → Option Job → Job
merged_row id now session_id into path document o =
    let held = or_new o (background_job id session_id into now) in
    let job =
      file_merge now into path (merge_documents (is_applied o) document held.transcript) held in
    if is_idle o then arm_merge job else job

merged_row-key :
    (id now : ℕ) (session_id into path : String) (document : Message) (o : Option Job)
    → ((j : Job) → o ≡ some j → key_eq j.key (background_key session_id) ≡ true)
    → key_eq (merged_row id now session_id into path document o).key (background_key session_id)
      ≡ true
unfolding or_new background_job new_job file_merge is_idle arm_merge
merged_row-key id now session_id into path document none h = key_refl (background_key session_id)
merged_row-key id now session_id into path document (some j) h =
    let k = h j refl in elim (Bool-cases (is_settled j.status)) [ inl e ↦ rw e k | inr e ↦ rw e k ]

merged_row-id :
    (id now : ℕ) (session_id into path : String) (document : Message) (o : Option Job) (j : Job)
    → o ≡ some j
    → eqb (merged_row id now session_id into path document o).id j.id ≡ true
unfolding or_new file_merge is_idle arm_merge
merged_row-id id now session_id into path document none j h = absurd (cc)
merged_row-id id now session_id into path document (some k) j h = ground arith

merged_row-unmerged :
    (id now : ℕ) (session_id into path : String) (document : Message) (o : Option Job)
    → unmerged
        (some (record (merged_row id now session_id into path document o) { updated_at = now }))
      ≡ unmerged o ++ document ∷ []
unfolding or_new background_job new_job file_merge is_idle arm_merge unmerged merge_documents
    or_empty is_applied
merged_row-unmerged id now session_id into path document none = refl
merged_row-unmerged id now session_id into path document (some j) = ground arith

abbrev pub merge_key : (into name : String) → SessionKey
merge_key into name = background_key (background_session memory_merge (into <> ("/" <> name)))

pub found-key :
    (key : SessionKey) (jobs : List Job) (j : Job)
    → find_by_session key jobs ≡ some j
    → key_eq j.key key ≡ true
unfolding find_by_session
found-key key jobs j h = first_passes (λ j. key_eq j.key key) jobs h

ensure_memory_merge-waiting :
    (id now : ℕ) (into name path : String) (document : Message) (jobs : List Job)
    → waiting into name (ensure_memory_merge id now into name path document jobs).1
      ≡ waiting into name jobs ++ document ∷ []
unfolding ensure_memory_merge waiting
ensure_memory_merge-waiting id now into name path document jobs =
    let s = background_session memory_merge (into <> ("/" <> name)) in
    let existing = find_by_session (background_key s) jobs in
    ap unmerged (
      find_by_session-save now (background_key s) (merged_row id now s into path document existing)
        jobs
        (merged_row-key id now s into path document existing
          (λ j e. found-key (background_key s) jobs j e))
        (λ j e. merged_row-id id now s into path document existing j e))
    ∙ merged_row-unmerged id now s into path document existing

pub merge_each-waiting :
    (fresh : ℕ → ℕ) (now : ℕ) (into name path : String) (documents : List Message) (jobs : List Job)
    → waiting into name (merge_each fresh now into name path documents jobs)
      ≡ waiting into name jobs ++ documents
unfolding merge_each
merge_each-waiting fresh now into name path [] jobs = sym (append-nil (waiting into name jobs))
merge_each-waiting fresh now into name path (document ∷ documents) jobs =
    merge_each-waiting (λ n. fresh (suc n)) now into name path documents
      (ensure_memory_merge (fresh 0) now into name path document jobs).1
    ∙ ap (λ (ds : List Message). ds ++ documents)
        (ensure_memory_merge-waiting (fresh 0) now into name path document jobs)
    ∙ append_assoc (waiting into name jobs) (document ∷ []) documents
