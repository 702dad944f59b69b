-- ===== src/Queue/Background.antt =====
-- backend/repositories/job.py: the queries and updates for the server's own jobs, for finished
-- summaries that are done again, and for projects that are renamed or deleted.
use knowledgebase_storage.Common.{
  ℕ, String, Bool, true, false, not, ◌&&◌, Option, none, some, List, [], ◌∷◌, ◌++◌, ◌==◌, ltb,
  if◌then◌else◌, holds_text, ◌<>◌, contains,
}
use knowledgebase_storage.Common.Table.{count_where, delete_where, select}
use knowledgebase_storage.Models.{
  Job, JobKind, SessionKey, memory_merge, remote, pending, background_agent, background_device,
  background_priority, background_session, new_job, is_pending, is_done, is_settled,
}
use knowledgebase_storage.Models.Json.{Message}
use knowledgebase_storage.Queue.{same_row, save, bulk_update, find_by_session}

abbrev pub background_key : String → SessionKey
background_key session_id = record {
  agent = background_agent;
  device = background_device;
  session_id = session_id;
}

-- `Job(agent=BACKGROUND_AGENT, …)`
unfoldable pub background_job : ℕ → String → String → ℕ → Job
unfolding new_job
background_job id session_id project now =
    new_job id
      (record {
        key = background_key session_id;
        model = none;
        project = project;
        project_inference = remote;
        cwd = none;
        transcript = none;
        started_at = none;
        ended_at = none;
      })
      now

unfoldable pub or_new : Option Job → Job → Job
or_new none fresh = fresh
or_new (some job) fresh = job

-- `existing is None or existing.status in {DONE, FAILED}`
unfoldable pub is_idle : Option Job → Bool
is_idle none = true
is_idle (some job) = is_settled job.status

unfoldable pub rearm : ℕ → JobKind → String → Option String → Job → Job
rearm now kind project note_path job = record job {
  kind = kind;
  priority = background_priority;
  base = record job.base { project = project };
  note_path = note_path;
  status = pending;
  attempts = 0;
  last_error = none;
  next_attempt_at = none;
  last_activity_at = now;
}

unfoldable pub ensure_background :
    (id now : ℕ)
    → JobKind
    → (session_id project : String) → Option String
    → List Job
    → Option Job × List Job
unfolding find_by_session or_new is_idle rearm save background_job
ensure_background id now kind session_id project note_path jobs =
    let existing = find_by_session (background_key session_id) jobs in
    let job =
      rearm now kind project note_path
        (or_new existing (background_job id session_id project now)) in
    if is_idle existing then (some job, save now job jobs) else (none, jobs)

unfoldable pub count_pending_background : List Job → ℕ
unfolding count_where
count_pending_background jobs = count_where (λ j. is_pending j.status && ltb 0 j.priority) jobs

-- `existing is None or existing.status is JobStatus.DONE`
unfoldable pub is_applied : Option Job → Bool
is_applied none = true
is_applied (some job) = is_done job.status

unfoldable pub or_empty : Option (List Message) → List Message
or_empty none = []
or_empty (some messages) = messages

unfoldable pub merge_documents : Bool → Message → Option (List Message) → List Message
unfolding or_empty
merge_documents applied document held =
    if applied then document ∷ [] else or_empty held ++ document ∷ []

-- The row of a merge, with the documents that wait for it.
unfoldable pub file_merge : (now : ℕ) (project note_path : String) → List Message → Job → Job
file_merge now project note_path documents job = record job {
  kind = memory_merge;
  base = record job.base { project = project; transcript = some documents };
  note_path = some note_path;
  last_activity_at = now;
}

unfoldable pub arm_merge : Job → Job
arm_merge job = record job {
  status = pending;
  attempts = 0;
  last_error = none;
  next_attempt_at = none;
  transcript_digest = none;
}

unfoldable pub ensure_memory_merge :
    (id now : ℕ) (project name note_path : String) → Message → List Job → Job × List Job
unfolding find_by_session or_new is_idle is_applied merge_documents save background_job file_merge
    arm_merge
ensure_memory_merge id now project name note_path document jobs =
    let session_id = background_session memory_merge (project <> ("/" <> name)) in
    let existing = find_by_session (background_key session_id) jobs in
    let held = or_new existing (background_job id session_id project now) in
    let documents = merge_documents (is_applied existing) document held.transcript in
    let job = file_merge now project note_path documents held in
    let kept = if is_idle existing then arm_merge job else job in (kept, save now kept jobs)

abbrev pub kind_eq : JobKind → JobKind → Bool
kind_eq JobKind.session JobKind.session = true
kind_eq JobKind.memory_merge JobKind.memory_merge = true
kind_eq JobKind.project_overview JobKind.project_overview = true
kind_eq JobKind.note_relations JobKind.note_relations = true
kind_eq JobKind.project_link JobKind.project_link = true
kind_eq _ _ = false

unfoldable pub drop_background : String → JobKind → List Job → List Job
unfolding delete_where
drop_background project kind jobs =
    delete_where (λ j. kind_eq j.kind kind && j.project == project) jobs

unfoldable pub unfinished_memory_merges : String → List Job → List Job
unfolding select
unfinished_memory_merges project jobs =
    select (λ j. kind_eq j.kind memory_merge && j.project == project && not (is_done j.status))
      (λ a b. ltb b.created_at a.created_at) jobs

-- `session.delete(job)`
unfoldable pub drop : Job → List Job → List Job
unfolding delete_where
drop job jobs = delete_where (λ j. same_row job j) jobs

unfoldable pub rename_project : ℕ → String → String → List Job → List Job
unfolding bulk_update
rename_project now source target jobs =
    bulk_update now (λ j. j.project == source)
      (λ j. record j { base = record j.base { project = target } }) jobs

unfoldable pub delete_project : List String → List Job → List Job
unfolding delete_where
delete_project slugs jobs = delete_where (λ j. contains slugs j.project) jobs

-- One entry of `relink`'s `moves`.
unfoldable pub relink_one : ℕ → String → String → List Job → List Job
unfolding bulk_update
relink_one now old new jobs =
    bulk_update now (λ j. holds_text j.note_path old) (λ j. record j { note_path = some new }) jobs

unfoldable pub relink : ℕ → List (String × String) → List Job → List Job
unfolding relink_one
relink now [] jobs = jobs
relink now ((old, new) ∷ moves) jobs = relink now moves (relink_one now old new jobs)
