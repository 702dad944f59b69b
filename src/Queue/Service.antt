-- ===== src/Queue/Service.antt =====
-- backend/services/jobs.py: what a posted session makes of the row of its job. A method that changes the job
-- in place returns the new row.
use mathlib.Core.Option
use knowledgebase_storage.Common.{
  ℕ, String, Bool, true, false, Option, none, some, List, reverse, ◌==◌, if◌then◌else◌, is_some,
  holds_text, take_text,
}
use knowledgebase_storage.Common.Table.{first}
use knowledgebase_storage.Models.{
  Job, JobBase, NoteDecision, LlmProvider, RuntimeSetting, pending, done, new_job, is_settled,
}
use knowledgebase_storage.Models.Json.{Json, Message, get, text}
use knowledgebase_storage.Names.{CharTables, named_project}
use knowledgebase_storage.Aliases.{ProjectAlias, resolve}
use knowledgebase_storage.Queue.{save, find_by_session, decision_of}

-- The tables that the service reads and writes.
pub record Queue : Type 0 where
  pub jobs : List Job
  pub decisions : List NoteDecision
  pub providers : List LlmProvider
  pub aliases : List ProjectAlias
  pub settings : RuntimeSetting

abbrev pub backoff_base_seconds : ℕ
backoff_base_seconds = 60

abbrev pub backoff_cap_seconds : ℕ
backoff_cap_seconds = 3600

abbrev pub last_request_chars : ℕ
last_request_chars = 1000

abbrev pub progress_chars : ℕ
progress_chars = 200

unfoldable pub is_role : String → Option Json → Bool
is_role role (some (text s)) = s == role
is_role role _ = false

-- `str(value)`, the empty text for a missing one; `shown` is Python's text of other values
unfoldable pub str : (Json → String) → Option Json → String
str shown none = ""
str shown (some (text s)) = s
str shown (some v) = shown v

unfoldable pub last_request_of : (Json → String) → Option (List Message) → Option String
unfolding first is_role str take_text get
last_request_of shown none = none
last_request_of shown (some messages) =
    Option.map (λ m. take_text last_request_chars (str shown (get "content" m)))
      (first (λ m. is_role "user" (get "role" m)) (reverse messages))

-- `existing.sqlmodel_update(payload.model_dump(exclude_none=True))`
abbrev pub or_kept {ℓ} : {A : Type ℓ} → Option A → Option A → Option A
or_kept none old = old
or_kept (some a) old = some a

unfoldable pub overlay : JobBase → JobBase → JobBase
overlay payload old = record {
  key = payload.key;
  model = or_kept payload.model old.model;
  project = payload.project;
  project_inference = payload.project_inference;
  cwd = or_kept payload.cwd old.cwd;
  transcript = or_kept payload.transcript old.transcript;
  started_at = or_kept payload.started_at old.started_at;
  ended_at = or_kept payload.ended_at old.ended_at;
}

module _ (u : CharTables) (digest_of : Option (List Message) → String) (shown : Json → String) where
  -- The row of a session that is held back: settled at once, without its transcript.
  unfoldable pub settled_job : (id now : ℕ) → JobBase → Job
  unfolding new_job
  settled_job id now payload = record (new_job id (record payload { transcript = none }) now) {
    status = done;
    completed_at = some now;
  }

  unfoldable pub fresh_job : (id now : ℕ) → JobBase → Job
  unfolding new_job last_request_of
  fresh_job id now payload = record (new_job id payload now) {
    transcript_digest = some (digest_of payload.transcript);
    last_request = last_request_of shown payload.transcript;
  }

  unfoldable pub continued_job : (now : ℕ) → JobBase → Job → Job
  unfolding overlay last_request_of
  continued_job now payload existing =
      let job = record existing {
        base = overlay payload existing.base;
        transcript_digest = some (digest_of payload.transcript);
        last_request = last_request_of shown payload.transcript;
        last_activity_at = now;
        priority = 0;
        refined_at = none;
      } in
      if is_settled existing.status
      then record job { status = pending; attempts = 0; last_error = none; next_attempt_at = none }
      else job

  -- The branches of `enqueue`, on whether the session is held back and on the row it has.
  unfoldable pub enqueue_row :
      (id now : ℕ) → JobBase → Bool → Option Job → List Job → Job × Bool × List Job
  unfolding settled_job fresh_job continued_job save
  enqueue_row id now payload true (some existing) jobs = (existing, false, jobs)
  enqueue_row id now payload true none jobs =
      let job = settled_job id now payload in (job, true, save now job jobs)
  enqueue_row id now payload false none jobs =
      let job = fresh_job id now payload in (job, true, save now job jobs)
  enqueue_row id now payload false (some existing) jobs =
      let job = continued_job now payload existing in
      if holds_text existing.transcript_digest (digest_of payload.transcript)
      then (existing, false, jobs)
      else (job, false, save now job jobs)

  -- The payload's project is named, and led to where a merge sent it, before anything is looked up.
  unfoldable pub enqueue : (id now : ℕ) → JobBase → Queue → Job × Bool × Queue
  unfolding enqueue_row decision_of find_by_session resolve named_project
  enqueue id now posted q =
      let payload = record posted {
        project = resolve u q.aliases (named_project u posted.project);
      } in
      let (job, created, jobs) =
        enqueue_row id now payload (is_some (decision_of payload.key q.decisions))
          (find_by_session payload.key q.jobs) q.jobs in
      (job, created, record q { jobs = jobs })
