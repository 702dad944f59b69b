-- ===== src/Queue/Steps.antt =====
-- The requests and sweeps that change the job queue, as a step relation: backend/routes/jobs.py, the
-- housekeeping of backend/services/background.py, the rebuild of backend/services/ingest.py, and what other
-- services do to a job's row. `Issued`
-- says which claim tokens the runs in question hand out.
use knowledgebase_storage.Common.{ℕ, String, ◌≡◌, Bool, Option, some, List}
use knowledgebase_storage.Common.Result.{ok}
use knowledgebase_storage.Names.{CharTables}
use knowledgebase_storage.Models.{
  Job, JobBase, JobKind, JobStatus, SessionKey, NoteVerdict, NoteDecision, LlmProvider,
  RuntimeSetting,
}
use knowledgebase_storage.Aliases.{ProjectAlias}
use knowledgebase_storage.Models.Json.{Json, Message, Fields}
use knowledgebase_storage.Queue.{
  save, reclaim_stale, purge_transcripts, settle_decided, reopen, requeue,
}
use knowledgebase_storage.Queue.Background.{
  ensure_background, ensure_memory_merge, drop_background, rename_project, delete_project, relink,
  drop,
}
use knowledgebase_storage.Queue.Unsummarized.{settle_without_note}
use knowledgebase_storage.Queue.Merges.{carry_memory_merges, drop_pairs}
use knowledgebase_storage.Queue.Service.{Queue, enqueue}
use knowledgebase_storage.Queue.Workers.{
  claim, claim_held, retrieve, heartbeat, report, release, written, settle, fail, retry,
}
use knowledgebase_storage.Queue.Decisions.{forget_session, allow}
use knowledgebase_storage.Queue.Rebuild.{rebuild}
use knowledgebase_storage.Uploads.{RawTranscript}

abbrev pub with_jobs : Queue → List Job → Queue
with_jobs q jobs = record q { jobs = jobs }

module _ (u : CharTables) (digest_of : Option (List Message) → String) (shown : Json → String) where
  pub data Step (Issued : ℕ → Type 0) : Queue → Queue → Type 0 where
    -- POST /jobs
    enqueued :
        (q : Queue) (id now : ℕ) (payload : JobBase)
        → Step Issued q (enqueue u digest_of shown id now payload q).2
    -- POST /jobs/claim
    claimed :
        (q : Queue) (locked : ℕ → Bool) (now : ℕ) (worker : String) (provider : Option String)
        (min_age token : ℕ)
        → Issued token
        → Step Issued q (claim locked now worker provider min_age token q).1
    -- the payload that is handed out with a claim: the digest of a background job's records is kept
    fingerprinted :
        (q : Queue) (id token now : ℕ) (digest : String) (job : Job)
        → claim_held id token q.jobs ≡ ok job
        → Step Issued q
            (with_jobs q (save now (record job { transcript_digest = some digest }) q.jobs))
    -- POST /raw/rebuild
    restarted :
        (q : Queue) (has_segments : RawTranscript → Option Bool) (now : ℕ) (fresh : ℕ → ℕ)
        (transcripts : List RawTranscript)
        → Step Issued q (rebuild u has_segments now fresh transcripts q)
    -- POST /jobs/{id}/heartbeat, /progress, /release, /fail
    beaten :
        (q : Queue) (id token now : ℕ) (job : Job)
        → claim_held id token q.jobs ≡ ok job
        → Step Issued q (with_jobs q (save now (heartbeat now job) q.jobs))
    reported :
        (q : Queue) (id token now : ℕ) (progress : String) (checkpoint : Option Fields) (job : Job)
        → claim_held id token q.jobs ≡ ok job
        → Step Issued q (with_jobs q (save now (report now progress checkpoint job) q.jobs))
    released :
        (q : Queue) (id token now retry_after : ℕ) (job : Job)
        → claim_held id token q.jobs ≡ ok job
        → Step Issued q (with_jobs q (save now (release now retry_after job) q.jobs))
    failed :
        (q : Queue) (id token now : ℕ) (error : String) (job : Job)
        → claim_held id token q.jobs ≡ ok job
        → Step Issued q
            (with_jobs q (save now (fail q.settings.job_max_attempts now error job) q.jobs))
    -- POST /jobs/{id}/result, /note, /overview: a note was written at `path`, and then `written`
    completed :
        (q : Queue) (id token now : ℕ) (summarizer : String) (path : Option String) (job : Job)
        → claim_held id token q.jobs ≡ ok job
        → Step Issued q (
            with_jobs q
              (save now (written now summarizer (record job { note_path = path })) q.jobs))
    -- POST /jobs/{id}/memory, /overview, /link, /relations
    settled :
        (q : Queue) (id token now : ℕ) (summarizer : String) (path : Option String) (job : Job)
        → claim_held id token q.jobs ≡ ok job
        → Step Issued q (
            with_jobs q (save now (settle now summarizer (record job { note_path = path })) q.jobs))
    -- a note's path that is saved with what the same request files for links and overviews, and a background
    -- job that is released since what it was about has changed
    pathed :
        (q : Queue) (id token now : ℕ) (path : Option String) (job : Job)
        → claim_held id token q.jobs ≡ ok job
        → Step Issued q (with_jobs q (save now (record job { note_path = path }) q.jobs))
    postponed :
        (q : Queue) (id token now : ℕ) (path : Option String) (job : Job)
        → claim_held id token q.jobs ≡ ok job
        → Step Issued q
            (with_jobs q (save now (release now 0 (record job { note_path = path })) q.jobs))
    -- POST /jobs/{id}/retry
    retried :
        (q : Queue) (id now : ℕ) (job job' : Job)
        → retrieve id q.jobs ≡ ok job
        → retry job ≡ ok job'
        → Step Issued q (with_jobs q (save now job' q.jobs))
    -- the housekeeping of the API, and the sweep for background work
    reclaimed :
        (q : Queue) (now stale_after : ℕ)
        → Step Issued q (with_jobs q (reclaim_stale now stale_after q.jobs))
    purged :
        (q : Queue) (now retention : ℕ)
        → Step Issued q (with_jobs q (purge_transcripts now retention q.jobs))
    hidden :
        (q : Queue) (now : ℕ) → Step Issued q (with_jobs q (settle_decided now q.decisions q.jobs))
    trivial :
        (q : Queue) (now seen : ℕ) (job : Job)
        → Step Issued q (with_jobs q (settle_without_note now job seen q.jobs).1)
    refined :
        (q : Queue) (id now : ℕ) (job : Job)
        → retrieve id q.jobs ≡ ok job
        → job.status ≡ JobStatus.done
        → Step Issued q (with_jobs q (save now (reopen now job) q.jobs))
    rebuilt :
        (q : Queue) (id now : ℕ) (job : Job)
        → retrieve id q.jobs ≡ ok job
        → Step Issued q (with_jobs q (save now (requeue job) q.jobs))
    -- a row that a sweep only looked at, and a summary that waits another round to be made again
    looked :
        (q : Queue) (id now : ℕ) (job : Job)
        → retrieve id q.jobs ≡ ok job
        → Step Issued q (with_jobs q (save now job q.jobs))
    put_off :
        (q : Queue) (id now : ℕ) (job : Job)
        → retrieve id q.jobs ≡ ok job
        → job.status ≡ JobStatus.done
        → Step Issued q (with_jobs q (save now (record job { completed_at = some now }) q.jobs))
    ensured :
        (q : Queue) (id now : ℕ) (kind : JobKind) (session_id project : String)
        (path : Option String)
        → Step Issued q
            (with_jobs q (ensure_background id now kind session_id project path q.jobs).1)
    merged :
        (q : Queue) (id now : ℕ) (project name path : String) (document : Message)
        → Step Issued q
            (with_jobs q (ensure_memory_merge id now project name path document q.jobs).1)
    -- what a project's merge or deletion does to the queue
    renamed :
        (q : Queue) (now : ℕ) (source target : String)
        → Step Issued q (with_jobs q (rename_project now source target q.jobs))
    relinked :
        (q : Queue) (now : ℕ) (moves : List (String × String))
        → Step Issued q (with_jobs q (relink now moves q.jobs))
    deleted :
        (q : Queue) (slugs : List String)
        → Step Issued q (with_jobs q (delete_project slugs q.jobs))
    dropped_kind :
        (q : Queue) (project : String) (kind : JobKind)
        → Step Issued q (with_jobs q (drop_background project kind q.jobs))
    dropped : (q : Queue) (job : Job) → Step Issued q (with_jobs q (drop job q.jobs))
    parted :
        (q : Queue) (project : String) → Step Issued q (with_jobs q (drop_pairs project q.jobs).1)
    carried :
        (q : Queue) (fresh : ℕ → ℕ → ℕ) (now : ℕ) (source target base : String)
        → Step Issued q (with_jobs q (carry_memory_merges fresh now source target base q.jobs).1)
    -- a request that leaves the jobs alone, and changes the settings or the other tables
    configured :
        (q : Queue) (decisions : List NoteDecision) (providers : List LlmProvider)
        (aliases : List ProjectAlias) (settings : RuntimeSetting)
        → Step Issued q (record q {
          decisions = decisions;
          providers = providers;
          aliases = aliases;
          settings = settings;
        })
    -- the verdict on a note
    forgotten :
        (q : Queue) (id now : ℕ) (key : SessionKey) (verdict : NoteVerdict) (reason : String)
        → Step Issued q (forget_session id now key verdict reason q)
    allowed : (q : Queue) (id : ℕ) → Step Issued q (allow id q)

  pub data Reach (Issued : ℕ → Type 0) (q : Queue) : Queue → Type 0 where
    here : Reach Issued q q
    next : {r s : Queue} → Reach Issued q r → Step Issued r s → Reach Issued q s
