-- ===== src/Queue/Closed.antt =====
-- What a predicate of the job rows must survive for it to hold in every queue that the API reaches: one
-- field for each thing that backend/services/jobs.py, backend/services/ingest.py and
-- backend/repositories/job.py do to a row.
use knowledgebase_storage.Common.{ℕ, String, ◌≡◌, true, false, Option, none, some, List}
use knowledgebase_storage.Common.Result.{ok}
use knowledgebase_storage.Names.{CharTables}
use knowledgebase_storage.Models.{Job, JobBase, JobStatus, is_claimed, is_done, is_pending}
use knowledgebase_storage.Models.Json.{Json, Message, Fields}
use knowledgebase_storage.Queue.{reopen, requeue, mark_claimed, unclaim, drop_transcript}
use knowledgebase_storage.Queue.Background.{background_job}
use knowledgebase_storage.Queue.Service.{settled_job, fresh_job, continued_job}
use knowledgebase_storage.Queue.Workers.{report, release, written, settle, fail, retry}
use knowledgebase_storage.Queue.Decisions.{forget_job}
use knowledgebase_storage.Queue.Rebuild.{restart}

-- What a change to a row's data leaves alone: status, claim, completion and checkpoint.
pub record SameClaim (a b : Job) : Type 0 where
  pub id : a.id ≡ b.id
  pub status : a.status ≡ b.status
  pub claimed_at : a.claimed_at ≡ b.claimed_at
  pub claim_token : a.claim_token ≡ b.claim_token
  pub completed_at : a.completed_at ≡ b.completed_at
  pub checkpoint : a.checkpoint ≡ b.checkpoint

module _ (u : CharTables) (digest_of : Option (List Message) → String) (shown : Json → String) where
  pub record IsClosed (Issued : ℕ → Type 0) (P : Job → Type 0) : Type 0 where
    pub same : (a b : Job) → SameClaim a b → P a → P b
    pub made : (id now : ℕ) (b : JobBase) → P (fresh_job u digest_of shown id now b)
    pub made_settled : (id now : ℕ) (b : JobBase) → P (settled_job u digest_of shown id now b)
    pub made_background : (id : ℕ) (s p : String) (now : ℕ) → P (background_job id s p now)
    pub continued :
        (now : ℕ) (b : JobBase) (j : Job) → P j → P (continued_job u digest_of shown now b j)
    pub mark :
        (now : ℕ) (w : String) (token : ℕ) (j : Job)
        → Issued token
        → is_pending j.status ≡ true
        → P j
        → P (mark_claimed now w token j)
    pub noted :
        (now : ℕ) (p : String) (c : Option Fields) (j : Job)
        → is_claimed j.status ≡ true
        → P j
        → P (report now p c j)
    pub freed : (now r : ℕ) (j : Job) → P j → P (release now r j)
    pub tried : (limit now : ℕ) (e : String) (j : Job) → P j → P (fail limit now e j)
    pub wrote : (now : ℕ) (s : String) (j : Job) → P j → P (written now s j)
    pub ended : (now : ℕ) (s : String) (j : Job) → P j → P (settle now s j)
    pub again : (j j' : Job) → retry j ≡ ok j' → P j → P j'
    pub lost : (j : Job) → P j → P (record (unclaim j) { status = JobStatus.pending })
    pub emptied : (j : Job) → P j → P (drop_transcript j)
    -- a pending row is settled: its session is held back, or asked for nothing
    pub hidden :
        (now : ℕ) (j : Job)
        → P j
        → is_pending j.status ≡ true
        → P (record j {
          status = JobStatus.done;
          completed_at = some now;
          claim_token = none;
          checkpoint = none;
        })
    pub trivial :
        (now : ℕ) (j : Job)
        → P j
        → is_pending j.status ≡ true
        → P (record j { status = JobStatus.done; completed_at = some now; checkpoint = none })
    pub reopened : (now : ℕ) (j : Job) → is_done j.status ≡ true → P j → P (reopen now j)
    pub put_off :
        (now : ℕ) (j : Job)
        → is_done j.status ≡ true
        → P j
        → P (record j { completed_at = some now })
    pub requeued : (j : Job) → P j → P (requeue j)
    pub rearmed :
        (j : Job) → is_claimed j.status ≡ false → P j → P (record j { status = JobStatus.pending })
    pub restarted : (at : ℕ) (j : Job) → is_claimed j.status ≡ false → P j → P (restart at j)
    pub hid : (now : ℕ) (j : Job) → P j → P (forget_job now j)
