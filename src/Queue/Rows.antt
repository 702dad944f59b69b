-- ===== src/Queue/Rows.antt =====
-- What each operation of backend/repositories/job.py and backend/services/jobs.py keeps of one row.
use knowledgebase_storage.Common.{
  ℕ, String, ◌≡◌, true, false, Option, List, arith, is_none, is_some,
}
use knowledgebase_storage.Common.Result.{ok}
use knowledgebase_storage.Names.{CharTables}
use knowledgebase_storage.Models.{
  Job, JobStatus, JobBase, JobKind, is_claimed, is_done, is_pending, new_job,
}
use knowledgebase_storage.Models.Json.{Json, Message, Fields}
use knowledgebase_storage.Queue.{mark_claimed, unclaim, reopen, requeue, drop_transcript}
use knowledgebase_storage.Queue.Background.{rearm}
use knowledgebase_storage.Queue.Service.{settled_job, fresh_job, continued_job}
use knowledgebase_storage.Queue.Workers.{heartbeat, report, release, written, settle, fail, retry}

-- A row whose claim, completion and checkpoint agree with its status.
pub record IsSound (j : Job) : Type 0 where
  pub token_of_claimed : is_claimed j.status ≡ true → is_some j.claim_token ≡ true
  pub claimed_of_token : is_some j.claim_token ≡ true → is_claimed j.status ≡ true
  pub claimed_since : is_claimed j.status ≡ true → is_some j.claimed_at ≡ true
  pub done_completed : is_done j.status ≡ true → is_some j.completed_at ≡ true
  pub done_forgets : is_done j.status ≡ true → is_none j.checkpoint ≡ true

pub written-IsSound : (now : ℕ) (s : String) {j : Job} → IsSound j → IsSound (written now s j)
unfolding written
written-IsSound now s h = ground arith

pub release-IsSound : (now r : ℕ) {j : Job} → IsSound j → IsSound (release now r j)
unfolding release
release-IsSound now r h = ground arith

pub fail-IsSound : (limit now : ℕ) (e : String) {j : Job} → IsSound j → IsSound (fail limit now e j)
unfolding fail
fail-IsSound limit now e h = ground arith

pub settle-IsSound : (now : ℕ) (s : String) {j : Job} → IsSound j → IsSound (settle now s j)
unfolding settle
settle-IsSound now s h = ground arith

pub heartbeat-IsSound : (now : ℕ) {j : Job} → IsSound j → IsSound (heartbeat now j)
unfolding heartbeat
heartbeat-IsSound now h = ground arith

-- a report may store a checkpoint, so the row must be claimed
pub report-IsSound :
    (now : ℕ) (progress : String) (c : Option Fields) {j : Job}
    → is_claimed j.status ≡ true
    → IsSound j
    → IsSound (report now progress c j)
unfolding report heartbeat
report-IsSound now progress c held h = ground arith

pub retry-IsSound : {j j' : Job} → retry j ≡ ok j' → IsSound j → IsSound j'
unfolding retry
retry-IsSound e h = ground arith

pub mark_claimed-IsSound :
    (now : ℕ) (w : String) (token : ℕ) {j : Job}
    → is_pending j.status ≡ true
    → IsSound j
    → IsSound (mark_claimed now w token j)
unfolding mark_claimed
mark_claimed-IsSound now w token p h = ground arith

pub reclaimed-IsSound :
    {j : Job} → IsSound j → IsSound (record (unclaim j) { status = JobStatus.pending })
reclaimed-IsSound h = ground arith

pub reopen-IsSound :
    (now : ℕ) {j : Job} → is_done j.status ≡ true → IsSound j → IsSound (reopen now j)
unfolding reopen
reopen-IsSound now d h = ground arith

pub requeue-IsSound : {j : Job} → IsSound j → IsSound (requeue j)
unfolding requeue
requeue-IsSound h = ground arith

pub drop_transcript-IsSound : {j : Job} → IsSound j → IsSound (drop_transcript j)
unfolding drop_transcript
drop_transcript-IsSound h = ground arith

-- a row is rearmed when it is settled or new, and then nobody holds it
pub rearm-IsSound :
    (now : ℕ) (k : JobKind) (p : String) (n : Option String) {j : Job}
    → is_claimed j.status ≡ false
    → IsSound j
    → IsSound (rearm now k p n j)
unfolding rearm
rearm-IsSound now k p n c h = ground arith

pub new_job-IsSound : (id : ℕ) (b : JobBase) (now : ℕ) → IsSound (new_job id b now)
unfolding new_job
new_job-IsSound id b now = ground arith

pub touch-IsSound : (now : ℕ) {j : Job} → IsSound j → IsSound (record j { updated_at = now })
touch-IsSound now h = ground arith

module _ (u : CharTables) (digest_of : Option (List Message) → String) (shown : Json → String) where
  pub settled_job-IsSound :
      (id now : ℕ) (b : JobBase) → IsSound (settled_job u digest_of shown id now b)
  unfolding settled_job
  settled_job-IsSound id now b = ground arith

  pub fresh_job-IsSound :
      (id now : ℕ) (b : JobBase) → IsSound (fresh_job u digest_of shown id now b)
  unfolding fresh_job
  fresh_job-IsSound id now b = ground arith

  pub continued_job-IsSound :
      (now : ℕ) (b : JobBase) {j : Job}
      → IsSound j
      → IsSound (continued_job u digest_of shown now b j)
  unfolding continued_job
  continued_job-IsSound now b h = ground arith
