-- ===== src/Queue/Sound.antt =====
-- The claim, the completion and the checkpoint of a row beside its status, over any run of
-- backend/services/jobs.py.
use knowledgebase_storage.Common.{ℕ, String, Option, List, arith, All}
use knowledgebase_storage.Names.{CharTables}
use knowledgebase_storage.Models.Json.{Json, Message}
use knowledgebase_storage.Queue.Background.{background_job}
use knowledgebase_storage.Queue.Rows
use knowledgebase_storage.Queue.Rows.{IsSound}
use knowledgebase_storage.Queue.Service.{Queue}
use knowledgebase_storage.Queue.Decisions.{forget_job}
use knowledgebase_storage.Queue.Rebuild.{restart}
use knowledgebase_storage.Queue.Closed.{IsClosed}
use knowledgebase_storage.Queue.Induction.{Reach-All}
use knowledgebase_storage.Queue.Steps.{Reach}

module _ (u : CharTables) (digest_of : Option (List Message) → String) (shown : Json → String) where
  IsSound-IsClosed : (Issued : ℕ → Type 0) → IsClosed u digest_of shown Issued IsSound
  unfolding background_job forget_job restart
  IsSound-IsClosed Issued = record {
    same = λ a b s h. ground arith;
    made = λ id now b. Rows.fresh_job-IsSound u digest_of shown id now b;
    made_settled = λ id now b. Rows.settled_job-IsSound u digest_of shown id now b;
    made_background = λ id s p now. Rows.new_job-IsSound id _ now;
    continued = λ now b j h. Rows.continued_job-IsSound u digest_of shown now b h;
    mark = λ now w token j i p h. Rows.mark_claimed-IsSound now w token p h;
    noted = λ now p c j held h. Rows.report-IsSound now p c held h;
    freed = λ now r j h. Rows.release-IsSound now r h;
    tried = λ limit now e j h. Rows.fail-IsSound limit now e h;
    wrote = λ now s j h. Rows.written-IsSound now s h;
    ended = λ now s j h. Rows.settle-IsSound now s h;
    again = λ j j' e h. Rows.retry-IsSound e h;
    lost = λ j h. Rows.reclaimed-IsSound h;
    emptied = λ j h. Rows.drop_transcript-IsSound h;
    hidden = λ now j h p. ground arith;
    trivial = λ now j h p. ground arith;
    reopened = λ now j d h. Rows.reopen-IsSound now d h;
    put_off = λ now j d h. ground arith;
    requeued = λ j h. Rows.requeue-IsSound h;
    rearmed = λ j free h. ground arith;
    restarted = λ t j free h. ground arith;
    hid = λ now j h. ground arith;
  }

  -- Whatever requests and sweeps the API serves, in whatever order, from a queue of sound rows: every
  -- row has a claim token exactly while it is claimed, a claimed row knows when it was claimed, and a
  -- done row says when it was completed and keeps no checkpoint.
  pub reachable-IsSound :
      (Issued : ℕ → Type 0) {q r : Queue}
      → Reach u digest_of shown Issued q r
      → All IsSound q.jobs
      → All IsSound r.jobs
  reachable-IsSound Issued run all =
      Reach-All u digest_of shown Issued IsSound (IsSound-IsClosed Issued) run all
