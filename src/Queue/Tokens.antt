-- ===== src/Queue/Tokens.antt =====
-- The claim token of backend/services/jobs.py: what a worker may do once its claim is gone.
use knowledgebase_storage.Common.{
  ℕ, String, ◌≡◌, sym, subst, ◌≢◌, false, Option, some, List, arith, All,
}
use knowledgebase_storage.Common.Result.{ok}
use knowledgebase_storage.Names.{CharTables}
use knowledgebase_storage.Models.{Job, new_job}
use knowledgebase_storage.Models.Json.{Json, Message}
use knowledgebase_storage.Queue.{mark_claimed, reopen, requeue, drop_transcript}
use knowledgebase_storage.Queue.Background.{background_job}
use knowledgebase_storage.Queue.Service.{Queue, settled_job, fresh_job, continued_job}
use knowledgebase_storage.Queue.Workers.{
  claim_held, found, holds_token, report, heartbeat, release, written, settle, fail, retry,
}
use knowledgebase_storage.Queue.Decisions.{forget_job}
use knowledgebase_storage.Queue.Rebuild.{restart}
use knowledgebase_storage.Queue.Closed.{IsClosed}
use knowledgebase_storage.Queue.Induction.{Reach-All}
use knowledgebase_storage.Queue.Tables.{claim_held_ok, All-retrieve}
use knowledgebase_storage.Queue.Steps.{Reach}

-- The row does not carry this token.
abbrev pub Lacks : ℕ → Job → Type 0
Lacks token j = holds_token j.claim_token token ≡ false

pub lacks_other : (token other : ℕ) → token ≢ other → holds_token (some other) token ≡ false
lacks_other token other ne = ground arith

module _ (u : CharTables) (digest_of : Option (List Message) → String) (shown : Json → String) where
  Lacks-IsClosed :
      (Issued : ℕ → Type 0) (token : ℕ)
      → ¬ Issued token
      → IsClosed u digest_of shown Issued (Lacks token)
  unfolding background_job new_job forget_job fresh_job settled_job continued_job mark_claimed
      report heartbeat release fail written settle retry drop_transcript reopen requeue restart
  Lacks-IsClosed Issued token never = record {
    same = λ a b s h. ground arith;
    made = λ id now b. ground arith;
    made_settled = λ id now b. ground arith;
    made_background = λ id s p now. ground arith;
    continued = λ now b j h. ground arith;
    mark = λ now w other j i p h. lacks_other token other (λ e. never (subst Issued (sym e) i));
    noted = λ now p c j held h. ground arith;
    freed = λ now r j h. ground arith;
    tried = λ limit now e j h. ground arith;
    wrote = λ now s j h. ground arith;
    ended = λ now s j h. ground arith;
    again = λ j j' e h. ground arith;
    lost = λ j h. ground arith;
    emptied = λ j h. ground arith;
    hidden = λ now j h p. ground arith;
    trivial = λ now j h p. ground arith;
    reopened = λ now j d h. ground arith;
    put_off = λ now j d h. h;
    requeued = λ j h. ground arith;
    rearmed = λ j free h. ground arith;
    restarted = λ t j free h. ground arith;
    hid = λ now j h. ground arith;
  }

  Lacks-refused :
      (id token : ℕ) (jobs : List Job)
      → All (Lacks token) jobs
      → (job : Job) → claim_held id token jobs ≢ ok job
  Lacks-refused id token jobs all job held =
      let (found, _, holds) = claim_held_ok id token jobs job held in
      cc (holds, All-retrieve (Lacks token) (record { touch = λ now j h. h }) id jobs all found)

  -- A worker whose claim token no row carries any more, because its claim was released, finished,
  -- reclaimed or dropped, is refused every request on every job from then on: whatever the API serves
  -- in between, as long as it does not hand the same token out again.
  pub claim_held-retired :
      (Issued : ℕ → Type 0) (token : ℕ) {q r : Queue}
      → ¬ Issued token
      → All (Lacks token) q.jobs
      → Reach u digest_of shown Issued q r
      → (id : ℕ) (job : Job) → claim_held id token r.jobs ≢ ok job
  claim_held-retired Issued token {r = r} never all run id job =
      Lacks-refused id token r.jobs
        (Reach-All u digest_of shown Issued (Lacks token) (Lacks-IsClosed Issued token never) run
          all)
        job
