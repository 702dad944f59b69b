-- ===== src/Queue/Restarted.antt =====
-- What `rebuild` of backend/services/ingest.py keeps of the job rows.
use knowledgebase_storage.Common.{
  ℕ, String, suc, Bool, true, false, ◌||◌, Option, none, some, List, [], ◌∷◌, inl, inr, is_some,
  Bool-cases, Option-cases, ◌≡◌, refl, arith, All,
}
use knowledgebase_storage.Names.{CharTables}
use knowledgebase_storage.Models.{Job, JobBase, is_claimed, new_job}
use knowledgebase_storage.Models.Json.{Json, Message}
use knowledgebase_storage.Queue.{find_by_session, decision_of}
use knowledgebase_storage.Queue.Service.{Queue, fresh_job}
use knowledgebase_storage.Queue.Background.{or_new}
use knowledgebase_storage.Queue.Tables.{All-save, All-find_by_session}
use knowledgebase_storage.Queue.Closed.{IsClosed}
use knowledgebase_storage.Queue.Invariant.{kept, All-or_new}
use knowledgebase_storage.Queue.Rebuild.{is_open, or_now, job_of, restarted_jobs, rebuild}
use knowledgebase_storage.Uploads.{RawTranscript}

module _ (u : CharTables) (digest_of : Option (List Message) → String) (shown : Json → String)
    (Issued : ℕ → Type 0) (P : Job → Type 0) (c : IsClosed u digest_of shown Issued P) where
  P-new_job : (id : ℕ) (b : JobBase) (now : ℕ) → P (new_job id b now)
  unfolding fresh_job new_job
  P-new_job id b now =
      c.same (fresh_job u digest_of shown id now b) (new_job id b now) (ground arith)
        (c.made id now b)

  unclaimed :
      (o : Option Job) (id : ℕ) (b : JobBase) (now : ℕ)
      → is_open o ≡ false
      → is_claimed (or_new o (new_job id b now)).status ≡ false
  unfolding or_new is_open new_job
  unclaimed none id b now h = refl
  unclaimed (some j) id b now h = ground (arith, h)

  module _ (has_segments : RawTranscript → Option Bool) (now : ℕ) where
    All-restarted_jobs :
        (id : ℕ) (t : RawTranscript) (q : Queue)
        → is_open (find_by_session t.key q.jobs) ≡ false
        → All P q.jobs
        → All P (restarted_jobs u has_segments now id t q)
    unfolding restarted_jobs job_of
    All-restarted_jobs id t q free all =
        let existing = find_by_session t.key q.jobs in
        All-save P (kept u digest_of shown Issued P c) now _ q.jobs
          (c.restarted (or_now t.ended_at now) _ (unclaimed existing id _ now free) (
            All-or_new u digest_of shown Issued P c existing _
              (λ j e. All-find_by_session P (kept u digest_of shown Issued P c) t.key q.jobs all e)
              (P-new_job id _ now)))
          all

    pub All-rebuild :
        (fresh : ℕ → ℕ) (ts : List RawTranscript) (q : Queue)
        → All P q.jobs
        → All P (rebuild u has_segments now fresh ts q).jobs
    unfolding rebuild
    All-rebuild fresh [] q all = all
    All-rebuild fresh (t ∷ ts) q all =
        let further = All-rebuild (λ k. fresh (suc k)) ts q all in
        elim (Bool-cases
          (is_open (find_by_session t.key q.jobs) || is_some (decision_of t.key q.decisions))) [
            | inl e ↦ rw e further
            | inr e ↦ elim (Option-cases (has_segments t)) [
              | inl f ↦ rw (e, f) all
              | inr (true, f) ↦
                  rw (e, f)
                    (All-rebuild (λ k. fresh (suc k)) ts
                      (record q { jobs = restarted_jobs u has_segments now (fresh 0) t q })
                      (All-restarted_jobs (fresh 0) t q (ground (arith, e)) all))
              | inr (false, f) ↦ rw (e, f) further
            ]
          ]
