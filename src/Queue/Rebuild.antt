-- ===== src/Queue/Rebuild.antt =====
-- `rebuild` of backend/services/ingest.py: sessions whose transcript is stored are summarized again. The
-- transcripts that the query gives are an argument, and `has_segments` says whether `read` of
-- backend/services/extract.py finds a segment, `none` where it raises an error.
use knowledgebase_storage.Common.{
  ℕ, suc, Bool, false, ◌||◌, Option, none, some, List, [], ◌∷◌, if◌then◌else◌, is_some,
}
use knowledgebase_storage.Names.{CharTables, named_project}
use knowledgebase_storage.Models.{Job, ProjectInference, pending, is_pending, is_claimed, new_job}
use knowledgebase_storage.Aliases.{resolve}
use knowledgebase_storage.Queue.{save, find_by_session, decision_of, unclaim}
use knowledgebase_storage.Queue.Service.{Queue}
use knowledgebase_storage.Queue.Background.{or_new}
use knowledgebase_storage.Uploads.{RawTranscript}

-- `job.status in {PENDING, CLAIMED}`
unfoldable pub is_open : Option Job → Bool
is_open none = false
is_open (some job) = is_pending job.status || is_claimed job.status

abbrev pub or_now : Option ℕ → ℕ → ℕ
or_now none now = now
or_now (some t) now = t

unfoldable pub restart : (active_at : ℕ) → Job → Job
restart active_at job = record (unclaim job) {
  status = pending;
  priority = 0;
  attempts = 0;
  last_error = none;
  next_attempt_at = none;
  refined_at = none;
  checkpoint = none;
  last_activity_at = active_at;
}

module _ (u : CharTables) (has_segments : RawTranscript → Option Bool) (now : ℕ) where
  -- the row of a session that has none
  unfoldable pub job_of : (id : ℕ) → RawTranscript → Queue → Job
  unfolding resolve named_project new_job
  job_of id t q =
      new_job id
        (record {
          key = t.key;
          model = none;
          project = resolve u q.aliases (named_project u t.project_hint);
          project_inference = ProjectInference.cwd;
          cwd = t.cwd;
          transcript = none;
          started_at = t.started_at;
          ended_at = t.ended_at;
        })
        now

  unfoldable pub restarted_jobs : (id : ℕ) → RawTranscript → Queue → List Job
  unfolding restart job_of or_new find_by_session save
  restarted_jobs id t q =
      save now
        (restart (or_now t.ended_at now) (or_new (find_by_session t.key q.jobs) (job_of id t q)))
        q.jobs

  -- an error ends the loop; what was saved before stays
  unfoldable pub rebuild : (fresh : ℕ → ℕ) → List RawTranscript → Queue → Queue
  unfolding restarted_jobs is_open find_by_session decision_of
  rebuild fresh [] q = q
  rebuild fresh (t ∷ ts) q =
      let further = rebuild (λ k. fresh (suc k)) ts q in
      let filed =
        rebuild (λ k. fresh (suc k)) ts (record q { jobs = restarted_jobs (fresh 0) t q }) in
      if is_open (find_by_session t.key q.jobs) || is_some (decision_of t.key q.decisions)
      then further
      else elim (has_segments t) [ none ↦ q | some found ↦ if found then filed else further ]
