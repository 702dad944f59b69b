-- ===== src/Queue/Workers.antt =====
-- backend/services/jobs.py and backend/routes/jobs.py: the claim of a job, and the requests that a worker makes
-- under its claim token. A method that changes the job in place returns the new row.
use mathlib.Core.Option
use knowledgebase_storage.Common.{
  ℕ, ◌+◌, ◌-◌, ◌*◌, ◌^◌, min, max, String, Bool, false, not, ◌&&◌, ◌||◌, Option, none, some, List,
  ◌==◌, ltb, eqb, if◌then◌else◌, is_some, take_text,
}
use knowledgebase_storage.Common.Result.{
  Result, ok, raised, resource_not_found, stale_claim, job_not_failed, ◌>>=◌, ◌>>◌, raise_if,
}
use knowledgebase_storage.Common.Table.{first}
use knowledgebase_storage.Models.{Job, LlmProvider, pending, done, failed, is_claimed, is_failed}
use knowledgebase_storage.Models.Json.{Fields}
use knowledgebase_storage.Queue.{retrieve_by_id, claim_next, unclaim}
use knowledgebase_storage.Queue.Service.{
  Queue, backoff_base_seconds, backoff_cap_seconds, progress_chars, or_kept,
}

-- `verify_claim`
abbrev pub holds_token : Option ℕ → ℕ → Bool
holds_token none token = false
holds_token (some t) token = eqb t token

unfoldable pub verify_claim : Job → ℕ → Result (Unit {0})
verify_claim job token =
    raise_if (not (is_claimed job.status) || not (holds_token job.claim_token token)) stale_claim

unfoldable pub found : Option Job → Result Job
found none = raised resource_not_found
found (some job) = ok job

unfoldable pub retrieve : ℕ → List Job → Result Job
unfolding found retrieve_by_id
retrieve id jobs = found (retrieve_by_id id jobs)

unfoldable pub claim_held : (id token : ℕ) → List Job → Result Job
unfolding retrieve verify_claim
claim_held id token jobs = do job ← retrieve id jobs; verify_claim job token; ok job

unfoldable pub heartbeat : ℕ → Job → Job
heartbeat now job = record job { heartbeat_at = some now }

unfoldable pub report : ℕ → String → Option Fields → Job → Job
unfolding heartbeat take_text
report now progress checkpoint job = heartbeat now (record job {
  progress = some (take_text progress_chars progress);
  checkpoint = or_kept checkpoint job.checkpoint;
})

unfoldable pub release : (now retry_after_seconds : ℕ) → Job → Job
release now retry_after_seconds job = record (unclaim job) {
  status = pending;
  next_attempt_at = if eqb retry_after_seconds 0 then none else some (now + retry_after_seconds);
}

-- `job.claimed_at is not None and job.last_activity_at > job.claimed_at`
unfoldable pub went_on : Job → Bool
went_on job = elim job.claimed_at [ none ↦ false | some t ↦ ltb t job.last_activity_at ]

unfoldable pub written : ℕ → String → Job → Job
unfolding went_on
written now summarizer job =
    let stamped = record job {
      summarizer = some summarizer;
      completed_at = some now;
      last_error = none;
      claim_token = none;
    } in
    if went_on job
    then record stamped { status = pending; claimed_at = none; claimed_by = none }
    else record stamped { status = done; checkpoint = none }

unfoldable pub settle : ℕ → String → Job → Job
settle now summarizer job = record job {
  summarizer = some summarizer;
  completed_at = some now;
  last_error = none;
  claim_token = none;
  status = done;
  base = record job.base { transcript = none };
  checkpoint = none;
}

unfoldable pub backoff : ℕ → ℕ
backoff attempts = min (backoff_base_seconds * 2 ^ (attempts - 1)) backoff_cap_seconds

unfoldable pub fail : (limit now : ℕ) → String → Job → Job
unfolding backoff
fail limit now error job =
    let tried = record (unclaim job) { last_error = some error; attempts = job.attempts + 1 } in
    let settled = is_some job.refined_at && is_some job.completed_at in
    let over = record tried { next_attempt_at = none } in
    if ltb (job.attempts + 1) limit
    then record tried {
      status = pending;
      next_attempt_at = some (now + backoff (job.attempts + 1));
    }
    else if settled
    then record over { status = done; checkpoint = none }
    else record over { status = failed }

unfoldable pub retry : Job → Result Job
retry job = do
  raise_if (not (is_failed job.status)) job_not_failed
  ok (record (unclaim job) { status = pending; attempts = 0; next_attempt_at = none })

-- `find_by_name`, and the provider's say on background work and its priority
unfoldable pub provider_named : Option String → List LlmProvider → Option LlmProvider
unfolding first
provider_named none providers = none
provider_named (some name) providers =
    if name == "" then none else first (λ p. p.name == name) providers

abbrev pub takes_background : Option LlmProvider → Bool
takes_background none = false
takes_background (some p) = p.background_jobs

unfoldable pub claim :
    (locked : ℕ → Bool) (now : ℕ) (worker : String)
    → Option String
    → (min_age_seconds token : ℕ) → Queue
    → Option Job × Queue
unfolding provider_named claim_next
claim locked now worker provider_name min_age_seconds token q =
    let provider = provider_named provider_name q.providers in
    let (job, jobs) =
      claim_next q.providers q.decisions locked worker now
        (max q.settings.job_idle_seconds min_age_seconds) (takes_background provider)
        (Option.map (λ p. p.priority) provider) token q.jobs in
    (job, record q { jobs = jobs })
