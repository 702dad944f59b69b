-- ===== src/Sweeps/Cycle.antt =====
-- backend/services/background.py: the rebuilds and the refinements of a sweep, and `sweep` itself with its
-- stages in their order. Whether a session's transcript has a row and a file is an argument.
use knowledgebase_storage.Common.{
  ℕ, suc, ◌-◌, min, String, Bool, true, false, ◌&&◌, Option, none, some, List, [], ◌∷◌, ltb, eqb,
  if◌then◌else◌, take,
}
use knowledgebase_storage.Common.Table.{select}
use knowledgebase_storage.Models.{Job, LlmProvider, NoteDecision, is_done, is_session}
use knowledgebase_storage.Queue.{save, undecided, requeue, reopen, before_time}
use knowledgebase_storage.Queue.Background.{count_pending_background}
use knowledgebase_storage.Queue.Unsummarized.{refinable}
use knowledgebase_storage.Sweeps.{
  sweep_loop, link_attempts, NoteSummary, relation_attempts, ProjectState, overview_attempts,
}

-- `summarized_before`, less its limit: old summaries of sessions whose transcript has a row
unfoldable pub summarized_before :
    (stored : Job → Bool) → List NoteDecision → (now age : ℕ) → List Job → List Job
unfolding select undecided
summarized_before stored decisions now age jobs =
    select
      (λ j.
        is_session j.kind
        && is_done j.status
        && before_time now age j.completed_at
        && undecided decisions j
        && stored j)
      (λ a b. before_completed a.completed_at b.completed_at) jobs
  where
    before_completed : Option ℕ → Option ℕ → Bool
    before_completed none b = false
    before_completed (some s) none = true
    before_completed (some s) (some t) = ltb s t

-- A summary to be made again; one whose transcript has no file waits another round.
unfoldable pub rebuild_each : (has_file : Job → Bool) (now : ℕ) → List Job → List Job → ℕ × List Job
unfolding save requeue
rebuild_each has_file now [] jobs = (0, jobs)
rebuild_each has_file now (j ∷ js) jobs =
    let (n, again) = rebuild_each has_file now js (save now (requeue j) jobs) in
    let (m, later) =
      rebuild_each has_file now js (save now (record j { completed_at = some now }) jobs) in
    if has_file j then (suc n, again) else (m, later)

unfoldable pub reopen_each : (now : ℕ) → List Job → List Job → ℕ × List Job
unfolding save reopen
reopen_each now [] jobs = (0, jobs)
reopen_each now (j ∷ js) jobs =
    let (n, after) = reopen_each now js (save now (reopen now j) jobs) in (suc n, after)

unfoldable pub sweep_rebuilds :
    (stored has_file : Job → Bool)
    → List NoteDecision
    → (now age rebuild_batch_size room : ℕ) → List Job
    → ℕ × List Job
unfolding rebuild_each summarized_before
sweep_rebuilds stored has_file decisions now age rebuild_batch_size room jobs =
    rebuild_each has_file now
      (take (min rebuild_batch_size room) (summarized_before stored decisions now age jobs)) jobs

-- `min(…, default=None)` over the active providers that take background jobs
abbrev pub lower_of : ℕ → Option ℕ → ℕ
lower_of n none = n
lower_of n (some m) = min n m

unfoldable pub best_priority : List LlmProvider → Option ℕ
best_priority [] = none
best_priority (p ∷ ps) =
    let rest = best_priority ps in
    if p.background_jobs then some (lower_of p.priority rest) else rest

unfoldable pub weaker_names : ℕ → List LlmProvider → List String
weaker_names best [] = []
weaker_names best (p ∷ ps) =
    let rest = weaker_names best ps in if ltb best p.priority then p.name ∷ rest else rest

unfoldable pub sweep_weaker :
    (now room : ℕ) → List NoteDecision → List LlmProvider → Option ℕ → List Job → ℕ × List Job
unfolding reopen_each refinable weaker_names
sweep_weaker now room decisions providers none jobs = (0, jobs)
sweep_weaker now room decisions providers (some best) jobs =
    reopen_each now (refinable decisions (weaker_names best providers) room jobs) jobs

-- `providers` are the active ones
unfoldable pub sweep_refinements :
    (now room : ℕ) → List NoteDecision → List LlmProvider → List Job → ℕ × List Job
unfolding sweep_weaker best_priority
sweep_refinements now room decisions providers jobs =
    sweep_weaker now room decisions providers (best_priority providers) jobs

-- One sweep within the room that is left; none is run where no room is.
abbrev pub Stage : Type 0
Stage = (room : ℕ) → List Job → ℕ × List Job

unfoldable pub run_stages : List Stage → (room : ℕ) → List Job → List Job
run_stages [] room jobs = jobs
run_stages (stage ∷ stages) room jobs =
    let (n, after) = stage room jobs in
    let rest = run_stages stages (room - n) after in if eqb room 0 then jobs else rest

-- What `sweep` reads besides the jobs.
pub record SweepInput : Type 0 where
  pub now : ℕ
  pub fresh : ℕ → ℕ → ℕ
  pub background_batch_size : ℕ
  pub background_sweep_seconds : ℕ
  pub rebuild_batch_size : ℕ
  pub rebuild_max_age_seconds : ℕ
  pub stored : Job → Bool
  pub has_file : Job → Bool
  pub decisions : List NoteDecision
  pub providers : List LlmProvider
  pub projects : List ProjectState
  pub pairs : List (String × String)
  pub notes : List NoteSummary

unfoldable pub stages_of : SweepInput → List Stage
unfolding sweep_rebuilds sweep_refinements sweep_loop overview_attempts link_attempts
    relation_attempts
stages_of i =
    (λ room jobs.
      sweep_rebuilds i.stored i.has_file i.decisions i.now i.rebuild_max_age_seconds
        i.rebuild_batch_size room jobs)
    ∷ (λ room jobs.
        sweep_loop room 0
          (overview_attempts (i.fresh 1) i.now i.background_sweep_seconds i.projects) jobs)
    ∷ (λ room jobs.
        sweep_loop room 0 (link_attempts (i.fresh 2) i.now i.background_sweep_seconds i.pairs) jobs)
    ∷ (λ room jobs. sweep_refinements i.now room i.decisions i.providers jobs)
    ∷ (λ room jobs.
        sweep_loop room 0 (relation_attempts (i.fresh 3) i.now i.background_sweep_seconds i.notes)
          jobs)
    ∷ []

-- `sweep` from `room = …` on
unfoldable pub sweep : SweepInput → List Job → List Job
unfolding run_stages stages_of count_pending_background
sweep i jobs =
    run_stages (stages_of i) (i.background_batch_size - count_pending_background jobs) jobs
