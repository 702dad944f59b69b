-- ===== src/Sweeps/Room.antt =====
-- How many background jobs a sweep of backend/services/background.py may leave waiting.
use knowledgebase_storage.Common.{
  ℕ, zero, suc, ◌+◌, ◌-◌, ◌≤◌, min, max, ◌≡◌, inl, inr, Bool, false, Option, none, some, List, [],
  ◌∷◌, arith, Bool-cases, length, take, All, All-take, All-unit,
}
use knowledgebase_storage.Common.Table.Laws.{select_passes}
use knowledgebase_storage.Models.{Job, LlmProvider, NoteDecision, is_pending}
use knowledgebase_storage.Queue.{save, requeue, reopen}
use knowledgebase_storage.Queue.Background.{count_pending_background}
use knowledgebase_storage.Queue.Unsummarized.{refinable}
use knowledgebase_storage.Sweeps.Cycle.{
  rebuild_each, reopen_each, sweep_rebuilds, summarized_before, sweep_refinements, sweep_weaker,
  weaker_names, best_priority, SweepInput, stages_of, sweep,
}
use knowledgebase_storage.Sweeps.Waiting.{
  waiting, waiting-save, waiting-save_idle, IsStage, sweep_loop-IsStage, run_stages-bound,
}
use knowledgebase_storage.Sweeps.Attempts.{
  link_attempts-All, relation_attempts-All, overview_attempts-All,
}

length-take : (n : ℕ) (js : List Job) → length (take n js) ≤ n
length-take zero js = omega arith
length-take (suc n) [] = omega arith
length-take (suc n) (j ∷ js) = omega (arith, length-take n js)

abbrev IsIdle : Job → Type 0
IsIdle j = is_pending j.status ≡ false

All-second : (js : List Job) → All (λ j. Unit {0} × IsIdle j) js → All IsIdle js
All-second [] all = tt
All-second (j ∷ js) all = (all.0.1, All-second js all.1)

-- what is counted is at most what is there, and no more jobs wait than were counted
abbrev IsCounted : List Job → List Job → ℕ × List Job → Type 0
IsCounted js jobs r = (r.0 ≤ length js) × (waiting r.1 ≤ r.0 + waiting jobs)

rebuild_each-IsCounted :
    (has_file : Job → Bool) (now : ℕ) (js jobs : List Job)
    → All (λ j. is_pending j.status ≡ false) js
    → IsCounted js jobs (rebuild_each has_file now js jobs)
unfolding rebuild_each
rebuild_each-IsCounted has_file now [] jobs idle = (omega arith, omega arith)
rebuild_each-IsCounted has_file now (j ∷ js) jobs idle = elim (Bool-cases (has_file j)) [
  | inl e ↦
      let rec = rebuild_each-IsCounted has_file now js (save now (requeue j) jobs) idle.1 in
      let step = waiting-save now (requeue j) jobs in
      rw e (omega (arith, rec.0), omega (arith, rec.1, step))
  | inr e ↦
      let later : Job = record j { completed_at = some now } in
      let rec = rebuild_each-IsCounted has_file now js (save now later jobs) idle.1 in
      let step = waiting-save_idle now later jobs idle.0 in
      rw e (omega (arith, rec.0), omega (arith, rec.1, step))
]

reopen_each-IsCounted : (now : ℕ) (js jobs : List Job) → IsCounted js jobs (reopen_each now js jobs)
unfolding reopen_each
reopen_each-IsCounted now [] jobs = (omega arith, omega arith)
reopen_each-IsCounted now (j ∷ js) jobs =
    let rec = reopen_each-IsCounted now js (save now (reopen now j) jobs) in
    let step = waiting-save now (reopen now j) jobs in
    (omega (arith, rec.0), omega (arith, rec.1, step))

sweep_rebuilds-IsStage :
    (stored has_file : Job → Bool) (decisions : List NoteDecision) (now age rebuild_batch_size : ℕ)
    → IsStage (sweep_rebuilds stored has_file decisions now age rebuild_batch_size)
unfolding sweep_rebuilds summarized_before
sweep_rebuilds-IsStage stored has_file decisions now age batch room jobs =
    let old = summarized_before stored decisions now age jobs in
    let idle : All (λ j. is_pending j.status ≡ false) old = All-second old (
      select_passes (λ _. Unit {0}) _ _ (λ j. is_pending j.status ≡ false) jobs
        (λ j e. ground (arith, e)) (All-unit jobs)) in
    let counted =
      rebuild_each-IsCounted has_file now (take (min batch room) old) jobs
        (All-take IsIdle (min batch room) old idle) in
    (omega (arith, counted.0, length-take (min batch room) old), counted.1)

sweep_weaker-IsCounted :
    (now room : ℕ) (decisions : List NoteDecision) (providers : List LlmProvider) (best : Option ℕ)
    (jobs : List Job)
    → let r = sweep_weaker now room decisions providers best jobs in
      (r.0 ≤ room) × (waiting r.1 ≤ r.0 + waiting jobs)
unfolding sweep_weaker refinable
sweep_weaker-IsCounted now room decisions providers none jobs = (omega arith, omega arith)
sweep_weaker-IsCounted now room decisions providers (some best) jobs =
    let found = refinable decisions (weaker_names best providers) room jobs in
    let counted = reopen_each-IsCounted now found jobs in
    (omega (arith, counted.0, length-take room _), counted.1)

stages_of-IsStage : (i : SweepInput) → All IsStage (stages_of i)
unfolding stages_of sweep_refinements
stages_of-IsStage i = (
  λ room jobs.
      sweep_rebuilds-IsStage i.stored i.has_file i.decisions i.now i.rebuild_max_age_seconds
        i.rebuild_batch_size room jobs,
  (
    sweep_loop-IsStage _
        (overview_attempts-All (i.fresh 1) i.now i.background_sweep_seconds i.projects),
    (
      sweep_loop-IsStage _ (link_attempts-All (i.fresh 2) i.now i.background_sweep_seconds i.pairs),
      (
        λ room jobs.
            sweep_weaker-IsCounted i.now room i.decisions i.providers (best_priority i.providers)
              jobs,
        (
          sweep_loop-IsStage _
              (relation_attempts-All (i.fresh 3) i.now i.background_sweep_seconds i.notes),
          tt,
        ),
      ),
    ),
  ),
)

-- A sweep leaves no more background jobs waiting than a batch has, unless more were waiting before, in
-- which case it adds none.
pub sweep_room :
    (i : SweepInput) (jobs : List Job)
    → count_pending_background (sweep i jobs)
      ≤ max i.background_batch_size (count_pending_background jobs)
unfolding sweep
sweep_room i jobs =
    let room = i.background_batch_size - count_pending_background jobs in
    let bound = run_stages-bound (stages_of i) room jobs (stages_of-IsStage i) in
    omega (arith, bound)
