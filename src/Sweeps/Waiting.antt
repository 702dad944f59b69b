-- ===== src/Sweeps/Waiting.antt =====
-- How many background jobs wait, and what a loop and the stages of a sweep add to them.
use knowledgebase_storage.Common.{
  ℕ, suc, ◌+◌, ◌-◌, ◌≤◌, ◌≡◌, inl, inr, Bool, false, ◌&&◌, List, [], ◌∷◌, arith, ltb, leb, eqb,
  if◌then◌else◌, Bool-cases, All, keep,
}
use knowledgebase_storage.Common.Table.{put, count_where, delete_where}
use knowledgebase_storage.Models.{Job, is_pending}
use knowledgebase_storage.Queue.{save, same_row}
use knowledgebase_storage.Queue.Background.{count_pending_background}
use knowledgebase_storage.Sweeps.{Attempt, sweep_loop}
use knowledgebase_storage.Sweeps.Cycle.{Stage, run_stages}

abbrev pub waiting : List Job → ℕ
waiting = count_pending_background

waits : Job → Bool
waits j = is_pending j.status && ltb 0 j.priority

waiting-put : (j : Job) (jobs : List Job) → waiting (put same_row j jobs) ≤ suc (waiting jobs)
unfolding count_pending_background count_where put
waiting-put j [] = ground arith
waiting-put j (k ∷ ks) = ground (arith, waiting-put j ks)

pub waiting-save :
    (now : ℕ) (j : Job) (jobs : List Job) → waiting (save now j jobs) ≤ suc (waiting jobs)
unfolding save
waiting-save now j jobs = waiting-put (record j { updated_at = now }) jobs

waiting-put_idle :
    (j : Job) (jobs : List Job)
    → is_pending j.status ≡ false
    → waiting (put same_row j jobs) ≤ waiting jobs
unfolding count_pending_background count_where put
waiting-put_idle j [] h = ground (arith, h)
waiting-put_idle j (k ∷ ks) h = ground (arith, h, waiting-put_idle j ks h)

pub waiting-delete_where :
    (test : Job → Bool) (jobs : List Job) → waiting (delete_where test jobs) ≤ waiting jobs
unfolding count_pending_background count_where delete_where keep
waiting-delete_where test [] = ground arith
waiting-delete_where test (k ∷ ks) = ground (arith, waiting-delete_where test ks)

pub waiting-save_idle :
    (now : ℕ) (j : Job) (jobs : List Job)
    → is_pending j.status ≡ false
    → waiting (save now j jobs) ≤ waiting jobs
unfolding save
waiting-save_idle now j jobs h = waiting-put_idle (record j { updated_at = now }) jobs h

-- an attempt that files adds one job at most, and one that does not adds none
abbrev pub IsAttempt : Attempt → Type 0
IsAttempt f =
    (n : ℕ) (jobs : List Job)
    → waiting (f n jobs).1 ≤ (if (f n jobs).0 then suc (waiting jobs) else waiting jobs)

-- what a sweep reports is within its room, and it adds no more than it reports
abbrev pub IsStage : Stage → Type 0
IsStage f =
    (room : ℕ) (jobs : List Job)
    → ((f room jobs).0 ≤ room) × (waiting (f room jobs).1 ≤ (f room jobs).0 + waiting jobs)

sweep_loop-bound :
    (room enqueued : ℕ) (attempts : List Attempt) (jobs : List Job)
    → All IsAttempt attempts
    → enqueued ≤ room
    → let r = sweep_loop room enqueued attempts jobs in
      (r.0 ≤ room) × (waiting r.1 + enqueued ≤ r.0 + waiting jobs)
unfolding sweep_loop
sweep_loop-bound room enqueued [] jobs all le = (le, omega arith)
sweep_loop-bound room enqueued (f ∷ fs) jobs all le = elim (Bool-cases (leb room enqueued)) [
  | inl e ↦ rw e (le, omega arith)
  | inr e ↦ elim (Bool-cases (f enqueued jobs).0) [
    | inl b ↦
        let step : waiting (f enqueued jobs).1 ≤ suc (waiting jobs) =
          rw b at (all.0 enqueued jobs) in
        let rec =
          sweep_loop-bound room (suc enqueued) fs (f enqueued jobs).1 all.1 (ground (arith, e)) in
        rw (e, b) (rec.0, omega (arith, rec.1, step))
    | inr b ↦
        let step : waiting (f enqueued jobs).1 ≤ waiting jobs = rw b at (all.0 enqueued jobs) in
        let rec = sweep_loop-bound room enqueued fs (f enqueued jobs).1 all.1 le in
        rw (e, b) (rec.0, omega (arith, rec.1, step))
  ]
]

pub sweep_loop-IsStage :
    (attempts : List Attempt)
    → All IsAttempt attempts
    → IsStage (λ room jobs. sweep_loop room 0 attempts jobs)
sweep_loop-IsStage attempts all room jobs =
    let (a, b) = sweep_loop-bound room 0 attempts jobs all (omega arith) in (a, omega (arith, b))

pub run_stages-bound :
    (stages : List Stage) (room : ℕ) (jobs : List Job)
    → All IsStage stages
    → waiting (run_stages stages room jobs) ≤ room + waiting jobs
unfolding run_stages
run_stages-bound [] room jobs all = omega arith
run_stages-bound (f ∷ fs) room jobs all = elim (Bool-cases (eqb room 0)) [
  | inl e ↦ rw e (omega arith)
  | inr e ↦
      let step = all.0 room jobs in
      let rec = run_stages-bound fs (room - (f room jobs).0) (f room jobs).1 all.1 in
      rw e (omega (arith, step.0, step.1, rec))
]
