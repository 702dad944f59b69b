-- ===== src/Sweeps/Attempts.antt =====
-- The waiting jobs after each thing that a sweep may file a job for.
use knowledgebase_storage.Common.{
  ℕ, suc, ◌≤◌, String, inl, inr, Bool, true, false, ◌&&◌, Option, none, some, List, [], ◌∷◌, arith,
  ◌==◌, if◌then◌else◌, Bool-cases, All,
}
use knowledgebase_storage.Models.{Job, JobKind, background_session, project_overview}
use knowledgebase_storage.Queue.{save, find_by_session}
use knowledgebase_storage.Queue.Background.{
  background_key, kind_eq, ensure_background, drop_background, is_idle,
}
use knowledgebase_storage.Sweeps.{
  was_filed, file_unless_tried, link_attempts, relation_attempts, overview_attempts,
  overview_attempt, request_overview, NoteSummary, ProjectState, tried_lately,
}
use knowledgebase_storage.Sweeps.Waiting.{waiting, waiting-save, waiting-delete_where, IsAttempt}

abbrev Within : List Job → Bool × List Job → Type 0
Within jobs r = waiting r.1 ≤ (if r.0 then suc (waiting jobs) else waiting jobs)

Within-same : (jobs : List Job) → Within jobs (false, jobs)
Within-same jobs = omega arith

Within-if :
    (jobs : List Job) (b : Bool) (r s : Bool × List Job)
    → Within jobs r
    → Within jobs s
    → Within jobs (if b then r else s)
Within-if jobs true r s h k = h
Within-if jobs false r s h k = k

Within-save :
    (now : ℕ) (job : Job) (jobs : List Job) (b : Bool)
    → Within jobs (was_filed (if b then (some job, save now job jobs) else (none, jobs)))
Within-save now job jobs true = waiting-save now job jobs
Within-save now job jobs false = omega arith

ensure_background-Within :
    (id now : ℕ) (kind : JobKind) (session_id project : String) (note_path : Option String)
    (jobs : List Job)
    → Within jobs (was_filed (ensure_background id now kind session_id project note_path jobs))
unfolding ensure_background
ensure_background-Within id now kind session_id project note_path jobs =
    Within-save now _ jobs (is_idle (find_by_session (background_key session_id) jobs))

file_unless_tried-IsAttempt :
    (fresh : ℕ → ℕ) (now sweep_seconds : ℕ) (counting_done : Bool) (kind : JobKind)
    (goal project : String) (note_path : Option String)
    → IsAttempt
        (file_unless_tried fresh now sweep_seconds counting_done kind goal project note_path)
unfolding file_unless_tried
file_unless_tried-IsAttempt fresh now sweep_seconds counting_done kind goal project note_path n
      jobs =
    let session_id = background_session kind goal in
    Within-if jobs
      (tried_lately now sweep_seconds counting_done
        (find_by_session (background_key session_id) jobs))
      (false, jobs)
      (was_filed (ensure_background (fresh n) now kind session_id project note_path jobs))
      (Within-same jobs)
      (ensure_background-Within (fresh n) now kind session_id project note_path jobs)

pub link_attempts-All :
    (fresh : ℕ → ℕ) (now sweep_seconds : ℕ) (pairs : List (String × String))
    → All IsAttempt (link_attempts fresh now sweep_seconds pairs)
unfolding link_attempts
link_attempts-All fresh now sweep_seconds [] = tt
link_attempts-All fresh now sweep_seconds (pair ∷ pairs) = (
  file_unless_tried-IsAttempt fresh now sweep_seconds true _ _ _ _,
  link_attempts-All fresh now sweep_seconds pairs,
)

pub relation_attempts-All :
    (fresh : ℕ → ℕ) (now sweep_seconds : ℕ) (notes : List NoteSummary)
    → All IsAttempt (relation_attempts fresh now sweep_seconds notes)
unfolding relation_attempts
relation_attempts-All fresh now sweep_seconds [] = tt
relation_attempts-All fresh now sweep_seconds (note ∷ notes) =
    elim (Bool-cases note.wants_relations) [
      | inl e ↦ rw e (
        file_unless_tried-IsAttempt fresh now sweep_seconds false _ _ _ _,
        relation_attempts-All fresh now sweep_seconds notes,
      )
      | inr e ↦ rw e (relation_attempts-All fresh now sweep_seconds notes)
    ]

request_overview-IsAttempt :
    (fresh : ℕ → ℕ) (now : ℕ) (p : ProjectState) → IsAttempt (request_overview fresh now p)
unfolding request_overview drop_background
request_overview-IsAttempt fresh now p n jobs =
    Within-if jobs p.has_logs
      (was_filed (
        ensure_background (fresh n) now project_overview
          (background_session project_overview p.slug) p.slug none jobs))
      (false, drop_background p.slug project_overview jobs)
      (ensure_background-Within (fresh n) now project_overview
        (background_session project_overview p.slug) p.slug none jobs)
      (waiting-delete_where (λ j. kind_eq j.kind project_overview && j.project == p.slug) jobs)

pub overview_attempts-All :
    (fresh : ℕ → ℕ) (now sweep_seconds : ℕ) (ps : List ProjectState)
    → All IsAttempt (overview_attempts fresh now sweep_seconds ps)
unfolding overview_attempts overview_attempt
overview_attempts-All fresh now sweep_seconds [] = tt
overview_attempts-All fresh now sweep_seconds (p ∷ ps) = (
  λ n jobs.
      Within-if jobs _ (false, jobs) (request_overview fresh now p n jobs) (Within-same jobs)
        (request_overview-IsAttempt fresh now p n jobs),
  overview_attempts-All fresh now sweep_seconds ps,
)
