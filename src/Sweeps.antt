-- ===== src/Sweeps.antt =====
-- backend/services/background.py: the sweeps that file background jobs, each within the room that is
-- left. What a sweep reads from note files, the transcripts' files and the entries is an argument: the
-- pairs worth judging, the summaries of notes, and the projects whose overview is stale and has logs.
-- `fresh` gives the identifier of each new row.
pub mod Cycle
pub mod Waiting
pub mod Attempts
pub mod Room
pub mod Trivial
pub mod Pairs
use knowledgebase_storage.Common.{
  ℕ, zero, suc, ◌+◌, ◌-◌, ◌*◌, ◌/◌, ◌%◌, ◌^◌, ◌≤◌, ◌<◌, min, max, String, ◌≡◌, refl, sym, ap, ◌∙◌,
  subst, ◌≢◌, ◌↔◌, ◌⊎◌, inl, inr, Bool, true, false, not, ◌&&◌, ◌||◌, Option, none, some, List, [],
  ◌∷◌, ◌++◌, map, reverse, Memᴰ, arith, ◌==◌, eq_iff, eq_refl, ltb, leb, eqb, if◌then◌else◌,
  Bool-cases, Option-cases, is_none, is_some, holds_text, or_text, take_text, ◌<>◌, length,
  length-append, take, All, keep, contains,
}
use knowledgebase_storage.Common.Table.{select}
use knowledgebase_storage.Models.{
  Job, JobKind, LlmProvider, NoteDecision, project_overview, project_link, note_relations, is_done,
  is_failed, is_session, background_session,
}
use knowledgebase_storage.Queue.{save, find_by_session, undecided, requeue, reopen, before_time}
use knowledgebase_storage.Queue.Background.{
  background_key, ensure_background, drop_background, count_pending_background,
}
use knowledgebase_storage.Queue.Unsummarized.{refinable}

-- `stamp is not None and stamp > now - age`
abbrev pub after_time : ℕ → ℕ → Option ℕ → Bool
after_time now age none = false
after_time now age (some t) = ltb now (t + age)

unfoldable pub tried_lately : (now sweep_seconds : ℕ) → (counting_done : Bool) → Option Job → Bool
tried_lately now sweep_seconds counting_done none = false
tried_lately now sweep_seconds counting_done (some previous) =
    let ended =
      counting_done
      && is_done previous.status
      && after_time now sweep_seconds previous.completed_at in
    if is_failed previous.status
    then after_time now sweep_seconds (some previous.updated_at)
    else ended

-- One thing that a sweep may file a job for: whether it did, and the table.
abbrev pub Attempt : Type 0
Attempt = ℕ → List Job → Bool × List Job

-- The loop of a sweep: at most `room` jobs are filed.
unfoldable pub sweep_loop : (room enqueued : ℕ) → List Attempt → List Job → ℕ × List Job
sweep_loop room enqueued [] jobs = (enqueued, jobs)
sweep_loop room enqueued (attempt ∷ rest) jobs =
    let (filed, after) = attempt enqueued jobs in
    let next = sweep_loop room (if filed then suc enqueued else enqueued) rest after in
    if leb room enqueued then (enqueued, jobs) else next

abbrev pub was_filed : Option Job × List Job → Bool × List Job
was_filed (job, jobs) = (is_some job, jobs)

-- A background job is filed unless it was tried lately.
unfoldable pub file_unless_tried :
    (fresh : ℕ → ℕ) (now sweep_seconds : ℕ) (counting_done : Bool)
    → JobKind
    → (target project : String) → (note_path : Option String) → Attempt
unfolding tried_lately find_by_session ensure_background
file_unless_tried fresh now sweep_seconds counting_done kind target project note_path enqueued
      jobs =
    let session_id = background_session kind target in
    let filed =
      was_filed (ensure_background (fresh enqueued) now kind session_id project note_path jobs) in
    if tried_lately now sweep_seconds counting_done
      (find_by_session (background_key session_id) jobs)
    then (false, jobs)
    else filed

abbrev pub joined_pair : String × String → String
joined_pair (left, right) = left <> ("~" <> right)

unfoldable pub link_attempts :
    (fresh : ℕ → ℕ) (now sweep_seconds : ℕ) → List (String × String) → List Attempt
unfolding file_unless_tried
link_attempts fresh now sweep_seconds [] = []
link_attempts fresh now sweep_seconds (pair ∷ pairs) =
    file_unless_tried fresh now sweep_seconds true project_link (joined_pair pair) pair.0
      (some (joined_pair pair))
    ∷ link_attempts fresh now sweep_seconds pairs

-- A note that a sweep of relations looks at: its path, its project, and whether it is a log whose
-- relations were never written.
pub record NoteSummary : Type 0 where
  pub path : String
  pub project : String
  pub wants_relations : Bool

unfoldable pub relation_attempts :
    (fresh : ℕ → ℕ) (now sweep_seconds : ℕ) → List NoteSummary → List Attempt
unfolding file_unless_tried
relation_attempts fresh now sweep_seconds [] = []
relation_attempts fresh now sweep_seconds (note ∷ notes) =
    let rest = relation_attempts fresh now sweep_seconds notes in
    if note.wants_relations
    then file_unless_tried fresh now sweep_seconds false note_relations note.path note.project
        (some note.path)
      ∷ rest
    else rest

-- A project that a sweep of overviews looks at: the name of its directory, and the slug that this name
-- resolves to.
pub record ProjectState : Type 0 where
  pub directory : String
  pub slug : String
  pub is_stale_overview : Bool
  pub has_logs : Bool

-- `request_overview`: a project without logs loses its job instead
unfoldable pub request_overview : (fresh : ℕ → ℕ) (now : ℕ) → ProjectState → Attempt
unfolding ensure_background drop_background
request_overview fresh now p enqueued jobs =
    let session_id = background_session project_overview p.slug in
    let filed =
      was_filed
        (ensure_background (fresh enqueued) now project_overview session_id p.slug none jobs) in
    if p.has_logs then filed else (false, drop_background p.slug project_overview jobs)

unfoldable pub overview_attempt : (fresh : ℕ → ℕ) (now sweep_seconds : ℕ) → ProjectState → Attempt
unfolding tried_lately request_overview find_by_session
overview_attempt fresh now sweep_seconds p enqueued jobs =
    let requested = request_overview fresh now p enqueued jobs in
    let session_id = background_session project_overview p.directory in
    if not p.is_stale_overview
      || tried_lately now sweep_seconds false (find_by_session (background_key session_id) jobs)
    then (false, jobs)
    else requested

unfoldable pub overview_attempts :
    (fresh : ℕ → ℕ) (now sweep_seconds : ℕ) → List ProjectState → List Attempt
unfolding overview_attempt
overview_attempts fresh now sweep_seconds [] = []
overview_attempts fresh now sweep_seconds (p ∷ ps) =
    overview_attempt fresh now sweep_seconds p ∷ overview_attempts fresh now sweep_seconds ps
