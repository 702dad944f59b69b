-- ===== src/Queue/Decisions.antt =====
-- backend/services/decisions.py and backend/repositories/decision.py: a note that is forgotten holds
-- its session back. The note and transcript files that go with it are not modelled here.
use knowledgebase_storage.Common.{
  ℕ, String, Bool, true, false, ◌||◌, Option, none, some, List, eqb, if◌then◌else◌,
}
use knowledgebase_storage.Common.Table.{put, delete_where}
use knowledgebase_storage.Models.{
  Job, SessionKey, NoteDecision, NoteVerdict, hide, purge, done, is_pending, is_claimed, key_eq,
}
use knowledgebase_storage.Queue.{save, find_by_session, decision_of, unclaim}
use knowledgebase_storage.Queue.Service.{Queue}

abbrev pub is_purge : NoteVerdict → Bool
is_purge purge = true
is_purge hide = false

-- `PURGE if PURGE in (decision.verdict, payload.verdict) else payload.verdict`; a decision that is
-- made now starts with the payload's verdict.
unfoldable pub stronger : Option NoteDecision → NoteVerdict → NoteVerdict
stronger none verdict = verdict
stronger (some held) verdict = if is_purge held.verdict then purge else verdict

unfoldable pub or_made : Option NoteDecision → NoteDecision → NoteDecision
or_made none made = made
or_made (some held) made = held

-- The decision's row, found or made, with the new verdict and reason.
unfoldable pub decide :
    (id : ℕ) → SessionKey → NoteVerdict → (reason : String) → List NoteDecision → List NoteDecision
unfolding stronger or_made decision_of put
decide id key verdict reason decisions =
    let held = decision_of key decisions in
    let made : NoteDecision = record { id = id; key = key; verdict = verdict; reason = reason } in
    let kept = or_made held made in
    put (λ a b. eqb a.id b.id) (record kept { verdict = stronger held verdict; reason = reason })
      decisions

-- What a verdict does to the session's job.
unfoldable pub forget_job : ℕ → Job → Job
forget_job now job =
    let emptied = record job {
      note_path = none;
      base = record job.base { transcript = none };
      checkpoint = none;
    } in
    if is_pending job.status || is_claimed job.status
    then record (unclaim emptied) { status = done; completed_at = some now }
    else emptied

unfoldable pub save_forgotten : ℕ → Option Job → List Job → List Job
unfolding forget_job save
save_forgotten now none jobs = jobs
save_forgotten now (some job) jobs = save now (forget_job now job) jobs

-- `purge` deletes the session's job.
unfoldable pub drop_session : SessionKey → NoteVerdict → List Job → List Job
unfolding delete_where
drop_session key verdict jobs =
    let rest = delete_where (λ j. key_eq j.key key) jobs in if is_purge verdict then rest else jobs

-- `one`, for a note whose source names a session.
unfoldable pub forget_session :
    (id now : ℕ) → SessionKey → NoteVerdict → (reason : String) → Queue → Queue
unfolding decide save_forgotten drop_session find_by_session
forget_session id now key verdict reason q =
    let jobs = save_forgotten now (find_by_session key q.jobs) q.jobs in
    record q {
      jobs = drop_session key verdict jobs;
      decisions = decide id key verdict reason q.decisions;
    }

-- `allow`: the session is no longer held back.
unfoldable pub allow : (decision_id : ℕ) → Queue → Queue
unfolding delete_where
allow decision_id q = record q { decisions = delete_where (λ d. eqb d.id decision_id) q.decisions }

-- `purged`
abbrev pub is_purged : Option NoteDecision → Bool
is_purged none = false
is_purged (some d) = is_purge d.verdict
