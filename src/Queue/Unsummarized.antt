-- ===== src/Queue/Unsummarized.antt =====
-- backend/repositories/queue.py: the queries for sessions that wait for a summary or for a better one, and
-- `settle_without_note`.
use knowledgebase_storage.Common.{
  ℕ, ◌+◌, String, Bool, false, not, ◌&&◌, ◌||◌, Option, none, some, List, ◌==◌, ltb, leb, eqb,
  is_none, is_some, or_text, take, contains,
}
use knowledgebase_storage.Common.Table.{count_where, select}
use knowledgebase_storage.Models.{
  Job, NoteDecision, done, background_agent, is_session, is_pending, is_done, is_claimed,
}
use knowledgebase_storage.Queue.{same_row, bulk_update, undecided, due}

-- `col(Job.summarizer).in_(summarizers)`
unfoldable pub summarized_by : List String → Option String → Bool
summarized_by summarizers none = false
summarized_by summarizers (some name) = contains summarizers name

unfoldable pub refinable : List NoteDecision → List String → ℕ → List Job → List Job
unfolding summarized_by select undecided
refinable decisions summarizers limit jobs = take limit (
    select
      (λ j.
        is_session j.kind
        && is_done j.status
        && is_some j.transcript
        && is_none j.refined_at
        && is_some j.note_path
        && summarized_by summarizers j.summarizer
        && undecided decisions j)
      (λ a b. ltb a.created_at b.created_at) jobs)

-- The `query_filter` and the values of `settle_without_note`.
unfoldable pub is_noteless : Job → (seen : ℕ) → Job → Bool
is_noteless job seen j =
    same_row j job
    && is_pending j.status
    && eqb j.last_activity_at seen
    && is_none j.note_path
    && eqb j.priority 0

unfoldable pub settle_noteless : ℕ → Job → Job
settle_noteless now j = record j {
  status = done;
  completed_at = some now;
  base = record j.base { transcript = none };
  summarizer = some background_agent;
  last_error = none;
  checkpoint = none;
}

unfoldable pub settle_without_note : (now : ℕ) → Job → (seen : ℕ) → List Job → Bool × List Job
unfolding count_where bulk_update is_noteless settle_noteless
settle_without_note now job seen jobs = (
  ltb 0 (count_where (is_noteless job seen) jobs),
  bulk_update now (is_noteless job seen) (settle_noteless now) jobs,
)

unfoldable pub pending_sessions : (now idle limit : ℕ) → List Job → List Job
unfolding select
pending_sessions now idle limit jobs = take limit (
    select
      (λ j.
        is_session j.kind
        && is_pending j.status
        && eqb j.priority 0
        && due now j.next_attempt_at
        && leb (j.last_activity_at + idle) now
        && is_none j.note_path)
      (λ a b. ltb a.updated_at b.updated_at) jobs)

-- `col(Job.session_id) != (exclude_session_id or "")`
unfoldable pub list_unsummarized :
    List NoteDecision → String → Option String → ℕ → List Job → List Job
unfolding select undecided
list_unsummarized decisions project exclude limit jobs = take limit (
    select
      (λ j.
        is_session j.kind
        && j.project == project
        && (is_pending j.status || is_claimed j.status)
        && not (j.key.session_id == or_text exclude "")
        && undecided decisions j)
      (λ a b. ltb b.last_activity_at a.last_activity_at) jobs)
