-- ===== src/Queue.antt =====
-- backend/repositories/job.py: the rows of the job table and the queries over them. A query that
-- reads the clock takes the reading as `now`; `now - d` of the source is written with `d` on the
-- other side of the comparison. `updated_at` is set by every update, as the column's `onupdate` says.
pub mod Background
pub mod Unsummarized
pub mod Rows
pub mod Tables
pub mod Closed
pub mod Invariant
pub mod Carried
pub mod Documents
pub mod Handover
pub mod Rebuild
pub mod Restarted
pub mod Induction
pub mod Sound
pub mod Tokens
pub mod Claim
pub mod Enqueue
pub mod Retries
pub mod Service
pub mod Workers
pub mod Decisions
pub mod Steps
pub mod Merges
use knowledgebase_storage.Common.{
  ℕ, zero, suc, ◌+◌, ◌-◌, ◌*◌, ◌/◌, ◌%◌, ◌^◌, ◌≤◌, ◌<◌, min, max, String, ◌≡◌, refl, sym, ap, ◌∙◌,
  subst, ◌≢◌, ◌↔◌, ◌⊎◌, inl, inr, Bool, true, false, not, ◌&&◌, ◌||◌, Option, none, some, List, [],
  ◌∷◌, ◌++◌, map, reverse, Memᴰ, arith, ◌==◌, eq_iff, eq_refl, ltb, leb, eqb, if◌then◌else◌,
  Bool-cases, Option-cases, is_none, is_some, holds_text, or_text, take_text, ◌<>◌, length, take,
  All, keep, contains,
}
use knowledgebase_storage.Common.Table.{first, update_where, delete_where, count_where, put, select}
use knowledgebase_storage.Models.{
  Job, JobKind, JobStatus, SessionKey, NoteDecision, LlmProvider, key_eq, is_session, is_pending,
  is_claimed, is_done, is_failed, is_settled, done, claimed, pending, background_agent,
  background_priority, session,
}
use knowledgebase_storage.Names.{CharTables}

abbrev pub same_row : Job → Job → Bool
same_row a b = eqb a.id b.id

-- `DBRepositoryImpl.save` of a job.
unfoldable pub save : ℕ → Job → List Job → List Job
unfolding put
save now job jobs = put same_row (record job { updated_at = now }) jobs

-- `bulk_update`: the rows, with the time of the update.
unfoldable pub bulk_update : ℕ → (Job → Bool) → (Job → Job) → List Job → List Job
unfolding update_where
bulk_update now test change jobs =
    update_where test (λ j. record (change j) { updated_at = now }) jobs

unfoldable pub retrieve_by_id : ℕ → List Job → Option Job
unfolding first
retrieve_by_id id jobs = first (λ j. eqb j.id id) jobs

unfoldable pub find_by_session : SessionKey → List Job → Option Job
unfolding first
find_by_session key jobs = first (λ j. key_eq j.key key) jobs

-- `NoteDecisionRepository.of`
unfoldable pub decision_of : SessionKey → List NoteDecision → Option NoteDecision
unfolding first
decision_of key decisions = first (λ d. key_eq d.key key) decisions

unfoldable pub undecided : List NoteDecision → Job → Bool
unfolding decision_of
undecided decisions job = is_none (decision_of job.key decisions)

-- `next_attempt_at is None or next_attempt_at <= now`
abbrev pub due : ℕ → Option ℕ → Bool
due now none = true
due now (some t) = leb t now

unfoldable pub provider_weaker : ℕ → String → List LlmProvider → Bool
provider_weaker priority name [] = false
provider_weaker priority name (p ∷ ps) =
    (p.name == name && ltb priority p.priority) || provider_weaker priority name ps

-- `worse` of `claim_next`: the summarizer is a provider of a larger priority number
unfoldable pub worse : List LlmProvider → Option ℕ → Option String → Bool
unfolding provider_weaker
worse providers none summarizer = false
worse providers (some priority) none = false
worse providers (some priority) (some name) = provider_weaker priority name providers

-- The `where` clause of `claim_next`.
unfoldable pub claimable :
    List LlmProvider → List NoteDecision → ℕ → ℕ → Bool → Option ℕ → Job → Bool
unfolding worse undecided
claimable providers decisions now idle background priority j =
    is_pending j.status
    && (not (is_session j.kind) || leb (j.last_activity_at + idle) now)
    && due now j.next_attempt_at
    && (background || eqb j.priority 0)
    && (is_none j.refined_at || worse providers priority j.summarizer)
    && (not (is_session j.kind) || undecided decisions j)

-- `order_by=[col(Job.priority), col(Job.created_at)]`
abbrev pub before_in_queue : Job → Job → Bool
before_in_queue a b =
    ltb a.priority b.priority || (eqb a.priority b.priority && ltb a.created_at b.created_at)

-- What `claim_next` writes into the row that it hands out.
unfoldable pub mark_claimed : ℕ → String → ℕ → Job → Job
mark_claimed now worker token j = record j {
  status = claimed;
  claimed_at = some now;
  claimed_by = some worker;
  claim_token = some token;
  progress = none;
  updated_at = now;
}

unfoldable pub hand_out : ℕ → String → ℕ → List Job → List Job → Option Job × List Job
unfolding mark_claimed save
hand_out now worker token [] jobs = (none, jobs)
hand_out now worker token (j ∷ _) jobs =
    let job = mark_claimed now worker token j in (some job, save now job jobs)

-- `locked` are the rows that another transaction holds (`skip_locked`); `limit=1` is the head.
unfoldable pub claim_next :
    List LlmProvider
    → List NoteDecision
    → (ℕ → Bool)
    → (worker : String) (now idle : ℕ) (background : Bool) (priority : Option ℕ) (token : ℕ)
    → List Job
    → Option Job × List Job
unfolding claimable select hand_out
claim_next providers decisions locked worker now idle background priority token jobs =
    hand_out now worker token
      (select
        (λ j. claimable providers decisions now idle background priority j && not (locked j.id))
        before_in_queue jobs)
      jobs

-- `func.greatest`, which passes over NULL
unfoldable pub greatest : Option ℕ → Option ℕ → Option ℕ
greatest none b = b
greatest (some a) none = some a
greatest (some a) (some b) = some (max a b)

abbrev pub before_time : ℕ → ℕ → Option ℕ → Bool
before_time now age none = false
before_time now age (some t) = ltb (t + age) now

unfoldable pub is_stale : ℕ → ℕ → Job → Bool
unfolding greatest
is_stale now stale_after j =
    is_claimed j.status && before_time now stale_after (greatest j.claimed_at j.heartbeat_at)

abbrev pub unclaim : Job → Job
unclaim j = record j { claimed_at = none; claimed_by = none; claim_token = none }

unfoldable pub reclaim_stale : ℕ → ℕ → List Job → List Job
unfolding is_stale bulk_update
reclaim_stale now stale_after jobs =
    bulk_update now (is_stale now stale_after) (λ j. record (unclaim j) { status = pending }) jobs

unfoldable pub is_expired : ℕ → ℕ → Job → Bool
is_expired now retention j =
    is_session j.kind
    && (is_some j.transcript || is_some j.checkpoint)
    && ltb (j.last_activity_at + retention) now
    && is_settled j.status

unfoldable pub drop_transcript : Job → Job
drop_transcript j = record j { base = record j.base { transcript = none }; checkpoint = none }

unfoldable pub purge_transcripts : ℕ → ℕ → List Job → List Job
unfolding is_expired bulk_update drop_transcript
purge_transcripts now retention jobs =
    bulk_update now (is_expired now retention) drop_transcript jobs

unfoldable pub is_decided : List NoteDecision → Job → Bool
unfolding undecided
is_decided decisions j = is_session j.kind && is_pending j.status && not (undecided decisions j)

unfoldable pub settle_row : ℕ → Job → Job
settle_row now j = record j {
  status = done;
  completed_at = some now;
  base = record j.base { transcript = none };
  claim_token = none;
  checkpoint = none;
}

unfoldable pub settle_decided : ℕ → List NoteDecision → List Job → List Job
unfolding is_decided settle_row bulk_update
settle_decided now decisions jobs = bulk_update now (is_decided decisions) (settle_row now) jobs

unfoldable pub reopen : ℕ → Job → Job
reopen now j = record j {
  status = pending;
  priority = background_priority;
  refined_at = some now;
  attempts = 0;
  next_attempt_at = none;
}

unfoldable pub requeue : Job → Job
requeue j = record j {
  status = pending;
  priority = background_priority;
  attempts = 0;
  last_error = none;
  next_attempt_at = none;
  refined_at = none;
  claimed_at = none;
  claimed_by = none;
  claim_token = none;
  checkpoint = none;
}
