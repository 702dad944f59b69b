-- ===== src/Sweeps/Trivial.antt =====
-- `settle_trivial` of backend/services/background.py, and `sweep` from its beginning. `decode` makes lines of a
-- file's bytes, and `slash_only` is what `SLASH_ONLY` of backend/services/extract.py matches.
pub mod Rows
pub mod Outcome
use knowledgebase_storage.Common.{
  ℕ, suc, String, Bool, true, false, not, is_some, Option, none, some, List, [], ◌∷◌, if◌then◌else◌,
}
use knowledgebase_storage.Models.{Job}
use knowledgebase_storage.Blobs.{Bytes, read_bytes}
use knowledgebase_storage.Uploads.{Paths, Storage, find_transcript}
use knowledgebase_storage.Extract.Values.{Texts}
use knowledgebase_storage.Extract.Codex.{Patterns}
use knowledgebase_storage.Extract.Rendered.{substantial, read}
use knowledgebase_storage.Queue.{save, settle_decided}
use knowledgebase_storage.Queue.Unsummarized.{settle_without_note, pending_sessions}
use knowledgebase_storage.Sweeps.Cycle.{SweepInput, sweep}

abbrev pub trivial_scan : ℕ
trivial_scan = 10

module _ (p : Texts) (q : Patterns) (slash_only : String → Bool) (decode : Bytes → List String)
    (paths : Paths) (storage : Storage) where
  -- Whether the session's transcript is stored, and not substantial; `none` where reading it raises an error.
  unfoldable pub judged : Job → Option Bool
  unfolding find_transcript read_bytes substantial read
  judged job = elim (find_transcript job.key storage.transcripts) [
    | none ↦ some false
    | some t ↦ elim (read_bytes (paths.transcript_path t.key) storage.files) [
      | none ↦ some false
      | some content ↦ elim (read p q (some (decode content))) [
        | none ↦ none
        | some reader ↦ some (not (substantial p.is_space slash_only reader))
      ]
    ]
  ]

  unfoldable pub asks_nothing : Job → Bool
  unfolding judged
  asks_nothing job = elim (judged job) [ none ↦ false | some nothing ↦ nothing ]

  unfoldable pub is_readable : Job → Bool
  unfolding judged
  is_readable job = is_some (judged job)

  -- One session of the scan: one that asked for nothing is settled, any other is looked at last next time.
  unfoldable pub settle_one : (now : ℕ) → Job → List Job → Bool × List Job
  unfolding asks_nothing settle_without_note save
  settle_one now job jobs =
      let settled = settle_without_note now job job.last_activity_at jobs in
      if asks_nothing job then settled else (false, save now job jobs)

  -- Whether an error ended the loop, how many sessions were settled, and the table.
  unfoldable pub settle_each : (now : ℕ) → List Job → List Job → Bool × ℕ × List Job
  unfolding settle_one is_readable
  settle_each now [] jobs = (false, 0, jobs)
  settle_each now (job ∷ rest) jobs =
      let (hit, after) = settle_one now job jobs in
      let (raised, settled, last) = settle_each now rest after in
      if is_readable job
      then (raised, if hit then suc settled else settled, last)
      else (true, 0, jobs)

  unfoldable pub settle_trivial : (now job_idle_seconds : ℕ) → List Job → Bool × ℕ × List Job
  unfolding settle_each pending_sessions
  settle_trivial now job_idle_seconds jobs =
      settle_each now (pending_sessions now job_idle_seconds trivial_scan jobs) jobs

  -- `sweep`: what is held back and what asked for nothing is settled before the room is measured; an error
  -- of `settle_trivial` ends it
  unfoldable pub sweep_all : SweepInput → (job_idle_seconds : ℕ) → List Job → List Job
  unfolding settle_decided settle_trivial sweep
  sweep_all i job_idle_seconds jobs =
      let (raised, settled, after) =
        settle_trivial i.now job_idle_seconds (settle_decided i.now i.decisions jobs) in
      let swept = sweep i after in if raised then after else swept
