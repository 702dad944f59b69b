-- ===== src/Queue/Retries.antt =====
-- `fail`, `backoff` and `written` of backend/services/jobs.py, and `reclaim_stale` of
-- backend/repositories/job.py: how often a job is tried, when it is tried again, and who loses a claim.
use native.Mathlib.Nat.{pow-suc}
use native.Mathlib.Numerals.{towards_suc}
use knowledgebase_storage.Common.{
  ℕ, zero, suc, ◌+◌, ◌-◌, ◌*◌, ◌^◌, ◌≤◌, ◌<◌, String, ◌≡◌, ap, ◌∙◌, ◌↔◌, inl, inr, true, ◌&&◌,
  Option, none, some, List, [], ◌∷◌, arith, ltb, if◌then◌else◌, Option-cases, is_some, length,
}
use knowledgebase_storage.Models.{Job, JobBase, JobStatus, is_claimed}
use knowledgebase_storage.Models.Json.{Json, Message}
use knowledgebase_storage.Names.{CharTables}
use knowledgebase_storage.Queue.{mark_claimed, is_stale, greatest}
use knowledgebase_storage.Queue.Service.{continued_job, backoff_base_seconds, backoff_cap_seconds}
use knowledgebase_storage.Queue.Workers.{backoff, fail, written}

pow_pos : (n : ℕ) → 1 ≤ 2 ^ n
pow_pos zero = omega arith
pow_pos (suc n) = omega (arith, pow_pos n, pow-suc 2 n)

pow_double : (n : ℕ) → 2 ^ suc n ≡ 2 * 2 ^ n
pow_double n = omega (arith, pow-suc 2 n)

pow_six : (n : ℕ) → 2 ^ (n + 6) ≡ 64 * 2 ^ n
pow_six n = simp towards_suc (
    omega (
      arith,
      pow_double n,
      pow_double (suc n),
      pow_double (suc (suc n)),
      pow_double (suc (suc (suc n))),
      pow_double (suc (suc (suc (suc n)))),
      pow_double (suc (suc (suc (suc (suc n))))),
    ))

pow_index : (n : ℕ) → 2 ^ (suc n - 1) ≡ 2 ^ n
pow_index n = ap (λ (k : ℕ). 2 ^ k) (omega arith)

pow_seventh : (n : ℕ) → 2 ^ (suc n + 6 - 1) ≡ 2 ^ (n + 6)
pow_seventh n = ap (λ (k : ℕ). 2 ^ k) (omega arith)

-- The waits between tries: at least a minute, at most an hour, never shorter than the one before, and
-- an hour from the seventh failure on.
backoff_schedule :
    (n : ℕ)
    → (backoff_base_seconds ≤ backoff (suc n))
      × (backoff (suc n) ≤ backoff_cap_seconds)
      × (backoff (suc n) ≤ backoff (suc (suc n)))
      × (backoff (suc n + 6) ≡ backoff_cap_seconds)
unfolding backoff
backoff_schedule n =
    let one = pow_pos n in
    let two = pow_double n in
    let many : 2 ^ (n + 6) ≡ 64 * 2 ^ n = pow_six n in
    (
      omega (arith, pow_index n),
      omega arith,
      omega (arith, pow_index n, pow_index (suc n)),
      omega (arith, pow_seventh n),
    )

-- A row that is claimed and then fails, once for each pair of a time and an error.
pub after_failures : (limit : ℕ) (worker : String) (token : ℕ) → List (ℕ × String) → Job → Job
after_failures limit worker token [] j = j
after_failures limit worker token ((now, e) ∷ rest) j =
    after_failures limit worker token rest (fail limit now e (mark_claimed now worker token j))

-- The status of a row that has used up its tries.
abbrev pub given_up : Job → JobStatus
given_up j =
    if is_some j.refined_at && is_some j.completed_at then JobStatus.done else JobStatus.failed

-- A failure short of the limit.
record IsTried (j k : Job) : Type 0 where
  attempts : k.attempts ≡ j.attempts + 1
  status : k.status ≡ JobStatus.pending
  refined : is_some k.refined_at ≡ is_some j.refined_at
  completed : is_some k.completed_at ≡ is_some j.completed_at

fail_step :
    (limit : ℕ) (worker : String) (token now : ℕ) (e : String) (j : Job)
    → j.attempts + 1 < limit
    → IsTried j (fail limit now e (mark_claimed now worker token j))
unfolding fail mark_claimed
fail_step limit worker token now e j lt = ground arith

same_verdict :
    (limit m n : ℕ)
    → m ≡ n
    → {j k : Job} → IsTried j k
    → (if ltb m limit then JobStatus.pending else given_up k)
      ≡ (if ltb n limit then JobStatus.pending else given_up j)
same_verdict limit m n e step = rw (e, step.refined, step.completed)

-- A pending row that fails again and again stays pending and counts its tries as long as they are fewer
-- than the limit; at the limit it is failed, or done where it was a summary to be refined.
pub fail_budget :
    (limit : ℕ) (worker : String) (token : ℕ) (tries : List (ℕ × String)) (j : Job)
    → j.status ≡ JobStatus.pending
    → j.attempts + length tries ≤ limit
    → 0 < length tries
    → let last = after_failures limit worker token tries j in
      (last.attempts ≡ j.attempts + length tries)
      × (last.status
          ≡ (if ltb (j.attempts + length tries) limit then JobStatus.pending else given_up j))
unfolding after_failures
fail_budget limit worker token [] j p le pos = absurd (omega arith)
fail_budget limit worker token ((now, e) ∷ []) j p le pos =
    unfold fail mark_claimed in (ground arith, ground arith)
fail_budget limit worker token ((now, e) ∷ t ∷ rest) j p le pos =
    let next = fail limit now e (mark_claimed now worker token j) in
    let step = fail_step limit worker token now e j (omega arith) in
    let rec =
      fail_budget limit worker token (t ∷ rest) next step.status (omega (arith, step.attempts))
        (omega arith) in
    (
      omega (arith, rec.0, step.attempts),
      rec.1 ∙ same_verdict limit _ _ (omega (arith, step.attempts)) step,
    )

-- A session that was posted again after it was claimed is not lost when the summary of the earlier
-- transcript comes in: it is pending again, and nobody holds it.
pub written-continued :
    (u : CharTables) (digest_of : Option (List Message) → String) (shown : Json → String)
    (now later : ℕ) (b : JobBase) (summarizer : String) (j : Job) {claimed : ℕ}
    → j.claimed_at ≡ some claimed
    → claimed < now
    → let k = written later summarizer (continued_job u digest_of shown now b j) in
      (k.status ≡ JobStatus.pending) × (k.claim_token ≡ none) × (k.claimed_at ≡ none)
unfolding written continued_job
written-continued u digest_of shown now later b summarizer j c lt = ground arith

-- A claimed row is reclaimed exactly when its claim and its last heartbeat, if it had one, both lie
-- more than `stale_after` seconds back.
is_stale_lem :
    (now stale_after : ℕ) (j : Job) {claimed : ℕ}
    → is_claimed j.status ≡ true
    → j.claimed_at ≡ some claimed
    → (is_stale now stale_after j ≡ true) ↔ (
        (claimed + stale_after < now)
        × ((beat : ℕ) → j.heartbeat_at ≡ some beat → beat + stale_after < now))
unfolding is_stale greatest
is_stale_lem now stale_after j held c = elim (Option-cases j.heartbeat_at) [
  | inl quiet ↦ (λ h. (ground arith, λ beat e. absurd (cc (quiet, e))), λ h. ground arith)
  | inr (last, beats) ↦ (λ h. (ground arith, λ beat e. ground arith), λ h. ground (arith, h.1 last))
]
