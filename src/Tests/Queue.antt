-- ===== src/Tests/Queue.antt =====
-- The queue on one session that is posted, claimed, posted again and summarized.
use mathlib.Core.List.Memᴰ
use knowledgebase_storage.Common.{
  ◌+◌, List, eqb, ℕ, ◌≡◌, refl, ◌≢◌, true, false, none, some, [], ◌∷◌, arith, is_some, holds_text,
  All,
}
use knowledgebase_storage.Common.Result.{ok}
use knowledgebase_storage.Models.{Job, background_session, JobStatus, is_settled}
use knowledgebase_storage.Models.Json.{Message}
use knowledgebase_storage.Aliases.{resolve}
use knowledgebase_storage.Names.{named_project}
use knowledgebase_storage.Queue.{mark_claimed, find_by_session, decision_of, retrieve_by_id}
use knowledgebase_storage.Queue.Service.{continued_job, Queue, enqueue, fresh_job}
use knowledgebase_storage.Queue.Workers.{written, claim, claim_held}
use knowledgebase_storage.Queue.Steps.{Reach, here, next, enqueued, claimed}
use knowledgebase_storage.Queue.Rows.{IsSound}
use knowledgebase_storage.Queue.Sound.{reachable-IsSound}
use knowledgebase_storage.Queue.Tokens.{claim_held-retired}
use knowledgebase_storage.Queue.Claim.{Answers, taken, claim_next-Answers}
use knowledgebase_storage.Queue.Enqueue.{enqueue-again, enqueue-files}
use knowledgebase_storage.Queue.Background.{ensure_memory_merge, or_new}
use knowledgebase_storage.Queue.Merges.{carry_merge, carry_memory_merges, path_name}
use knowledgebase_storage.Queue.Documents.{waiting}
use knowledgebase_storage.Queue.Handover.{carry_merge-waiting}
use knowledgebase_storage.Queue.Retries.{written-continued, after_failures, fail_budget}
use knowledgebase_storage.Tests.Data.{ascii, digest, shown, key, post, longer, empty, says}

abbrev posted : Queue
posted = (enqueue ascii digest shown 1 100 post empty).2

abbrev held : Queue
held = (claim (λ _. false) 900 "w" none 0 7 posted).1

abbrev AnyToken : ℕ → Type 0
AnyToken _ = Unit

abbrev NotSeven : ℕ → Type 0
NotSeven n = n ≢ 7

run : Reach ascii digest shown AnyToken empty held
run = next (next here (enqueued empty 1 100 post)) (claimed posted (λ _. false) 900 "w" none 0 7 tt)

reachable-IsSound_example : All IsSound held.jobs
reachable-IsSound_example = reachable-IsSound ascii digest shown AnyToken run tt

first_post : Reach ascii digest shown NotSeven empty posted
first_post = next here (enqueued empty 1 100 post)

claim_held-retired_example :
    claim_held 1 7 posted.jobs ≢ ok (fresh_job ascii digest shown 1 100 post)
claim_held-retired_example =
    claim_held-retired ascii digest shown NotSeven 7 (λ not_seven. not_seven refl) tt first_post 1
      (fresh_job ascii digest shown 1 100 post)

claim_next-Answers_example :
    Answers [] []
      (λ _. false)
      "w"
      900
      600
      false
      none
      7
      posted.jobs
      (taken [] [] (λ _. false) "w" 900 600 false none 7 posted.jobs).0
      (taken [] [] (λ _. false) "w" 900 600 false none 7 posted.jobs).1
claim_next-Answers_example =
    claim_next-Answers [] [] (λ _. false) "w" 900 600 false none 7 posted.jobs

-- the posted session is claimed once it has been quiet for ten minutes
claim_waits :
    ((claim (λ _. false) 699 "w" none 0 7 posted).0 ≡ none)
    × (is_some (claim (λ _. false) 700 "w" none 0 7 posted).0 ≡ true)
unfolding claim enqueue
claim_waits = (refl, refl)

enqueue-again_example :
    ((enqueue ascii digest shown 2 101 post posted).1 ≡ false)
    × ((enqueue ascii digest shown 2 101 post posted).2 ≡ posted)
enqueue-again_example = enqueue-again ascii digest shown 1 100 2 101 post empty

enqueue-files_example :
    (j : Job) × (find_by_session key (enqueue ascii digest shown 1 100 post empty).2.jobs ≡ some j)
    × (j.transcript_digest ≡ some "one")
    × (((o : Job)
          → find_by_session key empty.jobs ≡ some o
          → holds_text o.transcript_digest "one" ≡ false)
        → (is_settled j.status ≡ false)
          × (j.project ≡ "demo")
          × ((messages : List Message)
              → post.transcript ≡ some messages
              → j.transcript ≡ some messages))
unfolding resolve named_project
enqueue-files_example =
    enqueue-files ascii digest shown 1 100 post empty (unfold decision_of in refl)

abbrev row : Job
row = fresh_job ascii digest shown 1 100 post

fail_budget_example :
    let last = after_failures 3 "w" 7 ((1, "a") ∷ (2, "b") ∷ (3, "c") ∷ []) row in
    (last.attempts ≡ 3) × (last.status ≡ JobStatus.failed)
unfolding fresh_job
fail_budget_example =
    fail_budget 3 "w" 7 ((1, "a") ∷ (2, "b") ∷ (3, "c") ∷ []) row refl (omega arith) (omega arith)

abbrev working : Job
working = mark_claimed 900 "w" 7 row

written-continued_example :
    let k = written 950 "local" (continued_job ascii digest shown 930 longer working) in
    (k.status ≡ JobStatus.pending) × (k.claim_token ≡ none) × (k.claimed_at ≡ none)
unfolding mark_claimed
written-continued_example =
    written-continued ascii digest shown 930 950 longer "local" working {claimed = 900} refl
      (omega arith)

-- Two documents wait for a memory of `demo`, and one for the memory of that name in `site`.
abbrev both_merging : List Job
both_merging =
    (ensure_memory_merge 3 50 "site" "a.md" "projects/site/memory/a.md" (says "three")
      (ensure_memory_merge 2 40 "demo" "a.md" "projects/demo/memory/a.md" (says "two")
        (ensure_memory_merge 2 30 "demo" "a.md" "projects/demo/memory/a.md" (says "one") []).1).1).1

abbrev demo_merge : Job
demo_merge = or_new (retrieve_by_id 2 both_merging) row

all_wait : waiting "site" "a.md" both_merging ≡ says "three" ∷ []
unfolding waiting ensure_memory_merge background_session
all_wait = refl

carried_row :
    carry_memory_merges (λ m n. 4 + n) 60 "demo" "site" "projects/site/memory" both_merging
    ≡ (1, (carry_merge (λ n. 4 + n) 60 "site" "projects/site/memory" demo_merge both_merging).1)
unfolding carry_memory_merges ensure_memory_merge retrieve_by_id background_session
carried_row = refl

carry_merge-waiting_example :
    let after =
      (carry_merge (λ n. 4 + n) 60 "site" "projects/site/memory" demo_merge both_merging).1 in
    (waiting "site" "a.md" after ≡ says "three" ∷ says "one" ∷ says "two" ∷ [])
    × All (λ j. eqb j.id 2 ≡ false) after
unfolding waiting ensure_memory_merge retrieve_by_id path_name background_session
carry_merge-waiting_example =
    carry_merge-waiting (λ n. 4 + n) 60 "site" "projects/site/memory" demo_merge both_merging refl
      refl ((refl, tt), (tt, tt)) (Memᴰ.head refl) (λ k. ground arith)
