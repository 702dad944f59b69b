-- ===== src/Queue/Tables.antt =====
-- The queries of backend/repositories/job.py keep a predicate of the rows.
use knowledgebase_storage.Common.{
  ℕ, String, ◌≡◌, Bool, true, not, ◌&&◌, Option, none, some, List, [], ◌∷◌, arith, All,
}
use knowledgebase_storage.Common.Result.{Result, ok, raised, ◌>>=◌, ◌>>◌}
use knowledgebase_storage.Common.Table.{select}
use knowledgebase_storage.Common.Table.Laws.{All-first, All-put, All-update_where, select_passes}
use knowledgebase_storage.Models.{
  Job, SessionKey, NoteDecision, LlmProvider, is_claimed, is_pending,
}
use knowledgebase_storage.Queue.{
  same_row, save, bulk_update, retrieve_by_id, find_by_session, claimable, before_in_queue,
  mark_claimed, hand_out, claim_next,
}
use knowledgebase_storage.Queue.Workers.{claim_held, retrieve, found, verify_claim, holds_token}

pub same_row_sym : (a b : Job) → same_row a b ≡ true → same_row b a ≡ true
same_row_sym a b h = ground arith

pub record Keeps (P : Job → Type 0) : Type 0 where
  pub touch : (now : ℕ) (j : Job) → P j → P (record j { updated_at = now })

module _ (P : Job → Type 0) (k : Keeps P) where
  pub All-save :
      (now : ℕ) (job : Job) (jobs : List Job) → P job → All P jobs → All P (save now job jobs)
  unfolding save
  All-save now job jobs p all =
      All-put P same_row (record job { updated_at = now }) jobs (k.touch now job p) all

  pub All-bulk_update :
      (now : ℕ) (test : Job → Bool) (change : Job → Job) (jobs : List Job)
      → ((j : Job) → test j ≡ true → P j → P (change j))
      → All P jobs
      → All P (bulk_update now test change jobs)
  unfolding bulk_update
  All-bulk_update now test change jobs keeps all =
      All-update_where P test (λ j. record (change j) { updated_at = now }) jobs
        (λ j t p. k.touch now (change j) (keeps j t p)) all

  pub All-find_by_session :
      (key : SessionKey) (jobs : List Job) {j : Job}
      → All P jobs
      → find_by_session key jobs ≡ some j
      → P j
  unfolding find_by_session
  All-find_by_session key jobs all h = All-first P _ jobs all h

  pub All-retrieve :
      (id : ℕ) (jobs : List Job) {j : Job} → All P jobs → retrieve id jobs ≡ ok j → P j
  unfolding retrieve retrieve_by_id
  All-retrieve id jobs all h = All-first P _ jobs all (found_ok _ h)
    where
      found_ok : (o : Option Job) {j : Job} → found o ≡ ok j → o ≡ some j
      found_ok none e = cc
      found_ok (some i) e = ground arith

  All-hand_out :
      (now : ℕ) (worker : String) (token : ℕ) (ready jobs : List Job)
      → ((j : Job) → is_pending j.status ≡ true → P j → P (mark_claimed now worker token j))
      → All (λ j. P j × (is_pending j.status ≡ true)) ready
      → All P jobs
      → All P (hand_out now worker token ready jobs).1
  unfolding hand_out
  All-hand_out now worker token [] jobs mark ready all = all
  All-hand_out now worker token (j ∷ _) jobs mark ready all =
      All-save now (mark_claimed now worker token j) jobs (mark j ready.0.1 ready.0.0) all

-- a row that may be handed out is pending
pub claimable-pending :
    (ps : List LlmProvider) (ds : List NoteDecision) (now idle : ℕ) (b : Bool) (p : Option ℕ)
    (j : Job) (rest : Bool)
    → (claimable ps ds now idle b p j && rest) ≡ true
    → is_pending j.status ≡ true
unfolding claimable
claimable-pending ps ds now idle b p j rest h = ground arith

module _ (P : Job → Type 0) (k : Keeps P) where
  pub All-claim_next :
      (ps : List LlmProvider) (ds : List NoteDecision) (locked : ℕ → Bool) (worker : String)
      (now idle : ℕ) (b : Bool) (p : Option ℕ) (token : ℕ) (jobs : List Job)
      → ((j : Job) → is_pending j.status ≡ true → P j → P (mark_claimed now worker token j))
      → All P jobs
      → All P (claim_next ps ds locked worker now idle b p token jobs).1
  unfolding claim_next
  All-claim_next ps ds locked worker now idle b p token jobs mark all =
      let test = λ (j : Job). claimable ps ds now idle b p j && not (locked j.id) in
      All-hand_out P k now worker token (select test before_in_queue jobs) jobs mark
        (select_passes P test before_in_queue (λ j. is_pending j.status ≡ true) jobs
          (λ j. claimable-pending ps ds now idle b p j (not (locked j.id))) all)
        all

-- the claim that a request names is held: the row is claimed, under that token
pub claim_held_ok :
    (id token : ℕ) (jobs : List Job) (j : Job)
    → claim_held id token jobs ≡ ok j
    → (retrieve id jobs ≡ ok j)
      × (is_claimed j.status ≡ true)
      × (holds_token j.claim_token token ≡ true)
unfolding claim_held verify_claim
claim_held_ok id token jobs j h = held (retrieve id jobs) h
  where
    held :
        (r : Result Job)
        → (r >>= λ job. verify_claim job token >> ok job) ≡ ok j
        → (r ≡ ok j) × (is_claimed j.status ≡ true) × (holds_token j.claim_token token ≡ true)
    held (raised e) h = absurd (cc)
    held (ok i) h = ground arith
