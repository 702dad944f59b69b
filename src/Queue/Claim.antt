-- ===== src/Queue/Claim.antt =====
-- `claim_next` of backend/repositories/job.py: which row it hands out.
use knowledgebase_storage.Common.{
  ℕ, String, ◌≡◌, refl, Bool, true, false, not, ◌&&◌, Option, none, some, List, [], ◌∷◌, Memᴰ,
  arith, All,
}
use knowledgebase_storage.Common.Table.{select}
use knowledgebase_storage.Common.Table.Order.{IsStrictOrder, select_nothing, select_first}
use knowledgebase_storage.Models.{Job, NoteDecision, LlmProvider}
use knowledgebase_storage.Queue.{
  claimable, before_in_queue, mark_claimed, hand_out, claim_next, save,
}

before_in_queue-order : IsStrictOrder before_in_queue
before_in_queue-order = record {
  irrefl = λ a. ground arith;
  asym = λ a b h. ground arith;
  neg_trans = λ a b c h k. ground arith;
}

module _ (providers : List LlmProvider) (decisions : List NoteDecision) (locked : ℕ → Bool)
    (worker : String) (now idle : ℕ) (background : Bool) (priority : Option ℕ) (token : ℕ)
    (jobs : List Job) where
  -- A row that this claim may take: the filter lets it through, and no other transaction holds it.
  abbrev pub takes : Job → Bool
  takes j = claimable providers decisions now idle background priority j && not (locked j.id)

  abbrev pub taken : Option Job × List Job
  taken = claim_next providers decisions locked worker now idle background priority token jobs

  -- What a claim answers. `none`: no row may be taken, and the table is as it was. `some job`: `job` is
  -- the claimed form of a row of the table that may be taken, no row that may be taken has a smaller
  -- priority number or the same one and an earlier creation, and only that row is written.
  pub Answers : Option Job → List Job → Type 0
  Answers none rest = All (λ j. takes j ≡ false) jobs × (rest ≡ jobs)
  Answers (some job) rest =
      (j : Job) × Memᴰ j jobs
      × (takes j ≡ true)
      × (job ≡ mark_claimed now worker token j)
      × All (λ k. takes k ≡ true → before_in_queue k j ≡ false) jobs
      × (rest ≡ save now job jobs)

  hand_out-Answers :
      (ready : List Job)
      → select takes before_in_queue jobs ≡ ready
      → Answers (hand_out now worker token ready jobs).0 (hand_out now worker token ready jobs).1
  unfolding hand_out Answers
  hand_out-Answers [] e = (select_nothing takes before_in_queue jobs e, refl)
  hand_out-Answers (j ∷ rest) e =
      let (m, t, least) = select_first takes before_in_queue jobs j rest before_in_queue-order e in
      (j, m, t, refl, least, refl)

  -- A claim hands out a row that may be taken, marked as claimed, such that no row that may be taken has
  -- a smaller priority number, or the same one and an earlier creation, and writes only that row. Where
  -- no row may be taken it answers with none and writes nothing. A row may be taken where the filter of
  -- `claim_next` lets it through and no other transaction holds it.
  pub claim_next-Answers : Answers taken.0 taken.1
  unfolding claim_next
  claim_next-Answers = hand_out-Answers (select takes before_in_queue jobs) refl
