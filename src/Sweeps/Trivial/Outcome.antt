-- ===== src/Sweeps/Trivial/Outcome.antt =====
-- What `settle_trivial` of backend/services/background.py makes of the job table.

use knowledgebase_storage.Common.{
  ℕ, String, ◌≡◌, refl, sym, subst, ◌∙◌, inl, inr, Bool, true, false, List, [], ◌∷◌, map, Memᴰ,
  arith, if◌then◌else◌, Bool-cases, All,
}
use knowledgebase_storage.Common.Table.Laws.{All-get, All-turn, All-members}
use knowledgebase_storage.Common.Table.Distinct.{IsDistinct, distinct_eq}
use knowledgebase_storage.Models.{Job}
use knowledgebase_storage.Blobs.{Bytes}
use knowledgebase_storage.Uploads.{Paths, Storage}
use knowledgebase_storage.Extract.Values.{Texts}
use knowledgebase_storage.Extract.Codex.{Patterns}
use knowledgebase_storage.Queue.{same_row, save, bulk_update}
use knowledgebase_storage.Queue.Unsummarized.{
  is_noteless, settle_noteless, settle_without_note, pending_sessions,
}
use knowledgebase_storage.Queue.Tables.{same_row_sym}
use knowledgebase_storage.Sweeps.Trivial.{
  asks_nothing, is_readable, settle_one, settle_each, settle_trivial, trivial_scan,
}
use knowledgebase_storage.Sweeps.Trivial.Rows.{
  among, settled_row, map-congr, map_self, update_where-map, put-map, IsScanned,
  pending_sessions-IsScanned, Came, Came-id, noteless_step, noteless_step_same, noteless_step_other,
}

-- each row of a table stands for the row that it was
abbrev IsFine : (now : ℕ) → List Job → (Job → Job) → Type 0
IsFine now xs g = All (λ j. Came now j (g j)) xs

IsFine-ids :
    (now : ℕ) (xs : List Job) (g : Job → Job) → IsFine now xs g → All (λ j. (g j).id ≡ j.id) xs
IsFine-ids now xs g fine =
    All-turn (λ j. Came now j (g j)) (λ j. (g j).id ≡ j.id) (λ j c. Came-id now j (g j) c) xs fine

module _ (p : Texts) (q : Patterns) (slash_only : String → Bool) (decode : Bytes → List String)
    (paths : Paths) (storage : Storage) (now : ℕ) where
  -- what becomes of a row that the scan takes up
  unfoldable pub outcome : Job → Job
  unfolding settled_row
  outcome j =
      if asks_nothing p q slash_only decode paths storage j
      then settled_row now j
      else record j { updated_at = now }

  abbrev step : Job → (Job → Job) → Job → Job
  step job g j = if same_row job j then outcome j else g j

  step-IsFine :
      (job : Job) (g : Job → Job) (xs : List Job) → IsFine now xs g → IsFine now xs (step job g)
  unfolding outcome
  step-IsFine job g xs fine =
      All-turn (λ j. Came now j (g j)) _
        (λ j c. elim (Bool-cases (same_row job j)) [
          | inl same ↦
              rw same (elim (Bool-cases (asks_nothing p q slash_only decode paths storage j)) [
                | inl e ↦ rw e (inr refl)
                | inr e ↦ rw e (inl refl)
              ])
          | inr other ↦ rw other c
        ])
        xs fine

  -- what holds at the scanned row, and at each row of another identity, holds at all rows
  by_row :
      (R : Job → Type 0) (job : Job) (xs : List Job)
      → IsDistinct same_row xs
      → Memᴰ job xs
      → R job
      → ((j : Job) → Memᴰ j xs → same_row job j ≡ false → R j)
      → All R xs
  by_row R job xs d m own others = All-members R xs (λ j n. elim (Bool-cases (same_row job j)) [
    | inl same ↦ subst R (distinct_eq same_row same_row_sym xs job j d m n same) own
    | inr other ↦ others j n other
  ])

  step_own : (job : Job) (g : Job → Job) (row : Job) → outcome job ≡ row → step job g job ≡ row
  step_own job g row e = let own : same_row job job ≡ true = ground arith in rw own e

  outcome_settled :
      (job : Job)
      → asks_nothing p q slash_only decode paths storage job ≡ true
      → outcome job ≡ settled_row now job
  unfolding outcome
  outcome_settled job e = rw e refl

  touched_own :
      (job : Job) (g : Job → Job)
      → asks_nothing p q slash_only decode paths storage job ≡ false
      → (if same_row job job then record job { updated_at = now } else g job) ≡ step job g job
  unfolding outcome
  touched_own job g e = let own : same_row job job ≡ true = ground arith in rw (own, e) refl

  settle_one-map :
      (job : Job) (g : Job → Job) (xs : List Job)
      → IsDistinct same_row xs
      → Memᴰ job xs
      → IsScanned job
      → IsFine now xs g
      → (settle_one p q slash_only decode paths storage now job (map g xs)).1 ≡ map (step job g) xs
  unfolding settle_one settle_without_note bulk_update save
  settle_one-map job g xs d m scanned fine =
      let came : (j : Job) → Memᴰ j xs → Came now j (g j) =
        λ j n. All-get (λ j. Came now j (g j)) xs j fine n in
      elim (Bool-cases (asks_nothing p q slash_only decode paths storage job)) [
        | inl e ↦ rw e (
            update_where-map (is_noteless job job.last_activity_at)
              (λ j. record (settle_noteless now j) { updated_at = now }) g (step job g) xs
              (by_row (λ j. noteless_step now job (g j) ≡ step job g j) job xs d m
                (noteless_step_same now job (g job) scanned (came job m)
                  ∙ sym (step_own job g (settled_row now job) (outcome_settled job e)))
                (λ j n other.
                  rw other
                    (noteless_step_other now job j (g j) other (Came-id now j (g j) (came j n))))))
        | inr e ↦ rw e (
            put-map (record job { updated_at = now }) job g xs refl d m (IsFine-ids now xs g fine)
            ∙ map-congr _ (step job g) xs (
                by_row
                  (λ j.
                    (if same_row job j then record job { updated_at = now } else g j)
                    ≡ step job g j)
                  job xs d m (touched_own job g e) (λ j n other. rw other refl)))
      ]

  taken : List Job → (Job → Job) → Job → Job
  taken scan g j = if among scan j then outcome j else g j

  -- the sessions before the first whose transcript cannot be read
  abbrev pub up_to_error : List Job → List Job
  up_to_error [] = []
  up_to_error (job ∷ rest) =
      if is_readable p q slash_only decode paths storage job then job ∷ up_to_error rest else []

  settle_each-map :
      (scan : List Job) (g : Job → Job) (xs : List Job)
      → IsDistinct same_row xs
      → All (λ j. Memᴰ j xs × IsScanned j) scan
      → IsFine now xs g
      → (settle_each p q slash_only decode paths storage now scan (map g xs)).2
        ≡ map (taken (up_to_error scan) g) xs
  unfolding settle_each among taken
  settle_each-map [] g xs d all fine = refl
  settle_each-map (job ∷ rest) g xs d all fine =
      elim (Bool-cases (is_readable p q slash_only decode paths storage job)) [
        | inl e ↦
            rw
              (
                e,
                settle_one-map job g xs d all.0.0 all.0.1 fine,
                settle_each-map rest (step job g) xs d all.1 (step-IsFine job g xs fine),
              )
              (map-congr (taken (up_to_error rest) (step job g)) (taken (job ∷ up_to_error rest) g)
                xs (All-members _ xs (λ j n. ground arith)))
        | inr e ↦ rw e refl
      ]

  -- The table after `settle_trivial` is the table before it, with each row that the scan takes up before the
  -- first whose transcript raises an error, and no other, settled if its session asked for nothing, or else
  -- marked as looked at now. Rows have different identifiers.
  pub settle_trivial_lem :
      (job_idle_seconds : ℕ) (jobs : List Job)
      → IsDistinct same_row jobs
      → (settle_trivial p q slash_only decode paths storage now job_idle_seconds jobs).2
        ≡ map
            (λ j.
              if among (up_to_error (pending_sessions now job_idle_seconds trivial_scan jobs)) j
              then outcome j
              else j)
            jobs
  unfolding settle_trivial taken
  settle_trivial_lem idle jobs d =
      let scan = pending_sessions now idle trivial_scan jobs in
      let same : map (λ (j : Job). j) jobs ≡ jobs = map_self jobs in
      subst
        (λ xs.
          (settle_each p q slash_only decode paths storage now scan xs).2
          ≡ map (taken (up_to_error scan) (λ j. j)) jobs)
        same
        (settle_each-map scan (λ j. j) jobs d
          (pending_sessions-IsScanned now idle trivial_scan jobs)
          (All-members _ jobs (λ j n. inl refl)))
