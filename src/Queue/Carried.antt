-- ===== src/Queue/Carried.antt =====
-- `carry_memory_merges` of backend/repositories/job.py keeps a closed predicate of the rows.
use knowledgebase_storage.Common.{
  ℕ, suc, String, inl, inr, Option, some, List, [], ◌∷◌, arith, ◌==◌, ◌<>◌, Bool-cases,
  Option-cases, All,
}
use knowledgebase_storage.Common.Table.Laws.{All-delete_where, All-first}
use knowledgebase_storage.Names.{CharTables}
use knowledgebase_storage.Models.{Job, background_session, memory_merge}
use knowledgebase_storage.Models.Json.{Json, Message}
use knowledgebase_storage.Queue.{retrieve_by_id}
use knowledgebase_storage.Queue.Background.{drop, or_empty, unfinished_memory_merges}
use knowledgebase_storage.Queue.Merges.{
  merge_each, carry_merge, carry_present, carry_merges, carry_memory_merges, path_name, or_blank,
}
use knowledgebase_storage.Queue.Tables.{All-save}
use knowledgebase_storage.Queue.Closed.{IsClosed}
use knowledgebase_storage.Queue.Invariant.{kept, All-ensure_memory_merge}

module _ (u : CharTables) (digest_of : Option (List Message) → String) (shown : Json → String)
    (Issued : ℕ → Type 0) (P : Job → Type 0) (c : IsClosed u digest_of shown Issued P) where
  All-merge_each :
      (fresh : ℕ → ℕ) (now : ℕ) (into name path : String) (documents : List Message)
      (jobs : List Job)
      → All P jobs
      → All P (merge_each fresh now into name path documents jobs)
  unfolding merge_each
  All-merge_each fresh now into name path [] jobs all = all
  All-merge_each fresh now into name path (document ∷ documents) jobs all =
      All-merge_each (λ n. fresh (suc n)) now into name path documents _
        (All-ensure_memory_merge u digest_of shown Issued P c (fresh 0) now into name path document
          jobs all)

  All-carry_merge :
      (fresh : ℕ → ℕ) (now : ℕ) (into base : String) (held : Job) (jobs : List Job)
      → P held
      → All P jobs
      → All P (carry_merge fresh now into base held jobs).1
  unfolding carry_merge drop
  All-carry_merge fresh now into base held jobs p all =
      let name = path_name (or_blank held.note_path) in
      let path = base <> ("/" <> name) in
      elim (Bool-cases (name == "")) [
        | inl e ↦ rw e all
        | inr e ↦
            elim (Bool-cases
              (held.key.session_id == background_session memory_merge (into <> ("/" <> name)))) [
                | inl f ↦
                    rw (e, f)
                      (All-save P (kept u digest_of shown Issued P c) now
                        (record held { note_path = some path }) jobs
                        (c.same held _ (ground arith) p) all)
                | inr f ↦
                    rw (e, f)
                      (All-delete_where P _ _ (
                        All-merge_each fresh now into name path (or_empty held.transcript) jobs
                          all))
              ]
      ]

  All-carry_merges :
      (fresh : ℕ → ℕ → ℕ) (now : ℕ) (into base : String) (rows jobs : List Job)
      → All P jobs
      → All P (carry_merges fresh now into base rows jobs).1
  unfolding carry_merges carry_present
  All-carry_merges fresh now into base [] jobs all = all
  All-carry_merges fresh now into base (row ∷ rows) jobs all =
      elim (Option-cases (retrieve_by_id row.id jobs)) [
        | inl e ↦ rw e (All-carry_merges (λ k. fresh (suc k)) now into base rows jobs all)
        | inr (held, e) ↦
            let p : P held = unfold retrieve_by_id in All-first P _ jobs all e in
            rw e (
              All-carry_merges (λ k. fresh (suc k)) now into base rows _
                (All-carry_merge (fresh 0) now into base held jobs p all))
      ]

  pub All-carry_memory_merges :
      (fresh : ℕ → ℕ → ℕ) (now : ℕ) (source into base : String) (jobs : List Job)
      → All P jobs
      → All P (carry_memory_merges fresh now source into base jobs).1
  unfolding carry_memory_merges
  All-carry_memory_merges fresh now source into base jobs all =
      All-carry_merges fresh now into base (unfinished_memory_merges source jobs) jobs all
